-- ===== src/Control/Examples.antt =====
-- newz/control, a ledger of two reservations and runs on it.
use new_z.Prelude.{
  ℕ, ◌≤◌, ◌≡◌, refl, false, none, some, [], ◌∷◌, String, ◌==◌, string_eq, text_lt, length, select,
}
use new_z.Prelude.Search.{take_text}
use new_z.Domain.Operations.{
  ReadLane, OperationKind, OperationState, FetchRefusal, read_lane_eq, read_lane_value,
}
use new_z.Domain.Int.{ℤ, minus}
use new_z.Control.Budget.{default_budget, capacity_of, availability}
use new_z.Control.Ledger.{OperationRow, Ledger}
use new_z.Control.Scheduler.{
  Operation, Request, Answer, reserve, commit, claim, finish, find_key, operation_of, new_row,
  insert_rows, used_by_lane, precheck, month_of, requests_this_month, stored_bytes_this_month,
  refuse, update_where,
}
use new_z.Control.Scheduler.Capacity.{on_day}
use new_z.Control.Scheduler.Leases.{claim-exclusive}
use new_z.Control.Scheduler.Steps.{Step, Reaches, Reaches-day}
use new_z.Control.Scheduler.Columns.{SameButState}
use new_z.Control.Scheduler.Again.{reserve-again}

abbrev within_share : Ledger → String → String → String
within_share store source day = ""

abbrev request : String → ReadLane → Request
request name lane = record {
  operation_id = name;
  reservation_id = name;
  kind = OperationKind.fetch;
  lane = lane;
  source_revision_id = "src-1";
  epoch_id = "epoch-1";
  policy_version = "1.0.0";
  intent = "read";
  idempotency_key = name;
  local_day = "2026-03-01";
  budget = default_budget;
  discovery_paused = "";
}

abbrev empty_ledger : Ledger
empty_ledger = record {
  operations = [];
  reservations = [];
  reservation_refusals = [];
  diet_epoch_sources = ("epoch-1", "src-1") ∷ [];
  attempts = [];
  artifacts = [];
}

abbrev one_read : Ledger
one_read = (reserve within_share empty_ledger (request "op-1" ReadLane.discovery)).0

abbrev two_reads : Ledger
two_reads = (reserve within_share one_read (request "op-2" ReadLane.correction)).0

abbrev claimed : Ledger
claimed = (claim two_reads "op-1" "worker" "10:00" "11:00").0

-- Verification has used its five slots, correction one of its two.
abbrev used : ReadLane → ℕ
used ReadLane.discovery = 0
used ReadLane.verification = 5
used ReadLane.correction = 1

Reaches-day_example :
    (length (on_day "2026-03-01" two_reads.reservations) ≤ 10)
    × (length (
          select
            (λ row. row.lane == ReadLane.discovery)
            (on_day "2026-03-01" two_reads.reservations))
        ≤ 3)
unfolding capacity_of
Reaches-day_example =
    Reaches-day {would_exceed = within_share} {budget = default_budget} "2026-03-01"
      (Reaches.next (Step.reserves (request "op-1" ReadLane.discovery) refl refl)
        (Reaches.next (Step.reserves (request "op-2" ReadLane.correction) refl refl) Reaches.here))
      refl

-- The first operation, as it was reserved, and the ledger after a claim of it.
abbrev first_read : Operation
first_read = operation_of (new_row (request "op-1" ReadLane.discovery)) none

abbrev one_claimed : Ledger
one_claimed = (claim one_read "op-1" "worker" "10:00" "11:00").0

reserve-again_example :
    (reserve within_share one_read (request "op-1" ReadLane.discovery)
      ≡ (one_read, Answer.granted first_read))
    × ((o : Operation) × (reserve within_share one_claimed (request "op-1" ReadLane.discovery)
          ≡ (one_claimed, Answer.granted o))
        × SameButState first_read o)
unfolding reserve commit availability capacity_of minus precheck used_by_lane find_key take_text
    month_of requests_this_month stored_bytes_this_month insert_rows new_row operation_of
reserve-again_example =
    reserve-again within_share empty_ledger one_claimed (request "op-1" ReadLane.discovery)
      (request "op-1" ReadLane.discovery) first_read default_budget refl refl
      (Reaches.next (Step.claims_one "op-1" "worker" "10:00" "11:00" refl) Reaches.here)

claim-exclusive_example : (claim claimed "op-1" "other" "10:30" "12:00").1 ≡ false
unfolding reserve commit availability capacity_of minus precheck used_by_lane find_key take_text
    month_of requests_this_month stored_bytes_this_month insert_rows new_row operation_of claim
    update_where text_lt
claim-exclusive_example =
    claim-exclusive two_reads "op-1" "worker" "10:00" "11:00" "other" "10:30" "12:00" refl refl refl

abbrev ended : Ledger
ended = elim (finish claimed "op-1" OperationState.succeeded "retained") [
  | none ↦ claimed
  | some t ↦ t
]

abbrev ended_row : OperationRow
ended_row = record (new_row (request "op-1" ReadLane.discovery)) {
  state = OperationState.succeeded;
  outcome = some "retained";
}

abbrev one_slot : Request
one_slot = record (request "op-1" ReadLane.discovery) {
  budget = record { discovery = ℤ.pos 1; verification = ℤ.pos 1; correction = ℤ.pos 0 };
}

-- The writer that lost the race for the last slot is refused, although its key is held.
commit_last_slot :
    (commit (commit empty_ledger one_slot).0 one_slot).1
    ≡ Answer.refused FetchRefusal.budget_exhausted "discovery on 2026-03-01"
unfolding commit availability capacity_of minus used_by_lane find_key insert_rows new_row
    operation_of refuse read_lane_value
commit_last_slot = refl
