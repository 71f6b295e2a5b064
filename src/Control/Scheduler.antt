-- ===== src/Control/Scheduler.antt =====
-- newz/control/scheduler.py: reservations, leases and terminal states of operations. A time is its
-- stamp, and `would_exceed`, the share of a publisher as a floating-point number, is a parameter.
pub mod Capacity
pub mod Rows
pub mod Leases
pub mod Steps
pub mod Columns
pub mod Again
use Prim.Native.String.{◌++◌ as text_append}
use new_z.Prelude.{
  ℕ, zero, suc, ◌+◌, Bool, true, false, not, ◌&&◌, ◌||◌, Option, none, some, List, [], ◌∷◌, ◌++◌,
  map, String, ◌==◌, string_eq, nat_beq, ltb, leb, if◌then◌else◌, is_text, text_lt, length,
  contains, exists, select, sort_by,
}
use new_z.Prelude.Search.{take_text}
use new_z.Domain.Operations.{
  ReadLane, OperationKind, OperationState, FetchRefusal, read_lane_eq, operation_state_eq,
  read_lane_value,
}
use new_z.Control.Budget.{
  DailyBudget, LaneAvailability, is_available, availability, monthly_request_ceiling,
  monthly_storage_ceiling_bytes,
}
use new_z.Control.Budget.Laws.{charged, lender}
use new_z.Control.Ledger.{OperationRow, ReservationRow, RefusalRow, Ledger}

abbrev pub terminal_operation_states : List OperationState
terminal_operation_states =
    OperationState.succeeded ∷ OperationState.failed ∷ OperationState.quarantined
    ∷ OperationState.cancelled ∷ OperationState.expired ∷ []

pub record Operation : Type 0 where
  pub id : String
  pub kind : OperationKind
  pub lane : ReadLane
  pub source_revision_id : String
  pub epoch_id : String
  pub policy_version : String
  pub intent : String
  pub idempotency_key : String
  pub state : OperationState
  pub local_day : String
  pub borrowed_from : Option ReadLane

-- `_used_by_lane(store, local_day).get(lane, 0)`
unfoldable pub used_by_lane : List ReservationRow → String → ReadLane → ℕ
used_by_lane rows local_day lane =
    length (select (λ r. r.local_day == local_day && charged r.lane r.borrowed_from == lane) rows)

unfoldable pub month_of : String → String
month_of local_day = take_text 7 local_day

unfoldable pub requests_this_month : Ledger → String → ℕ
requests_this_month store local_day =
    length (select (λ at. take_text 7 at == month_of local_day) store.attempts)

abbrev pub sum_bytes : List (String × ℕ) → ℕ
sum_bytes [] = 0
sum_bytes ((at, bytes) ∷ rest) = bytes + sum_bytes rest

unfoldable pub stored_bytes_this_month : Ledger → String → ℕ
stored_bytes_this_month store local_day =
    sum_bytes (select (λ a. take_text 7 a.0 == month_of local_day) store.artifacts)

-- The arguments of `reserve`.
pub record Request : Type 0 where
  pub operation_id : String
  pub reservation_id : String
  pub kind : OperationKind
  pub lane : ReadLane
  pub source_revision_id : String
  pub epoch_id : String
  pub policy_version : String
  pub intent : String
  pub idempotency_key : String
  pub local_day : String
  pub budget : DailyBudget
  pub discovery_paused : String

-- An operation, a ReservationRefused with its reason and detail, or the IntegrityError of a key
-- that is taken.
pub data Answer : Type 0 where
  granted : Operation → Answer
  refused : FetchRefusal → String → Answer
  integrity_error : Answer

unfoldable pub find_key : List OperationRow → String → Option OperationRow
find_key [] key = none
find_key (row ∷ rows) key = if row.idempotency_key == key then some row else find_key rows key

-- `SELECT borrowed_from FROM reservations WHERE operation_id = ?`, none where no row is found.
unfoldable pub borrowed_by : List ReservationRow → String → Option ReadLane
borrowed_by [] operation_id = none
borrowed_by (row ∷ rows) operation_id =
    if row.operation_id == operation_id then row.borrowed_from else borrowed_by rows operation_id

unfoldable pub operation_of : OperationRow → Option ReadLane → Operation
operation_of row borrowed_from = record {
  id = row.id;
  kind = row.kind;
  lane = row.lane;
  source_revision_id = row.source_revision_id;
  epoch_id = row.epoch_id;
  policy_version = row.policy_version;
  intent = row.intent;
  idempotency_key = row.idempotency_key;
  state = row.state;
  local_day = row.local_day;
  borrowed_from = borrowed_from;
}

-- The row that `reserve` inserts.
unfoldable pub new_row : Request → OperationRow
new_row r = record {
  id = r.operation_id;
  kind = r.kind;
  lane = r.lane;
  source_revision_id = r.source_revision_id;
  epoch_id = r.epoch_id;
  policy_version = r.policy_version;
  intent = r.intent;
  idempotency_key = r.idempotency_key;
  state = OperationState.reserved;
  local_day = r.local_day;
  lease_owner = none;
  lease_expires_at = none;
  outcome = none;
}

-- `record_refusal`, then the raise.
unfoldable pub refuse : Ledger → Request → FetchRefusal → String → Ledger × Answer
refuse store r reason detail = (
  record store {
    reservation_refusals =
        store.reservation_refusals
        ++ record {
          idempotency_key = r.idempotency_key;
          source_revision_id = r.source_revision_id;
          lane = r.lane;
          refusal = reason;
          detail = detail;
          local_day = r.local_day;
        }
          ∷ [];
  },
  Answer.refused reason detail,
)

-- The operation that holds the key already.
abbrev pub existing : Ledger → OperationRow → Answer
existing store row = Answer.granted (operation_of row (borrowed_by store.reservations row.id))

abbrev pub reservation_row : Request → Option ReadLane → ReservationRow
reservation_row r borrowed_from = record {
  id = r.reservation_id;
  operation_id = r.operation_id;
  local_day = r.local_day;
  lane = r.lane;
  borrowed_from = borrowed_from;
}

-- The two rows of a reservation.
unfoldable pub insert_rows : Ledger → Request → Option ReadLane → Ledger
insert_rows store r borrowed_from = record store {
  operations = store.operations ++ new_row r ∷ [];
  reservations = store.reservations ++ reservation_row r borrowed_from ∷ [];
}

-- A primary or unique key of the two rows that is taken, other than the idempotency key.
abbrev pub is_taken : Ledger → Request → Bool
is_taken store r =
    exists (λ o. o.id == r.operation_id) store.operations
    || exists (λ v. v.id == r.reservation_id || v.operation_id == r.operation_id) store.reservations

-- The block under the write lock. The ledger may have moved since it was checked: where another
-- writer took the idempotency key, `reserve` is called again and returns what that writer made. The
-- idempotency key is the one that is reported where several keys are taken.
unfoldable pub commit : Ledger → Request → Ledger × Answer
commit store r =
    let lane_state = availability r.lane (used_by_lane store.reservations r.local_day) r.budget in
    if not (is_available lane_state)
    then refuse store r FetchRefusal.budget_exhausted
        (text_append (read_lane_value r.lane) (text_append " on " r.local_day))
    else elim (find_key store.operations r.idempotency_key) [
      | some row ↦ (store, existing store row)
      | none ↦ if is_taken store r then (store, Answer.integrity_error) else (
        insert_rows store r (lender lane_state),
        Answer.granted (operation_of (new_row r) (lender lane_state)),
      )
    ]

module _ (would_exceed : Ledger → String → String → String) where
  -- The refusals ahead of the write lock, in their order: `none` is none of them.
  unfoldable pub precheck : Ledger → Request → Option (FetchRefusal × String)
  precheck store r =
      if not
        (exists (λ p. p.0 == r.epoch_id && p.1 == r.source_revision_id) store.diet_epoch_sources)
      then some (
        FetchRefusal.host_not_in_catalog,
        text_append r.source_revision_id (text_append " is not enabled in " r.epoch_id),
      )
      else if r.lane == ReadLane.discovery && is_text r.discovery_paused
      then some (FetchRefusal.discovery_paused, r.discovery_paused)
      else if leb monthly_request_ceiling (requests_this_month store r.local_day)
      then some (FetchRefusal.request_ceiling, month_of r.local_day)
      else if leb monthly_storage_ceiling_bytes (stored_bytes_this_month store r.local_day)
      then some (FetchRefusal.storage_ceiling, month_of r.local_day)
      else if is_text (would_exceed store r.source_revision_id r.local_day)
      then some (
        FetchRefusal.publisher_concentration,
        would_exceed store r.source_revision_id r.local_day,
      )
      else none

  -- `reserve`, with no other writer between the check and the lock.
  unfoldable pub reserve : Ledger → Request → Ledger × Answer
  reserve store r = elim (find_key store.operations r.idempotency_key) [
    | some row ↦ (store, existing store row)
    | none ↦ elim (precheck store r) [
      | some (reason, detail) ↦ refuse store r reason detail
      | none ↦ commit store r
    ]
  ]

-- `lease_expires_at IS NULL OR lease_expires_at <= now`
abbrev pub is_free : Option String → String → Bool
is_free none now = true
is_free (some expires) now = not (text_lt now expires)

abbrev pub is_claimable : String → String → OperationRow → Bool
is_claimable operation_id now row =
    row.id == operation_id
    && (contains (OperationState.reserved ∷ OperationState.leased ∷ []) row.state
        && is_free row.lease_expires_at now)

-- `UPDATE operations SET ... WHERE ...`, with `rowcount`.
unfoldable pub update_where :
    (OperationRow → Bool)
    → (OperationRow → OperationRow)
    → List OperationRow
    → List OperationRow × ℕ
update_where p f rows = (map (λ row. if p row then f row else row) rows, length (select p rows))

unfoldable pub claim : Ledger → (operation_id owner now expires : String) → Ledger × Bool
claim store operation_id owner now expires =
    let (operations, rowcount) =
      update_where (is_claimable operation_id now)
        (λ row. record row {
          state = OperationState.leased;
          lease_owner = some owner;
          lease_expires_at = some expires;
        })
        store.operations in
    (record store { operations = operations }, nat_beq rowcount 1)

-- `state = 'leased' AND lease_expires_at <= now`
abbrev pub is_reclaimable : String → OperationRow → Bool
is_reclaimable now row =
    row.state == OperationState.leased
    && elim row.lease_expires_at [ none ↦ false | some expires ↦ not (text_lt now expires) ]

unfoldable pub reclaimable : Ledger → String → List String
reclaimable store now =
    sort_by text_lt (map (λ row. row.id) (select (is_reclaimable now) store.operations))

abbrev pub is_terminal : OperationState → Bool
is_terminal state = contains terminal_operation_states state

-- `none` is ValueError. Raised in the transaction, it rolls the update back.
unfoldable pub finish : Ledger → String → OperationState → String → Option Ledger
finish store operation_id state outcome =
    if not (is_terminal state)
    then none
    else let (operations, rowcount) =
        update_where (λ row. row.id == operation_id && not (is_terminal row.state))
          (λ row. record row {
            state = state;
            outcome = some outcome;
            lease_owner = none;
            lease_expires_at = none;
          })
          store.operations in
      if nat_beq rowcount 1 then some (record store { operations = operations }) else none
