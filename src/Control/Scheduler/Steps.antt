-- ===== src/Control/Scheduler/Steps.antt =====
-- The ledger over any interleaving of reservations, claims, finishes and reads by other parts.
use new_z.Prelude.{
  ◌+◌, ◌≤◌, ◌≡◌, ◌⊎◌, refl, Option, sym, false, some, [], ◌∷◌, ◌++◌, arith, String, ◌==◌, string_eq,
  length, select, Bool-cases, Option-cases, inl, inr,
}
use mathlib.Core.Path.{subst}
use new_z.Domain.Operations.{ReadLane, read_lane_eq, OperationState, operation_state_eq}
use new_z.Control.Budget.{DailyBudget, is_available, availability}
use new_z.Control.Budget.Laws.{slots, lender}
use new_z.Control.Ledger.{Ledger}
use new_z.Control.Scheduler.{
  Request, used_by_lane, reservation_row, find_key, refuse, new_row, insert_rows, is_taken, commit,
  precheck, reserve, update_where, claim, finish,
}
use new_z.Control.Scheduler.Capacity.{
  WithinBudget, WithinBudget-day, on_day, commit-WithinBudget, reserve-WithinBudget,
}
use new_z.Control.Scheduler.Leases.{finish-finished, finished-reservations}

-- One write to the ledger. `observe` is a write of another part, to the tables that are only read
-- here. A commit need not follow its own check.
pub data Step (would_exceed : Ledger → String → String → String) (budget : DailyBudget)
    : Ledger → Ledger → Type 0 where
  reserves :
      {s t : Ledger} (r : Request)
      → r.budget ≡ budget
      → t ≡ (reserve would_exceed s r).0
      → Step would_exceed budget s t
  commits :
      {s t : Ledger} (r : Request)
      → r.budget ≡ budget
      → t ≡ (commit s r).0
      → Step would_exceed budget s t
  claims_one :
      {s t : Ledger} (id owner now expires : String)
      → t ≡ (claim s id owner now expires).0
      → Step would_exceed budget s t
  finishes :
      {s t : Ledger} (id : String) (state : OperationState) (outcome : String)
      → finish s id state outcome ≡ some t
      → Step would_exceed budget s t
  observes :
      {s t : Ledger}
      → t.operations ≡ s.operations
      → t.reservations ≡ s.reservations
      → Step would_exceed budget s t

pub data Reaches (would_exceed : Ledger → String → String → String) (budget : DailyBudget)
    : Ledger → Ledger → Type 0 where
  here : {s : Ledger} → Reaches would_exceed budget s s
  next :
      {s t u : Ledger}
      → Step would_exceed budget s t
      → Reaches would_exceed budget t u
      → Reaches would_exceed budget s u

Step-WithinBudget :
    {would_exceed : Ledger → String → String → String} {budget : DailyBudget} {s t : Ledger}
    → Step would_exceed budget s t
    → WithinBudget budget s.reservations
    → WithinBudget budget t.reservations
unfolding claim update_where
Step-WithinBudget {would_exceed} {budget} {s} {t} (Step.reserves r same e) w =
    subst (λ b. WithinBudget b t.reservations) same
      (subst (λ (x : Ledger). WithinBudget r.budget x.reservations) (sym e)
        (reserve-WithinBudget would_exceed s r
          (subst (λ b. WithinBudget b s.reservations) (sym same) w)))
Step-WithinBudget {would_exceed} {budget} {s} {t} (Step.commits r same e) w =
    subst (λ b. WithinBudget b t.reservations) same
      (subst (λ (x : Ledger). WithinBudget r.budget x.reservations) (sym e)
        (commit-WithinBudget s r (subst (λ b. WithinBudget b s.reservations) (sym same) w)))
Step-WithinBudget {would_exceed} {budget} {s} {t} (Step.claims_one id owner now expires e) w =
    subst (λ (x : Ledger). WithinBudget budget x.reservations) (sym e) w
Step-WithinBudget {would_exceed} {budget} {s} {t} (Step.finishes id state outcome e) w =
    let (_, _, same) = finish-finished s t id state outcome e in
    subst (λ (x : Ledger). WithinBudget budget x.reservations) same
      (subst (WithinBudget budget) (sym (finished-reservations s id state outcome)) w)
Step-WithinBudget {would_exceed} {budget} {s} {t} (Step.observes o v) w =
    subst (WithinBudget budget) (sym v) w

Reaches-WithinBudget :
    {would_exceed : Ledger → String → String → String} {budget : DailyBudget} {s t : Ledger}
    → Reaches would_exceed budget s t
    → WithinBudget budget s.reservations
    → WithinBudget budget t.reservations
Reaches-WithinBudget Reaches.here w = w
Reaches-WithinBudget (Reaches.next step more) w =
    Reaches-WithinBudget more (Step-WithinBudget step w)

nothing-WithinBudget : (budget : DailyBudget) → WithinBudget budget []
unfolding used_by_lane
nothing-WithinBudget budget = record { within = λ day lane. omega arith; loans = refl }

-- Through every interleaving of writers that keep one budget, from a ledger without reservations,
-- a day never has more reservations than the three lanes have slots, and never more of discovery
-- than discovery has: no loan reaches it.
pub Reaches-day :
    {would_exceed : Ledger → String → String → String} {budget : DailyBudget} {s t : Ledger}
    (day : String)
    → Reaches would_exceed budget s t
    → s.reservations ≡ []
    → (length (on_day day t.reservations)
        ≤ slots budget ReadLane.discovery
          + slots budget ReadLane.verification
          + slots budget ReadLane.correction)
      × (length (select (λ row. row.lane == ReadLane.discovery) (on_day day t.reservations))
          ≤ slots budget ReadLane.discovery)
Reaches-day {budget} {t} day reached start = WithinBudget-day budget t.reservations day (
    Reaches-WithinBudget reached
      (subst (WithinBudget budget) (sym start) (nothing-WithinBudget budget)))

-- A commit leaves the operations and the reservations, or appends one of each, whose ids were free.
abbrev pub Appends : Ledger → Request → Ledger → Type 0
Appends s r t =
    ((t.operations ≡ s.operations) × (t.reservations ≡ s.reservations))
    ⊎ ((borrowed_from : Option ReadLane) × (t.operations ≡ s.operations ++ new_row r ∷ [])
        × (t.reservations ≡ s.reservations ++ reservation_row r borrowed_from ∷ [])
        × (is_taken s r ≡ false))

pub commit-Appends : (s : Ledger) (r : Request) → Appends s r (commit s r).0
unfolding commit refuse insert_rows
commit-Appends s r =
    elim (Bool-cases
      (is_available (availability r.lane (used_by_lane s.reservations r.local_day) r.budget))) [
        | inr full ↦ inl (rw full (refl, refl))
        | inl room_left ↦ elim (Option-cases (find_key s.operations r.idempotency_key)) [
          | inr (row, held) ↦ inl (rw (room_left, held) (refl, refl))
          | inl fresh ↦ elim (Bool-cases (is_taken s r)) [
            | inl taken ↦ inl (rw (room_left, fresh, taken) (refl, refl))
            | inr free ↦ inr (
              lender (availability r.lane (used_by_lane s.reservations r.local_day) r.budget),
              rw (room_left, fresh, free) refl,
              rw (room_left, fresh, free) refl,
              free,
            )
          ]
        ]
      ]

pub reserve-Appends :
    (would_exceed : Ledger → String → String → String) (s : Ledger) (r : Request)
    → Appends s r (reserve would_exceed s r).0
unfolding reserve refuse
reserve-Appends would_exceed s r = elim (Option-cases (find_key s.operations r.idempotency_key)) [
  | inr (row, held) ↦ inl (rw (held, reserve) (refl, refl))
  | inl fresh ↦ elim (Option-cases (precheck would_exceed s r)) [
    | inr (reason, why) ↦ inl (rw (fresh, why, reserve) (refl, refl))
    | inl clear ↦ rw (fresh, clear, reserve) (commit-Appends s r)
  ]
]
