-- ===== src/Control/Scheduler/Columns.antt =====
-- What stays of an operation under its key, through any interleaving of writers.
use new_z.Prelude.{
  ◌≡◌, refl, sym, ap, ◌∙◌, false, Option, none, some, List, [], ◌∷◌, ◌++◌, map, arith, String, ◌==◌,
  string_eq, if◌then◌else◌, exists, Bool-cases, inl, inr,
}
use mathlib.Core.Path.{subst}
use new_z.Domain.Operations.{ReadLane, OperationState, operation_state_eq}
use new_z.Control.Budget.{DailyBudget}
use new_z.Control.Ledger.{OperationRow, ReservationRow, Ledger}
use new_z.Control.Scheduler.{
  Operation, Request, find_key, borrowed_by, operation_of, new_row, reservation_row, commit,
  reserve, is_claimable, update_where, claim,
}
use new_z.Control.Scheduler.Leases.{
  finished, finish-finished, finished-operations, finished-reservations, is_endable,
}
use new_z.Control.Scheduler.Steps.{Step, Reaches, Appends, commit-Appends, reserve-Appends}

-- The two operations differ in their state only.
abbrev pub SameButState : Operation → Operation → Type 0
SameButState o o' = record o' { state = o.state } ≡ o

-- The ledger holds the operation under the key, in some state.
abbrev pub Holds : Ledger → String → Operation → Type 0
Holds s key o =
    (row : OperationRow) × (find_key s.operations key ≡ some row)
    × SameButState o (operation_of row (borrowed_by s.reservations row.id))

-- An update of rows that leaves every column of an operation but the state.
abbrev KeepsColumns : (OperationRow → OperationRow) → Type 0
KeepsColumns f =
    (row : OperationRow) (b : Option ReadLane) (state : OperationState)
    → record (operation_of (f row) b) { state = state }
      ≡ record (operation_of row b) { state = state }

kept-id :
    (f : OperationRow → OperationRow) → KeepsColumns f → (row : OperationRow) → (f row).id ≡ row.id
unfolding operation_of
kept-id f keeps row = ap (λ (o : Operation). o.id) (keeps row none OperationState.reserved)

kept-key :
    (f : OperationRow → OperationRow)
    → KeepsColumns f
    → (row : OperationRow) → (f row).idempotency_key ≡ row.idempotency_key
unfolding operation_of
kept-key f keeps row =
    ap (λ (o : Operation). o.idempotency_key) (keeps row none OperationState.reserved)

find_key-map :
    (f : OperationRow → OperationRow) (rows : List OperationRow) (key : String) {row : OperationRow}
    → KeepsColumns f
    → find_key rows key ≡ some row
    → find_key (map f rows) key ≡ some (f row)
unfolding find_key
find_key-map f [] key keeps h = cc
find_key-map f (r ∷ rows) key {row} keeps h = elim (Bool-cases (r.idempotency_key == key)) [
  | inl here ↦ rw (ap (λ k. k == key) (kept-key f keeps r) ∙ here) (found (rw here at h))
  | inr there ↦
      rw (ap (λ k. k == key) (kept-key f keeps r) ∙ there)
        (find_key-map f rows key keeps (rw there at h))
]
  where
    found : some r ≡ some row → some (f r) ≡ some (f row)
    found k = cc

map-Holds :
    (s t : Ledger) (key : String) (o : Operation) (f : OperationRow → OperationRow)
    → KeepsColumns f
    → t.operations ≡ map f s.operations
    → t.reservations ≡ s.reservations
    → Holds s key o
    → Holds t key o
map-Holds s t key o f keeps ops res (row, held, same) = (
  f row,
  ap (λ rows. find_key rows key) ops ∙ find_key-map f s.operations key keeps held,
  (λ i. record (operation_of (f row) (borrowed_by (res i) (kept-id f keeps row i))) {
    state = o.state;
  })
      ∙ keeps row (borrowed_by s.reservations row.id) o.state
      ∙ same,
)

find_key-more :
    (rows : List OperationRow) (more : OperationRow) (key : String) {row : OperationRow}
    → find_key rows key ≡ some row
    → find_key (rows ++ more ∷ []) key ≡ some row
unfolding find_key
find_key-more [] more key h = cc
find_key-more (r ∷ rows) more key h = elim (Bool-cases (r.idempotency_key == key)) [
  | inl here ↦ rw here (rw here at h)
  | inr there ↦ rw there (find_key-more rows more key (rw there at h))
]

borrowed_by-more :
    (rows : List ReservationRow) (more : ReservationRow) (id : String)
    → (more.operation_id == id) ≡ false
    → borrowed_by (rows ++ more ∷ []) id ≡ borrowed_by rows id
unfolding borrowed_by
borrowed_by-more [] more id h = rw h refl
borrowed_by-more (v ∷ rows) more id h = elim (Bool-cases (v.operation_id == id)) [
  | inl here ↦ rw here refl
  | inr there ↦ rw there (borrowed_by-more rows more id h)
]

-- The id of a row that is held is not free.
held-apart :
    (rows : List OperationRow) (key id : String) {row : OperationRow}
    → find_key rows key ≡ some row
    → exists (λ o. o.id == id) rows ≡ false
    → (id == row.id) ≡ false
unfolding find_key
held-apart [] key id h free = cc
held-apart (r ∷ rows) key id {row} h free = elim (Bool-cases (r.idempotency_key == key)) [
  | inr there ↦ held-apart rows key id (rw there at h) (ground arith)
  | inl here ↦
      let e : r ≡ row = found (rw here at h) in
      let apart : (r.id == id) ≡ false = ground arith in
      elim (Bool-cases (id == row.id)) [
        | inr differs ↦ differs
        | inl same ↦ absurd (
            clash (ap (λ (x : OperationRow). x.id) e ∙ sym ((string_eq.beq_iff id row.id).0 same))
              apart)
      ]
]
  where
    found : some r ≡ some row → r ≡ row
    found k = cc

    clash : r.id ≡ id → (r.id == id) ≡ false → ⊥
    clash e k = cc ((string_eq.beq_iff r.id id).1 e, k)

Appends-Holds :
    (s t : Ledger) (r : Request) (key : String) (o : Operation)
    → Appends s r t
    → Holds s key o
    → Holds t key o
Appends-Holds s t r key o (inl (ops, res)) (row, held, same) = (
  row,
  ap (λ rows. find_key rows key) ops ∙ held,
  (λ i. record (operation_of row (borrowed_by (res i) row.id)) { state = o.state }) ∙ same,
)
Appends-Holds s t r key o (inr (b, ops, res, free)) (row, held, same) =
    let apart = held-apart s.operations key r.operation_id held (ground (arith, free)) in
    let kept =
      ap (λ rows. borrowed_by rows row.id) res
      ∙ borrowed_by-more s.reservations (reservation_row r b) row.id apart in
    (
      row,
      ap (λ rows. find_key rows key) ops ∙ find_key-more s.operations (new_row r) key held,
      (λ i. record (operation_of row (kept i)) { state = o.state }) ∙ same,
    )

module _ {would_exceed : Ledger → String → String → String} {budget : DailyBudget} where
  Step-Holds :
      {s t : Ledger} (key : String) (o : Operation)
      → Step would_exceed budget s t
      → Holds s key o
      → Holds t key o
  unfolding claim update_where operation_of
  Step-Holds {s} key o (Step.reserves r same e) h =
      subst (λ x. Holds x key o) (sym e)
        (Appends-Holds s (reserve would_exceed s r).0 r key o (reserve-Appends would_exceed s r) h)
  Step-Holds {s} key o (Step.commits r same e) h =
      subst (λ x. Holds x key o) (sym e)
        (Appends-Holds s (commit s r).0 r key o (commit-Appends s r) h)
  Step-Holds {s} key o (Step.claims_one id owner now expires e) h =
      subst (λ x. Holds x key o) (sym e)
        (map-Holds s (claim s id owner now expires).0 key o
          (λ row.
            if is_claimable id now row
            then record row {
              state = OperationState.leased;
              lease_owner = some owner;
              lease_expires_at = some expires;
            }
            else row)
          (λ row b state. elim (Bool-cases (is_claimable id now row)) [
            | inl taken ↦ rw taken refl
            | inr left ↦ rw left refl
          ])
          refl refl h)
  Step-Holds {s} {t} key o (Step.finishes id state outcome e) h =
      let (_, _, same) = finish-finished s t id state outcome e in
      subst (λ x. Holds x key o) same
        (map-Holds s (finished s id state outcome) key o
          (λ row.
            if is_endable id row
            then record row {
              state = state;
              outcome = some outcome;
              lease_owner = none;
              lease_expires_at = none;
            }
            else row)
          (λ row b st. elim (Bool-cases (is_endable id row)) [
            | inl ends ↦ rw ends refl
            | inr left ↦ rw left refl
          ])
          (finished-operations s id state outcome) (finished-reservations s id state outcome) h)
  Step-Holds {s} {t} key o (Step.observes ops res) (row, held, same) = (
    row,
    ap (λ rows. find_key rows key) ops ∙ held,
    (λ i. record (operation_of row (borrowed_by (res i) row.id)) { state = o.state }) ∙ same,
  )

  pub Reaches-Holds :
      {s t : Ledger} (key : String) (o : Operation)
      → Reaches would_exceed budget s t
      → Holds s key o
      → Holds t key o
  Reaches-Holds key o Reaches.here h = h
  Reaches-Holds key o (Reaches.next step more) h =
      Reaches-Holds key o more (Step-Holds key o step h)
