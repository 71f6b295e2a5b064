-- ===== src/Control/Scheduler/Again.antt =====
-- A reservation that is asked for again under its key.
use new_z.Prelude.{
  ◌≡◌, refl, sym, ap, ◌∙◌, false, ◌||◌, Option, none, some, List, [], ◌∷◌, ◌++◌, arith, String,
  ◌==◌, string_eq, exists, Bool-cases, Option-cases, inl, inr, eq_refl,
}
use mathlib.Core.Path.{subst}
use new_z.Domain.Operations.{ReadLane, FetchRefusal}
use new_z.Control.Scheduler.Steps.{Reaches}
use new_z.Control.Scheduler.Columns.{SameButState, Holds, Reaches-Holds}
use new_z.Control.Budget.{DailyBudget, is_available, availability}
use new_z.Control.Budget.Laws.{lender}
use new_z.Control.Ledger.{OperationRow, ReservationRow, Ledger}
use new_z.Control.Scheduler.{
  Operation, Request, Answer, used_by_lane, find_key, borrowed_by, operation_of, new_row, refuse,
  existing, reservation_row, insert_rows, is_taken, commit, precheck, reserve,
}

find_key-append :
    (rows : List OperationRow) (row : OperationRow)
    → find_key rows row.idempotency_key ≡ none
    → find_key (rows ++ row ∷ []) row.idempotency_key ≡ some row
unfolding find_key
find_key-append [] row h = rw (eq_refl row.idempotency_key) refl
find_key-append (r ∷ rows) row h = elim (Bool-cases (r.idempotency_key == row.idempotency_key)) [
  | inl same ↦ absurd_some (rw same at h)
  | inr other ↦ rw other (find_key-append rows row (rw other at h))
]
  where
    absurd_some : some r ≡ none → find_key ((r ∷ rows) ++ row ∷ []) row.idempotency_key ≡ some row
    absurd_some k = cc

borrowed_by-append :
    (rows : List ReservationRow) (row : ReservationRow)
    → exists (λ v. v.id == row.id || v.operation_id == row.operation_id) rows ≡ false
    → borrowed_by (rows ++ row ∷ []) row.operation_id ≡ row.borrowed_from
unfolding borrowed_by
borrowed_by-append [] row h = rw (eq_refl row.operation_id) refl
borrowed_by-append (v ∷ rows) row h =
    let apart : (v.operation_id == row.operation_id) ≡ false = ground arith in
    rw apart (borrowed_by-append rows row (ground arith))

-- What the ledger and the answer of a granted request have in common: the operation under the key.
IsHeld : Ledger → String → Answer → Type 0
IsHeld store key answer =
    (row : OperationRow) × (find_key store.operations key ≡ some row)
    × (existing store row ≡ answer)

is_taken-free :
    (s : Ledger) (r : Request) (b : Option ReadLane)
    → is_taken s r ≡ false
    → borrowed_by (s.reservations ++ reservation_row r b ∷ []) r.operation_id ≡ b
is_taken-free s r b free = borrowed_by-append s.reservations (reservation_row r b) (ground arith)

commit-IsHeld :
    (s : Ledger) (r : Request) (o : Operation)
    → (commit s r).1 ≡ Answer.granted o
    → IsHeld (commit s r).0 r.idempotency_key (Answer.granted o)
unfolding IsHeld commit refuse insert_rows new_row
commit-IsHeld s r o h =
    let a = availability r.lane (used_by_lane s.reservations r.local_day) r.budget in
    elim (Bool-cases (is_available a)) [
      | inr full ↦ not_granted (rw full at h)
      | inl room_left ↦ elim (Option-cases (find_key s.operations r.idempotency_key)) [
        | inr (row, held) ↦ rw (room_left, held) (row, held, rw (room_left, held) at h)
        | inl fresh ↦ elim (Bool-cases (is_taken s r)) [
          | inl taken ↦ not_error (rw (room_left, fresh, taken) at h)
          | inr free ↦
              rw (room_left, fresh, free)
                (
                  new_row r,
                  find_key-append s.operations (new_row r) fresh,
                  ap (λ b. Answer.granted (operation_of (new_row r) b))
                        (is_taken-free s r (lender a) free)
                      ∙ (rw (room_left, fresh, free) at h),
                )
        ]
      ]
    ]
  where
    not_granted :
        {why : FetchRefusal} {detail : String}
        → Answer.refused why detail ≡ Answer.granted o
        → IsHeld (commit s r).0 r.idempotency_key (Answer.granted o)
    not_granted k = cc

    not_error :
        Answer.integrity_error ≡ Answer.granted o
        → IsHeld (commit s r).0 r.idempotency_key (Answer.granted o)
    not_error k = cc

module _ (would_exceed : Ledger → String → String → String) where
  reserve-IsHeld :
      (s : Ledger) (r : Request) (o : Operation)
      → (reserve would_exceed s r).1 ≡ Answer.granted o
      → IsHeld (reserve would_exceed s r).0 r.idempotency_key (Answer.granted o)
  unfolding IsHeld reserve refuse
  reserve-IsHeld s r o h = elim (Option-cases (find_key s.operations r.idempotency_key)) [
    | inr (row, held) ↦ rw (held, reserve) (row, held, rw (held, reserve) at h)
    | inl fresh ↦ elim (Option-cases (precheck would_exceed s r)) [
      | inr (why, refused) ↦ not_granted (rw (fresh, refused, reserve) at h)
      | inl checked ↦
          rw (fresh, checked, reserve) (commit-IsHeld s r o (rw (fresh, checked, reserve) at h))
    ]
  ]
    where
      not_granted :
          {why : FetchRefusal} {detail : String}
          → Answer.refused why detail ≡ Answer.granted o
          → IsHeld (reserve would_exceed s r).0 r.idempotency_key (Answer.granted o)
      not_granted k = cc

  reserve-held :
      (s : Ledger) (r : Request) (answer : Answer)
      → IsHeld s r.idempotency_key answer
      → reserve would_exceed s r ≡ (s, answer)
  unfolding IsHeld reserve
  reserve-held s r answer (row, held, same) = rw (held, reserve) (ap (λ x. (s, x)) same)

  IsHeld-Holds :
      (s : Ledger) (key : String) (o : Operation) → IsHeld s key (Answer.granted o) → Holds s key o
  unfolding IsHeld
  IsHeld-Holds s key o (row, held, same) =
      (row, held, ap (λ (x : Operation). record x { state = o.state }) (granted_inj same))
    where
      granted_inj : {x : Operation} → Answer.granted x ≡ Answer.granted o → x ≡ o
      granted_inj k = cc

  Holds-reserve :
      (s : Ledger) (r : Request) (o : Operation)
      → Holds s r.idempotency_key o
      → (o' : Operation) × (reserve would_exceed s r ≡ (s, Answer.granted o')) × SameButState o o'
  unfolding reserve
  Holds-reserve s r o (row, held, same) =
      (operation_of row (borrowed_by s.reservations row.id), rw (held, reserve) refl, same)

  -- When a reservation returns an operation, a reservation on the ledger that it left, under the same
  -- idempotency key and whatever else it asks for, returns the very same operation and leaves the
  -- ledger as it is. Through every interleaving of writers that keep one budget it still returns that
  -- operation, with no more changed than the state, and leaves the ledger as it finds it.
  pub reserve-again :
      (s u : Ledger) (first again : Request) (o : Operation) (budget : DailyBudget)
      → (reserve would_exceed s first).1 ≡ Answer.granted o
      → again.idempotency_key ≡ first.idempotency_key
      → Reaches would_exceed budget (reserve would_exceed s first).0 u
      → (reserve would_exceed (reserve would_exceed s first).0 again
          ≡ ((reserve would_exceed s first).0, Answer.granted o))
        × ((o' : Operation) × (reserve would_exceed u again ≡ (u, Answer.granted o'))
            × SameButState o o')
  reserve-again s u first again o budget h same reached =
      let after = (reserve would_exceed s first).0 in
      let held =
        subst (λ key. IsHeld after key (Answer.granted o)) (sym same)
          (reserve-IsHeld s first o h) in
      (
        reserve-held after again (Answer.granted o) held,
        Holds-reserve u again o (
            Reaches-Holds again.idempotency_key o reached
              (IsHeld-Holds after again.idempotency_key o held)),
      )
