-- ===== src/Control/Scheduler/Leases.antt =====
-- What a claim and a finish do to the operation that they name.
use new_z.Prelude.{
  ◌≡◌, refl, sym, ap, ◌∙◌, Bool, true, false, not, ◌&&◌, Option, none, some, map, arith, String,
  ◌==◌, string_eq, nat_beq, if◌then◌else◌, length, select, text_lt, Option-cases, inl, inr, &&_iff,
  eq_refl, is_some,
}
use mathlib.Core.Path.{subst}
use new_z.Domain.Operations.{OperationState, operation_state_eq}
use new_z.Control.Ledger.{OperationRow, Ledger}
use new_z.Control.Scheduler.{is_terminal, is_claimable, update_where, claim, finish}
use new_z.Control.Scheduler.Rows.{
  find_operation, holds_of, is_keyed, Updates, length-select, find_operation-map_other,
  find_operation-map_kept, holds-find_operation-map, is_keyed-map,
}

leased_to : String → String → OperationRow → OperationRow
leased_to owner expires row = record row {
  state = OperationState.leased;
  lease_owner = some owner;
  lease_expires_at = some expires;
}

claims :
    (id owner now expires : String) → Updates id (is_claimable id now) (leased_to owner expires)
unfolding leased_to
claims id owner now expires = record { keeps = λ row. refl; names = λ row h. ground arith }

-- The row is leased to the owner until the stamp.
abbrev pub is_leased_to : String → String → OperationRow → Bool
is_leased_to owner expires row =
    row.state == OperationState.leased
    && (elim row.lease_owner [ none ↦ false | some o ↦ o == owner ]
        && elim row.lease_expires_at [ none ↦ false | some e ↦ e == expires ])

leased_to-is_leased_to :
    (owner expires : String) (row : OperationRow)
    → is_leased_to owner expires (leased_to owner expires row) ≡ true
unfolding leased_to
leased_to-is_leased_to owner expires row = rw (eq_refl owner, eq_refl expires) refl

-- What a claim leaves under the id, by whether it was granted.
abbrev pub Claims : Ledger → String → String → String → Ledger × Bool → Type 0
Claims store id owner expires (store', taken) =
    (taken ≡ true
      → holds_of (is_leased_to owner expires) (find_operation store'.operations id) ≡ true)
    × (taken ≡ false → find_operation store'.operations id ≡ find_operation store.operations id)
    × ((other : String)
        → (other == id) ≡ false
        → find_operation store'.operations other ≡ find_operation store.operations other)

module _ (store : Ledger) (id owner now expires : String)
    (keyed : is_keyed store.operations ≡ true) where
  -- A claim is granted exactly if the operation exists, is reserved or leased, and has no lease
  -- that lasts beyond now; it is then leased to the owner until the stamp. A refused claim leaves
  -- the operation as it was, and every claim leaves the others.
  claim_lem :
      ((claim store id owner now expires).1
        ≡ holds_of (is_claimable id now) (find_operation store.operations id))
      × Claims store id owner expires (claim store id owner now expires)
  unfolding claim update_where leased_to
  claim_lem =
      let p = is_claimable id now in
      let f = leased_to owner expires in
      let u = claims id owner now expires in
      let rowcount = length-select id p f u store.operations keyed in
      (
        rowcount,
        (
          λ taken.
              holds-find_operation-map id p f u (is_leased_to owner expires) store.operations
                (λ row h. leased_to-is_leased_to owner expires row) (sym rowcount ∙ taken),
          λ refused. find_operation-map_kept id p f u store.operations id (sym rowcount ∙ refused),
          λ other h. find_operation-map_other id p f u store.operations other h,
        ),
      )

  claim-is_keyed : is_keyed (claim store id owner now expires).0.operations ≡ true
  unfolding claim update_where leased_to
  claim-is_keyed =
      is_keyed-map id (is_claimable id now) (leased_to owner expires) (claims id owner now expires)
        store.operations
      ∙ keyed

leased-is_claimable :
    (id owner expires now : String) (row : OperationRow)
    → is_leased_to owner expires row ≡ true
    → text_lt now expires ≡ true
    → is_claimable id now row ≡ false
leased-is_claimable id owner expires now row h later = elim (Option-cases row.lease_expires_at) [
  | inl never ↦ ground arith
  | inr (e, until) ↦
      let at : (e == expires) ≡ true = ground arith in
      let same = (string_eq.beq_iff e expires).0 at in
      let lasts : text_lt now e ≡ true = subst (λ x. text_lt now x ≡ true) (sym same) later in
      ground arith
]

-- While the lease that a granted claim took lasts, no other claim of the operation is granted.
pub claim-exclusive :
    (store : Ledger) (id owner now expires owner' now' expires' : String)
    → is_keyed store.operations ≡ true
    → (claim store id owner now expires).1 ≡ true
    → text_lt now' expires ≡ true
    → (claim (claim store id owner now expires).0 id owner' now' expires').1 ≡ false
claim-exclusive store id owner now expires owner' now' expires' keyed taken later =
    let after = (claim store id owner now expires).0 in
    let (_, (leased, _, _)) = claim_lem store id owner now expires keyed in
    let (second, _) =
      claim_lem after id owner' now' expires' (claim-is_keyed store id owner now expires keyed) in
    second ∙ closed (find_operation after.operations id) (leased taken)
  where
    closed :
        (o : Option OperationRow)
        → holds_of (is_leased_to owner expires) o ≡ true
        → holds_of (is_claimable id now') o ≡ false
    closed none h = refl
    closed (some row) h = leased-is_claimable id owner expires now' row h later

ended : OperationState → String → OperationRow → OperationRow
ended state outcome row = record row {
  state = state;
  outcome = some outcome;
  lease_owner = none;
  lease_expires_at = none;
}

abbrev pub is_endable : String → OperationRow → Bool
is_endable id row = row.id == id && not (is_terminal row.state)

ends :
    (id : String) (state : OperationState) (outcome : String)
    → Updates id (is_endable id) (ended state outcome)
unfolding ended
ends id state outcome = record { keeps = λ row. refl; names = λ row h. ground arith }

-- The ledger after a finish.
pub finished : Ledger → String → OperationState → String → Ledger
unfolding ended
finished store id state outcome = record store {
  operations =
      map (λ row. if is_endable id row then ended state outcome row else row) store.operations;
}

some_inj {ℓ} : {A : Type ℓ} {x y : A} → some x ≡ some y → x ≡ y
some_inj {x} h = ap (λ o. elim o [ none ↦ x | some z ↦ z ]) h

abbrev matched : Ledger → String → Bool
matched store id = nat_beq (length (select (is_endable id) store.operations)) 1

two_tests :
    (b c : Bool) {t t' : Ledger}
    → (if not b then none else if c then some t else none) ≡ some t'
    → (b ≡ true) × (c ≡ true) × (t ≡ t')
two_tests true true h = (refl, refl, some_inj h)
two_tests true false h = cc
two_tests false c h = cc

-- A finish that returns was given a terminal state, found one row to end, and left the others.
pub finish-finished :
    (store store' : Ledger) (id : String) (state : OperationState) (outcome : String)
    → finish store id state outcome ≡ some store'
    → (is_terminal state ≡ true)
      × (matched store id ≡ true)
      × (finished store id state outcome ≡ store')
unfolding finish update_where finished ended
finish-finished store store' id state outcome h = two_tests (is_terminal state) (matched store id) h

pub finished-reservations :
    (store : Ledger) (id : String) (state : OperationState) (outcome : String)
    → (finished store id state outcome).reservations ≡ store.reservations
unfolding finished
finished-reservations store id state outcome = refl

pub finished-operations :
    (store : Ledger) (id : String) (state : OperationState) (outcome : String)
    → (finished store id state outcome).operations
      ≡ map
          (λ (row : OperationRow).
            if is_endable id row
            then record row {
              state = state;
              outcome = some outcome;
              lease_owner = none;
              lease_expires_at = none;
            }
            else row)
          store.operations
unfolding finished ended
finished-operations store id state outcome = refl

-- A row that may not be changed by a claim or a finish stays.
pub claim-kept :
    (store : Ledger) (id owner now expires other : String)
    → holds_of (is_claimable id now) (find_operation store.operations other) ≡ false
    → find_operation (claim store id owner now expires).0.operations other
      ≡ find_operation store.operations other
unfolding claim update_where leased_to
claim-kept store id owner now expires other h =
    find_operation-map_kept id (is_claimable id now) (leased_to owner expires)
      (claims id owner now expires) store.operations other h

pub finished-kept :
    (store : Ledger) (id : String) (state : OperationState) (outcome other : String)
    → holds_of (is_endable id) (find_operation store.operations other) ≡ false
    → find_operation (finished store id state outcome).operations other
      ≡ find_operation store.operations other
unfolding finished
finished-kept store id state outcome other h =
    find_operation-map_kept id (is_endable id) (ended state outcome) (ends id state outcome)
      store.operations other h

-- The row is ended in the state, with the outcome and no lease.
abbrev pub is_ended : OperationState → String → OperationRow → Bool
is_ended state outcome row =
    row.state == state
    && (elim row.outcome [ none ↦ false | some o ↦ o == outcome ]
        && (not (is_some row.lease_owner) && not (is_some row.lease_expires_at)))

ended-is_ended :
    (state : OperationState) (outcome : String) (row : OperationRow)
    → is_ended state outcome (ended state outcome row) ≡ true
unfolding ended
ended-is_ended state outcome row =
    rw ((operation_state_eq.beq_iff state state).1 refl, eq_refl outcome) refl

-- An operation is ended only in a terminal state, if it exists and is not terminal yet; it then
-- holds the state and the outcome and no lease, and every other operation is as it was.
finish_lem :
    (store store' : Ledger) (id : String) (state : OperationState) (outcome : String)
    → is_keyed store.operations ≡ true
    → finish store id state outcome ≡ some store'
    → (is_terminal state ≡ true)
      × (holds_of (λ row. not (is_terminal row.state)) (find_operation store.operations id) ≡ true)
      × (holds_of (is_ended state outcome) (find_operation store'.operations id) ≡ true)
      × ((other : String)
          → (other == id) ≡ false
          → find_operation store'.operations other ≡ find_operation store.operations other)
unfolding finished
finish_lem store store' id state outcome keyed h =
    let p = is_endable id in
    let f = ended state outcome in
    let u = ends id state outcome in
    let (terminal, found, same) = finish-finished store store' id state outcome h in
    let endable = sym (length-select id p f u store.operations keyed) ∙ found in
    (
      terminal,
      weaken (find_operation store.operations id) endable,
      subst
          (λ (s : Ledger).
            holds_of (is_ended state outcome) (find_operation s.operations id) ≡ true)
          same
          (holds-find_operation-map id p f u (is_ended state outcome) store.operations
            (λ row k. ended-is_ended state outcome row) endable),
      λ other k.
          subst
            (λ (s : Ledger).
              find_operation s.operations other ≡ find_operation store.operations other)
            same (find_operation-map_other id p f u store.operations other k),
    )
  where
    weaken :
        (o : Option OperationRow)
        → holds_of (is_endable id) o ≡ true
        → holds_of (λ row. not (is_terminal row.state)) o ≡ true
    weaken none k = k
    weaken (some row) k = ((&&_iff (row.id == id) (not (is_terminal row.state))).0 k).1
