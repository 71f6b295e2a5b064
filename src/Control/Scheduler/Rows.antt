-- ===== src/Control/Scheduler/Rows.antt =====
-- Rows of operations under an update that keeps their ids: the row found by an id, and how many
-- rows the update touches.
use new_z.Prelude.{
  ◌≡◌, refl, sym, ap, ◌∙◌, Bool, true, false, not, ◌&&◌, Option, none, some, List, [], ◌∷◌, map,
  arith, String, ◌==◌, string_eq, nat_beq, if◌then◌else◌, length, select, exists, Bool-cases,
  Option-cases, inl, inr, &&_iff,
}
use mathlib.Core.Path.{subst}
use new_z.Domain.Operations.{operation_state_eq}
use new_z.Control.Ledger.{OperationRow}

-- The row of an id.
unfoldable pub find_operation : List OperationRow → String → Option OperationRow
find_operation [] id = none
find_operation (row ∷ rows) id = if row.id == id then some row else find_operation rows id

abbrev pub holds_of : (OperationRow → Bool) → Option OperationRow → Bool
holds_of p none = false
holds_of p (some row) = p row

-- The ids are a primary key.
abbrev pub is_keyed : List OperationRow → Bool
is_keyed [] = true
is_keyed (row ∷ rows) = not (exists (λ o. o.id == row.id) rows) && is_keyed rows

-- An update that keeps the ids and touches rows of one id only.
pub record Updates (id : String) (p : OperationRow → Bool) (f : OperationRow → OperationRow)
    : Type 0 where
  pub keeps : (row : OperationRow) → (f row).id ≡ row.id
  pub names : (row : OperationRow) → p row ≡ true → (row.id == id) ≡ true

one_row :
    (b : Bool) (row : OperationRow) (rows : List OperationRow)
    → length rows ≡ 0
    → nat_beq (length (if b then row ∷ rows else rows)) 1 ≡ b
one_row true row rows h = ground arith
one_row false row rows h = ground arith

module _ (id : String) (p : OperationRow → Bool) (f : OperationRow → OperationRow)
    (u : Updates id p f) where
  abbrev pub set : OperationRow → OperationRow
  set row = if p row then f row else row

  set-id : (row : OperationRow) → (set row).id ≡ row.id
  set-id row = elim (Bool-cases (p row)) [ inl h ↦ rw h (u.keeps row) | inr h ↦ rw h refl ]

  -- Of each id the row is found as the update leaves it.
  find_operation-map :
      (rows : List OperationRow) (other : String)
      → find_operation (map set rows) other
        ≡ elim (find_operation rows other) [ none ↦ none | some row ↦ some (set row) ]
  unfolding find_operation
  find_operation-map [] other = refl
  find_operation-map (row ∷ rows) other = elim (Bool-cases (row.id == other)) [
    | inl here ↦ rw (set-id row, here) refl
    | inr there ↦ rw (set-id row, there) (find_operation-map rows other)
  ]

  select_none :
      (rows : List OperationRow)
      → exists (λ o. o.id == id) rows ≡ false
      → length (select p rows) ≡ 0
  select_none [] h = refl
  select_none (row ∷ rows) h = ground (arith, u.names row, select_none rows)

  unnamed : (row : OperationRow) → (row.id == id) ≡ false → p row ≡ false
  unnamed row there = ground (arith, u.names row)

  -- `rowcount`, where the ids are a key.
  pub length-select :
      (rows : List OperationRow)
      → is_keyed rows ≡ true
      → nat_beq (length (select p rows)) 1 ≡ holds_of p (find_operation rows id)
  unfolding find_operation
  length-select [] h = refl
  length-select (row ∷ rows) h =
      let (alone, rest) = (&&_iff (not (exists (λ o. o.id == row.id) rows)) (is_keyed rows)).0 h in
      elim (Bool-cases (row.id == id)) [
        | inl here ↦
            let same = (string_eq.beq_iff row.id id).0 here in
            rw here (
              one_row (p row) row (select p rows) (
                select_none rows
                  (subst (λ x. exists (λ o. o.id == x) rows ≡ false) same (ground arith))))
        | inr there ↦ rw (there, unnamed row there) (length-select rows rest)
      ]

  exists-set :
      (other : String) (rows : List OperationRow)
      → exists (λ o. o.id == other) (map set rows) ≡ exists (λ o. o.id == other) rows
  exists-set other [] = refl
  exists-set other (row ∷ rows) = rw (set-id row, exists-set other rows) refl

  pub is_keyed-map : (rows : List OperationRow) → is_keyed (map set rows) ≡ is_keyed rows
  is_keyed-map [] = refl
  is_keyed-map (row ∷ rows) = rw (set-id row, exists-set row.id rows, is_keyed-map rows) refl

  pub find_operation-map_other :
      (rows : List OperationRow) (other : String)
      → (other == id) ≡ false
      → find_operation (map set rows) other ≡ find_operation rows other
  unfolding find_operation
  find_operation-map_other [] other h = refl
  find_operation-map_other (row ∷ rows) other h = elim (Bool-cases (row.id == other)) [
    | inl here ↦
        let same = (string_eq.beq_iff row.id other).0 here in
        let elsewhere = subst (λ x. (x == id) ≡ false) (sym same) h in
        rw (set-id row, here, unnamed row elsewhere) refl
    | inr there ↦ rw (set-id row, there) (find_operation-map_other rows other h)
  ]

  pub find_operation-map_kept :
      (rows : List OperationRow) (other : String)
      → holds_of p (find_operation rows other) ≡ false
      → find_operation (map set rows) other ≡ find_operation rows other
  find_operation-map_kept rows other h = elim (Option-cases (find_operation rows other)) [
    | inl lost ↦ find_operation-map rows other ∙ rw lost refl
    | inr (row, found) ↦
        let passed : p row ≡ false = rw found at h in
        find_operation-map rows other ∙ rw (found, passed) refl
  ]

  pub holds-find_operation-map :
      (q : OperationRow → Bool) (rows : List OperationRow)
      → ((row : OperationRow) → p row ≡ true → q (f row) ≡ true)
      → holds_of p (find_operation rows id) ≡ true
      → holds_of q (find_operation (map set rows) id) ≡ true
  holds-find_operation-map q rows after h = elim (Option-cases (find_operation rows id)) [
    | inl lost ↦ cc
    | inr (row, found) ↦
        let passed : p row ≡ true = rw found at h in
        ap (holds_of q) (find_operation-map rows id) ∙ rw (found, passed) (after row passed)
  ]
