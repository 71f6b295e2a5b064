-- ===== src/Policy/Rules/Table.antt =====
-- What the rules admit, against the role capability table alone.
use new_z.Prelude.{
  ◌≡◌, refl, Bool, true, false, not, ◌&&◌, ◌||◌, none, some, arith, contains, every, Option-cases,
  is_some, inl, inr,
}
use new_z.Domain.Evidence.{role_eq, claim_kind_eq, assertion_kind_eq, relation_eq}
use new_z.Policy.Rules.{Cell, Verdict, role_capability, decide, is_countable_relation}
use new_z.Policy.Cells.{all_cells, every-all_cells}

-- The table's answer: a relation that counts needs the table, the two others need nothing.
abbrev pub in_table : Cell → Bool
unfolding role_capability is_countable_relation
in_table c =
    not (is_countable_relation c.relation)
    || contains (role_capability c.role c.claim_kind) c.assertion_kind

abbrev bool_beq : Bool → Bool → Bool
bool_beq true b = b
bool_beq false b = not b

-- Of one cell: there is a verdict, it is the table's, and it has a reason exactly if it refuses.
check : Cell → Bool
unfolding decide role_capability is_countable_relation
check c = elim (decide c) [
  | none ↦ false
  | some v ↦ bool_beq v.admitted (in_table c) && bool_beq v.admitted (not (is_some v.reason))
]

check_all : every check all_cells ≡ true
unfolding check all_cells
check_all = refl

bool_beq_sound : (a b : Bool) → bool_beq a b ≡ true → a ≡ b
bool_beq_sound a b h = ground arith

check_sound :
    (c : Cell)
    → check c ≡ true
    → (v : Verdict) × (decide c ≡ some v)
      × (v.admitted ≡ in_table c)
      × (v.admitted ≡ not (is_some v.reason))
unfolding check
check_sound c h = elim (Option-cases (decide c)) [
  | inl e ↦ absurd (not_found e)
  | inr (v, e) ↦ (v, e, ground arith, ground arith)
]
  where
    not_found : decide c ≡ none → ⊥
    not_found e = ground arith

-- Every cell gets a verdict. It admits exactly the relations that do not count and the cells that
-- the role capability table lists, and it names a reason exactly if it refuses.
pub decide-eq-in_table :
    (c : Cell)
    → (v : Verdict) × (decide c ≡ some v)
      × (v.admitted ≡ in_table c)
      × (v.admitted ≡ not (is_some v.reason))
decide-eq-in_table c = check_sound c (every-all_cells check check_all c)
