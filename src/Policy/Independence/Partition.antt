-- ===== src/Policy/Independence/Partition.antt =====
-- The two nested loops of unions, against the same loops on representatives.
use new_z.Prelude.{
  ◌≡◌, Bool, true, List, [], ◌∷◌, arith, String, string_eq, if◌then◌else◌, length, suc, contains,
  Bool-cases, inl, inr, eq_refl,
}
use new_z.Policy.Independence.{Parent, union, union_row, union_all}
use new_z.Policy.Independence.Forest.{Represents, start-Represents, join, union-Represents}

module _ (justified : String → String → Bool) where
  unfoldable pub join_row : String → List String → (String → String) → String → String
  join_row a [] rep = rep
  join_row a (b ∷ bs) rep = join_row a bs (if justified a b then rep else join rep a b)

  unfoldable pub join_all : List String → (String → String) → String → String
  join_all [] rep = rep
  join_all (a ∷ bs) rep = join_all bs (join_row a bs rep)

-- Each of the items is in the list.
abbrev pub Within : List String → List String → Type 0
Within ids [] = Unit
Within ids (x ∷ xs) = (contains ids x ≡ true) × Within ids xs

Within-cons :
    (ids : List String) (y : String) (xs : List String) → Within ids xs → Within (y ∷ ids) xs
Within-cons ids y [] w = tt
Within-cons ids y (x ∷ xs) w = (ground arith, Within-cons ids y xs w.1)

pub Within-self : (xs : List String) → Within xs xs
Within-self [] = tt
Within-self (x ∷ xs) = (rw (eq_refl x), Within-cons xs x xs (Within-self xs))

module _ (justified : String → String → Bool) {ids : List String} where
  row-Represents :
      (a : String) (bs : List String) {parent : Parent} {rep : String → String}
      → contains ids a ≡ true
      → Within ids bs
      → Represents ids parent rep
      → Represents ids
          (union_row (suc (length ids)) justified a bs parent)
          (join_row justified a bs rep)
  unfolding union_row join_row
  row-Represents a [] m w r = r
  row-Represents a (b ∷ bs) {parent} {rep} m w r = row-Represents a bs m w.1 next
    where
      next :
          Represents ids
            (if justified a b then parent else union (suc (length ids)) parent a b)
            (if justified a b then rep else join rep a b)
      next = elim (Bool-cases (justified a b)) [
        | inl skip ↦ rw skip r
        | inr unite ↦ rw unite (union-Represents a b r m w.0)
      ]

  all-Represents :
      (xs : List String) {parent : Parent} {rep : String → String}
      → Within ids xs
      → Represents ids parent rep
      → Represents ids
          (union_all (suc (length ids)) justified xs parent)
          (join_all justified xs rep)
  unfolding union_all join_all
  all-Represents [] w r = r
  all-Represents (a ∷ bs) w r = all-Represents bs w.1 (row-Represents a bs w.0 w.1 r)

-- After all unions the forest represents the partition that the joins compute.
pub union_all-Represents :
    (justified : String → String → Bool) (ids : List String)
    → Represents ids
        (union_all (suc (length ids)) justified ids (λ b. b))
        (join_all justified ids (λ b. b))
union_all-Represents justified ids =
    all-Represents justified ids (Within-self ids) (start-Represents ids)
