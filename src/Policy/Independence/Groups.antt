-- ===== src/Policy/Independence/Groups.antt =====
-- The dict of groups: what `setdefault` and `append` leave under each root.
use new_z.Prelude.{
  ◌≡◌, ◌↔◌, refl, ap, ◌∙◌, Bool, true, false, ◌&&◌, ◌||◌, none, some, List, [], ◌∷◌, ◌++◌, arith,
  String, ◌==◌, string_eq, suc, length, contains, exists, every, get, Bool-cases, inl, inr,
  contains-append, every-contains, eq_refl,
}
use new_z.Policy.Independence.{Parent, find, append_to, group_ids}
use new_z.Policy.Independence.Forest.{Represents, find_lem, level-lt_fuel}
use new_z.Policy.Independence.Partition.{Within}

-- The grouping loop on representatives.
unfoldable pub group_by :
    (String → String) → List String → List (String × List String) → List (String × List String)
group_by rep [] groups = groups
group_by rep (b ∷ bs) groups = group_by rep bs (append_to (rep b) b groups)

pub group_ids-eq-group_by :
    {ids : List String} (bs : List String) (groups : List (String × List String)) {parent : Parent}
    {rep : String → String}
    → Represents ids parent rep
    → Within ids bs
    → group_ids (suc (length ids)) parent bs groups ≡ group_by rep bs groups
unfolding group_ids group_by
group_ids-eq-group_by [] groups r w = refl
group_ids-eq-group_by {ids} (b ∷ bs) groups {parent} {rep} r w =
    let (r', found) = find_lem (suc (length ids)) b r w.0 (level-lt_fuel ids b) in
    group_ids-eq-group_by bs (append_to (find (suc (length ids)) parent b).1 b groups) r' w.1
    ∙ ap (λ root. group_by rep bs (append_to root b groups)) found

-- The group under a root holds the item.
holds : List (String × List String) → String → String → Bool
holds groups root a = elim (get groups root) [ none ↦ false | some members ↦ contains members a ]

holds-append_to :
    (root b : String) (groups : List (String × List String)) (r a : String)
    → holds (append_to root b groups) r a ≡ (holds groups r a || (root == r && b == a))
unfolding holds append_to
holds-append_to root b [] r a = ground arith
holds-append_to root b ((k, ms) ∷ groups) r a = ground (
  arith,
  string_eq.beq_iff k root,
  string_eq.beq_iff k r,
  string_eq.beq_iff root r,
  holds-append_to root b groups r a,
  contains-append ms (b ∷ []) a,
)

holds-group_by :
    (rep : String → String) (bs : List String) (groups : List (String × List String)) (a : String)
    → (holds groups (rep a) a || contains bs a) ≡ true
    → holds (group_by rep bs groups) (rep a) a ≡ true
unfolding group_by
holds-group_by rep [] groups a m = ground arith
holds-group_by rep (b ∷ bs) groups a m = holds-group_by rep bs (append_to (rep b) b groups) a (
    ground (
      arith,
      holds-append_to (rep b) b groups (rep a) a,
      string_eq.beq_iff b a,
      string_eq.beq_iff (rep b) (rep a),
    ))

-- Each member of a group has the group's root for its representative.
abbrev IsTidy : (String → String) → List (String × List String) → Type 0
IsTidy rep [] = Unit
IsTidy rep ((root, members) ∷ groups) =
    (every (λ x. rep x == root) members ≡ true) × IsTidy rep groups

every-snoc :
    (p : String → Bool) (xs : List String) (x : String)
    → every p xs ≡ true
    → p x ≡ true
    → every p (xs ++ x ∷ []) ≡ true
every-snoc p [] x h k = ground arith
every-snoc p (y ∷ ys) x h k = ground (arith, every-snoc p ys x)

append_to-IsTidy :
    (rep : String → String) (b : String) (groups : List (String × List String))
    → IsTidy rep groups
    → IsTidy rep (append_to (rep b) b groups)
unfolding append_to
append_to-IsTidy rep b [] t = (rw (eq_refl (rep b)), tt)
append_to-IsTidy rep b ((root, members) ∷ groups) t = elim (Bool-cases (root == rep b)) [
  | inl same ↦ rw same (
    every-snoc (λ x. rep x == root) members b t.0
        (ground (arith, string_eq.beq_iff root (rep b), string_eq.beq_iff (rep b) root)),
    t.1,
  )
  | inr other ↦ rw other (t.0, append_to-IsTidy rep b groups t.1)
]

group_by-IsTidy :
    (rep : String → String) (bs : List String) (groups : List (String × List String))
    → IsTidy rep groups
    → IsTidy rep (group_by rep bs groups)
unfolding group_by
group_by-IsTidy rep [] groups t = t
group_by-IsTidy rep (b ∷ bs) groups t =
    group_by-IsTidy rep bs (append_to (rep b) b groups) (append_to-IsTidy rep b groups t)

-- Some group holds both items.
abbrev pub share : List (String × List String) → String → String → Bool
share groups a b = exists (λ entry. contains entry.1 a && contains entry.1 b) groups

share_of_holds :
    (groups : List (String × List String)) (root a b : String)
    → holds groups root a ≡ true
    → holds groups root b ≡ true
    → share groups a b ≡ true
unfolding holds
share_of_holds [] root a b h k = cc
share_of_holds ((r, members) ∷ groups) root a b h k = ground (arith, share_of_holds groups root a b)

rep_of_share :
    (rep : String → String) (groups : List (String × List String)) (a b : String)
    → IsTidy rep groups
    → share groups a b ≡ true
    → rep a ≡ rep b
rep_of_share rep [] a b t h = cc
rep_of_share rep ((root, members) ∷ groups) a b t h = ground (
  arith,
  every-contains (λ x. rep x == root) members a t.0,
  every-contains (λ x. rep x == root) members b t.0,
  string_eq.beq_iff (rep a) root,
  string_eq.beq_iff (rep b) root,
  rep_of_share rep groups a b t.1,
)

-- Two of the ids share a group exactly if they have one representative.
pub share-group_by_iff :
    (rep : String → String) (ids : List String) (a b : String)
    → contains ids a ≡ true
    → contains ids b ≡ true
    → (share (group_by rep ids []) a b ≡ true) ↔ (rep a ≡ rep b)
share-group_by_iff rep ids a b ma mb = (
  rep_of_share rep (group_by rep ids []) a b (group_by-IsTidy rep ids [] tt),
  λ e.
      share_of_holds (group_by rep ids []) (rep a) a b
        (holds-group_by rep ids [] a (unfold holds in ma))
        (rw e (holds-group_by rep ids [] b (unfold holds in mb))),
)
