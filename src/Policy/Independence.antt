-- ===== src/Policy/Independence.antt =====
-- newz/policy/independence.py: when two bases are distinct, and the union-find that groups bases for
-- counting. `bases` is the dict of bases by id, as a list of entries.
pub mod Forest
pub mod Partition
pub mod Links
pub mod Groups
pub mod Counting
use new_z.Prelude.{
  ℕ, zero, suc, Bool, true, false, not, ◌&&◌, ◌||◌, Option, none, some, List, [], ◌∷◌, map, String,
  ◌==◌, string_eq, if◌then◌else◌, is_text, is_some, text_lt, get, length, contains, exists, select,
  ◌++◌, sort_by, is_filled,
}
use new_z.Domain.Evidence.{
  IndependenceJustification, independence_justification_eq, independence_justification_value,
}
use new_z.Domain.Records.{Basis, IndependenceClaim}

-- `bool(s)` of a string that may be None.
abbrev is_given : Option String → Bool
is_given none = false
is_given (some s) = is_text s

-- `g is not None and g == h`
abbrev shares_group : Option String → Option String → Bool
shares_group none h = false
shares_group (some g) none = false
shares_group (some g) (some h) = g == h

unfoldable pub judge : IndependenceClaim → Basis → Basis → Bool × String
unfolding independence_justification_value
judge claim a b =
    if not (a.resolved && b.resolved)
    then (false, "unresolved_basis")
    else if shares_group a.independence_group b.independence_group
    then (false, "shared_independence_group")
    else if claim.justification == IndependenceJustification.operator_verified
    then (if not (is_given claim.operator_actor && is_given claim.operator_reason)
        then (false, "operator_action_incomplete")
        else (true, "operator_verified"))
    else if not (is_text claim.evidence)
    then (false, "justification_without_evidence")
    else (true, independence_justification_value claim.justification)

unfoldable pub justification_holds : IndependenceClaim → List (String × Basis) → Bool × String
justification_holds claim bases = elim (get bases claim.basis_a) [
  | none ↦ (false, "unknown_basis")
  | some a ↦ elim (get bases claim.basis_b) [
    | none ↦ (false, "unknown_basis")
    | some b ↦ judge claim a b
  ]
]

-- `b in bases and bases[b].resolved`
unfoldable pub is_resolved : List (String × Basis) → String → Bool
is_resolved bases b = elim (get bases b) [ none ↦ false | some basis ↦ basis.resolved ]

-- A set of strings, from a sequence.
abbrev pub distinct : List String → List String
distinct [] = []
distinct (x ∷ xs) = let rest = distinct xs in if contains rest x then rest else x ∷ rest

unfoldable pub sorted_ids : List String → List (String × Basis) → List String
sorted_ids basis_ids bases = sort_by text_lt (distinct (select (is_resolved bases) basis_ids))

-- `frozenset({a, b}) in justified`
unfoldable pub is_justified :
    List (String × Basis) → List IndependenceClaim → String → String → Bool
is_justified bases independence a b =
    exists
      (λ claim.
        (justification_holds claim bases).0
        && (claim.basis_a == a && claim.basis_b == b || claim.basis_a == b && claim.basis_b == a))
      independence

-- The dict `parent`. Its keys are the ids; `find` and `union` are called on ids, and an ancestor
-- of an id is an id, so no other key is read.
abbrev pub Parent : Type 0
Parent = String → String

abbrev pub assign : Parent → String → String → Parent
assign parent x v = λ y. if x == y then v else parent y

-- The `while` loop of `find`, on fuel, with the dict that it leaves.
unfoldable pub find : ℕ → Parent → String → Parent × String
find zero parent x = (parent, x)
find (suc fuel) parent x =
    let up = parent (parent x) in
    let rest = find fuel (assign parent x up) up in if parent x == x then (parent, x) else rest

-- The two roots found by `union`: the higher becomes the child of the lower.
abbrev pub link : Parent → String → String → Parent
link parent rx ry =
    if rx == ry then parent else if text_lt ry rx then assign parent rx ry else assign parent ry rx

unfoldable pub union : ℕ → Parent → String → String → Parent
union fuel parent x y =
    let (parent', rx) = find fuel parent x in
    let (parent'', ry) = find fuel parent' y in link parent'' rx ry

module _ (fuel : ℕ) (justified : String → String → Bool) where
  -- `for b in ids[i + 1 :]`
  unfoldable pub union_row : String → List String → Parent → Parent
  union_row a [] parent = parent
  union_row a (b ∷ bs) parent =
      union_row a bs (if justified a b then parent else union fuel parent a b)

  -- `for i, a in enumerate(ids)`
  unfoldable pub union_all : List String → Parent → Parent
  union_all [] parent = parent
  union_all (a ∷ bs) parent = union_all bs (union_row a bs parent)

-- `groups.setdefault(root, []).append(b)`
unfoldable pub append_to :
    String → String → List (String × List String) → List (String × List String)
append_to root b [] = (root, b ∷ []) ∷ []
append_to root b ((r, members) ∷ groups) =
    if r == root then (r, members ++ b ∷ []) ∷ groups else (r, members) ∷ append_to root b groups

-- `for b in ids: groups.setdefault(find(b), []).append(b)`
unfoldable pub group_ids :
    ℕ → Parent → List String → List (String × List String) → List (String × List String)
group_ids fuel parent [] groups = groups
group_ids fuel parent (b ∷ bs) groups =
    let (parent', root) = find fuel parent b in group_ids fuel parent' bs (append_to root b groups)

-- `x < y` of two tuples of strings.
unfoldable pub tuple_lt : List String → List String → Bool
tuple_lt xs [] = false
tuple_lt [] (y ∷ ys) = true
tuple_lt (x ∷ xs) (y ∷ ys) = text_lt x y || x == y && tuple_lt xs ys

-- The groups of the ids in the list, with fuel that is enough for each `find`.
unfoldable pub groups_of : (String → String → Bool) → List String → List (List String)
groups_of justified ids =
    let fuel = suc (length ids) in
    map (λ entry. sort_by text_lt entry.1)
      (group_ids fuel (union_all fuel justified ids (λ b. b)) ids [])

unfoldable pub count_independent_bases :
    List String → List (String × Basis) → List IndependenceClaim → ℕ × List (List String)
count_independent_bases basis_ids bases independence =
    let ids = sorted_ids basis_ids bases in
    let ordered = groups_of (is_justified bases independence) ids in
    if is_filled ids then (length ordered, sort_by tuple_lt ordered) else (0, [])
