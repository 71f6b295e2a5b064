-- ===== src/Policy/Independence/Counting.antt =====
-- What `count_independent_bases` returns.
use new_z.Prelude.{
  ℕ, ◌≡◌, ◌↔◌, ◌≤◌, refl, sym, ap, ◌∙◌, Bool, true, false, ◌&&◌, ◌||◌, List, [], ◌∷◌, map, arith,
  String, ◌==◌, string_eq, length, is_filled, contains, exists, select, sort_by, text_lt,
  exists_congr, every, every_of_contains, eq_refl, &&_iff, ◌++◌, exists-sort_by, exists-map,
  contains-sort_by, contains-select, length-sort_by, length-map, Bool-cases, inl, inr,
}
use new_z.Domain.Records.{Basis, IndependenceClaim}
use new_z.Policy.Independence.{
  distinct, is_resolved, sorted_ids, justification_holds, is_justified, append_to, tuple_lt,
  groups_of, count_independent_bases,
}
use new_z.Policy.Independence.Partition.{join_all, union_all-Represents, Within-self}
use new_z.Policy.Independence.Links.{Linked, joined_iff}
use new_z.Policy.Independence.Groups.{group_by, group_ids-eq-group_by, share, share-group_by_iff}

contains-distinct : (xs : List String) (a : String) → contains (distinct xs) a ≡ contains xs a
contains-distinct [] a = refl
contains-distinct (x ∷ xs) a =
    ground (arith, contains-distinct xs a, contains-distinct xs x, string_eq.beq_iff x a)

-- The ids that are grouped are those given that name a resolved basis.
pub contains-sorted_ids :
    (basis_ids : List String) (bases : List (String × Basis)) (a : String)
    → contains (sorted_ids basis_ids bases) a ≡ (contains basis_ids a && is_resolved bases a)
unfolding sorted_ids
contains-sorted_ids basis_ids bases a =
    contains-sort_by text_lt (distinct (select (is_resolved bases) basis_ids)) a
    ∙ contains-distinct (select (is_resolved bases) basis_ids) a
    ∙ contains-select (is_resolved bases) basis_ids a

is_justified-symmetric :
    (bases : List (String × Basis)) (independence : List IndependenceClaim) (a b : String)
    → is_justified bases independence a b ≡ is_justified bases independence b a
unfolding is_justified
is_justified-symmetric bases independence a b =
    exists_congr
      (λ c.
        (justification_holds c bases).0
        && (c.basis_a == a && c.basis_b == b || c.basis_a == b && c.basis_b == a))
      (λ c.
        (justification_holds c bases).0
        && (c.basis_a == b && c.basis_b == a || c.basis_a == a && c.basis_b == b))
      independence (λ c. ground arith)

-- The groups of a list of ids, through the representatives of the joins.
groups_of_lem :
    (justified : String → String → Bool) (ids : List String)
    → groups_of justified ids
      ≡ map (λ entry. sort_by text_lt entry.1) (group_by (join_all justified ids (λ b. b)) ids [])
unfolding groups_of
groups_of_lem justified ids =
    ap (map (λ (entry : String × List String). sort_by text_lt entry.1))
      (group_ids-eq-group_by ids [] (union_all-Represents justified ids) (Within-self ids))

-- Some group of the result holds both ids.
abbrev pub together : List (List String) → String → String → Bool
together groups a b = exists (λ group. contains group a && contains group b) groups

together-groups_of :
    (justified : String → String → Bool) (ids : List String) (a b : String)
    → together (groups_of justified ids) a b
      ≡ share (group_by (join_all justified ids (λ z. z)) ids []) a b
together-groups_of justified ids a b =
    ap (λ groups. together groups a b) (groups_of_lem justified ids)
    ∙ exists-map (λ group. contains group a && contains group b)
        (λ (entry : String × List String). sort_by text_lt entry.1)
        (group_by (join_all justified ids (λ z. z)) ids [])
    ∙ exists_congr
        (λ (entry : String × List String).
          contains (sort_by text_lt entry.1) a && contains (sort_by text_lt entry.1) b)
        (λ (entry : String × List String). contains entry.1 a && contains entry.1 b)
        (group_by (join_all justified ids (λ z. z)) ids [])
        (λ entry.
          ground (arith, contains-sort_by text_lt entry.1 a, contains-sort_by text_lt entry.1 b))

is_filled_of_contains : (xs : List String) (a : String) → contains xs a ≡ true → is_filled xs ≡ true
is_filled_of_contains [] a m = cc
is_filled_of_contains (x ∷ xs) a m = refl

abbrev ids_of : List String → List (String × Basis) → List IndependenceClaim → List (List String)
ids_of basis_ids bases independence =
    groups_of (is_justified bases independence) (sorted_ids basis_ids bases)

count-eq_of_filled :
    (basis_ids : List String) (bases : List (String × Basis))
    (independence : List IndependenceClaim)
    → is_filled (sorted_ids basis_ids bases) ≡ true
    → count_independent_bases basis_ids bases independence ≡ (
      length (ids_of basis_ids bases independence),
      sort_by tuple_lt (ids_of basis_ids bases independence),
    )
unfolding count_independent_bases
count-eq_of_filled basis_ids bases independence h = rw h

pub count-eq-length :
    (basis_ids : List String) (bases : List (String × Basis))
    (independence : List IndependenceClaim)
    → (count_independent_bases basis_ids bases independence).0
      ≡ length (count_independent_bases basis_ids bases independence).1
unfolding count_independent_bases
count-eq-length basis_ids bases independence =
    elim (Bool-cases (is_filled (sorted_ids basis_ids bases))) [
      | inl full ↦ rw full (sym (length-sort_by tuple_lt (ids_of basis_ids bases independence)))
      | inr empty ↦ rw empty
    ]

together-groups_of_iff :
    (justified : String → String → Bool) (ids : List String)
    → ((a b : String) → justified a b ≡ justified b a)
    → (a b : String) → contains ids a ≡ true
    → contains ids b ≡ true
    → (together (groups_of justified ids) a b ≡ true) ↔ Linked ids justified a b
together-groups_of_iff justified ids symmetric a b ma mb =
    let together_eq = together-groups_of justified ids a b in
    let shared = share-group_by_iff (join_all justified ids (λ z. z)) ids a b ma mb in
    let joined = joined_iff justified ids symmetric a b in
    (λ h. joined.0 (shared.0 (sym together_eq ∙ h)), λ l. together_eq ∙ shared.1 (joined.1 l))

-- Two resolved bases among those given fall into one group exactly if a chain of pairs, none of
-- which a recorded justification holds for, links them; and the count is the number of groups.
pub count_independent_bases-Linked :
    (basis_ids : List String) (bases : List (String × Basis))
    (independence : List IndependenceClaim) (a b : String)
    → (contains basis_ids a && is_resolved bases a) ≡ true
    → (contains basis_ids b && is_resolved bases b) ≡ true
    → ((together (count_independent_bases basis_ids bases independence).1 a b ≡ true)
        ↔ Linked (sorted_ids basis_ids bases) (is_justified bases independence) a b)
      × ((count_independent_bases basis_ids bases independence).0
          ≡ length (count_independent_bases basis_ids bases independence).1)
count_independent_bases-Linked basis_ids bases independence a b ma mb =
    let ids = sorted_ids basis_ids bases in
    let inside = contains-sorted_ids basis_ids bases a ∙ ma in
    let inside' = contains-sorted_ids basis_ids bases b ∙ mb in
    let counted =
      count-eq_of_filled basis_ids bases independence (is_filled_of_contains ids a inside) in
    let linked =
      together-groups_of_iff (is_justified bases independence) ids
        (is_justified-symmetric bases independence) a b inside inside' in
    let sorted =
      exists-sort_by tuple_lt (λ group. contains group a && contains group b)
        (ids_of basis_ids bases independence) in
    (
      rw counted (λ h. linked.0 (sym sorted ∙ h), λ l. sorted ∙ linked.1 l),
      count-eq-length basis_ids bases independence,
    )

-- One root takes all.
length-group_by_one :
    (rep : String → String) (root : String) (bs members : List String)
    → every (λ b. rep b == root) bs ≡ true
    → length (group_by rep bs ((root, members) ∷ [])) ≡ 1
unfolding group_by append_to
length-group_by_one rep root [] members h = refl
length-group_by_one rep root (b ∷ bs) members h =
    let (here, there) = (&&_iff (rep b == root) (every (λ x. rep x == root) bs)).0 h in
    let e : (root == rep b) ≡ true =
      (string_eq.beq_iff root (rep b)).1 (sym ((string_eq.beq_iff (rep b) root).0 here)) in
    rw e (length-group_by_one rep root bs (members ++ b ∷ []) there)

length-groups_of_linked :
    (justified : String → String → Bool) (id : String) (ids : List String)
    → ((a b : String) → justified a b ≡ justified b a)
    → ((b : String) → contains (id ∷ ids) b ≡ true → Linked (id ∷ ids) justified b id)
    → length (groups_of justified (id ∷ ids)) ≡ 1
length-groups_of_linked justified id ids symmetric linked =
    let rep = join_all justified (id ∷ ids) (λ z. z) in
    let one =
      every_of_contains (λ b. rep b == rep id) ids
        (λ b m.
          (string_eq.beq_iff (rep b) (rep id)).1
            ((joined_iff justified (id ∷ ids) symmetric b id).1 (linked b (ground arith)))) in
    ap length (groups_of_lem justified (id ∷ ids))
    ∙ length-map (λ (entry : String × List String). sort_by text_lt entry.1)
        (group_by rep (id ∷ ids) [])
    ∙ unfold group_by append_to in length-group_by_one rep (rep id) ids (id ∷ []) one

-- Resolved bases that no recorded justification tells apart count as one, however many they are.
pub count-unjustified :
    (basis_ids : List String) (bases : List (String × Basis))
    (independence : List IndependenceClaim) (a : String)
    → (contains basis_ids a && is_resolved bases a) ≡ true
    → ((x y : String) → is_justified bases independence x y ≡ false)
    → (count_independent_bases basis_ids bases independence).0 ≡ 1
count-unjustified basis_ids bases independence a m none_justified =
    let inside = contains-sorted_ids basis_ids bases a ∙ m in
    ap (λ (r : ℕ × List (List String)). r.0)
      (count-eq_of_filled basis_ids bases independence
        (is_filled_of_contains (sorted_ids basis_ids bases) a inside))
    ∙ go (sorted_ids basis_ids bases) inside
  where
    go :
        (ids : List String)
        → contains ids a ≡ true
        → length (groups_of (is_justified bases independence) ids) ≡ 1
    go [] k = cc
    go (id ∷ ids) k =
        length-groups_of_linked (is_justified bases independence) id ids
          (is_justified-symmetric bases independence)
          (λ b k'. Linked.link k' (rw (eq_refl id)) (none_justified b id))

-- No basis counts where none is named.
pub count-nil :
    (bases : List (String × Basis)) (independence : List IndependenceClaim)
    → (count_independent_bases [] bases independence).0 ≡ 0
unfolding count_independent_bases sorted_ids
count-nil bases independence = refl

-- A resolved basis among those named counts.
pub count-pos :
    (basis_ids : List String) (bases : List (String × Basis))
    (independence : List IndependenceClaim) (a : String)
    → (contains basis_ids a && is_resolved bases a) ≡ true
    → 1 ≤ (count_independent_bases basis_ids bases independence).0
count-pos basis_ids bases independence a m =
    let (linked, counted) = count_independent_bases-Linked basis_ids bases independence a a m m in
    rw counted (
      length_of_exists (count_independent_bases basis_ids bases independence).1
        (λ group. contains group a && contains group a) (linked.1 Linked.here))
  where
    length_of_exists :
        (groups : List (List String)) (p : List String → Bool)
        → exists p groups ≡ true
        → 1 ≤ length groups
    length_of_exists [] p h = cc
    length_of_exists (g ∷ gs) p h = omega arith
