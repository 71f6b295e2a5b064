-- ===== src/Policy/Independence/Forest.antt =====
-- `find` and `union` on the forest of parents, against the partition it represents.
use new_z.Prelude.{
  ℕ, zero, suc, ◌≡◌, ◌≢◌, ◌≤◌, ◌<◌, inl, inr, refl, sym, ◌∙◌, true, false, List, [], ◌∷◌, arith,
  String, ◌==◌, string_eq, if◌then◌else◌, text_lt, text_lt_irrefl, text_lt_trans, text_lt_total,
  length, contains, select, Bool-cases,
}
use new_z.Policy.Independence.{Parent, assign, link, find, union}

-- How many of the ids stand below one.
pub level : List String → String → ℕ
level ids x = length (select (λ y. text_lt y x) ids)

level-le : (ids : List String) (x : String) → level ids x ≤ length ids
unfolding level
level-le [] x = omega arith
level-le (y ∷ ys) x = ground (arith, level-le ys x)

level_mono : (ids : List String) (x y : String) → text_lt y x ≡ true → level ids y ≤ level ids x
unfolding level
level_mono [] x y h = omega arith
level_mono (z ∷ zs) x y h = ground (arith, level_mono zs x y h, text_lt_trans z y x)

level-lt :
    (ids : List String) (x y : String)
    → contains ids y ≡ true
    → text_lt y x ≡ true
    → level ids y < level ids x
unfolding level
level-lt [] x y m h = cc
level-lt (z ∷ zs) x y m h = ground (
  arith,
  string_eq.beq_iff z y,
  text_lt_irrefl y,
  level_mono zs x y h,
  level-lt zs x y,
  text_lt_trans z y x,
)

-- `rep` gives each id the root of its tree. Parents are ids, and stand below their children.
pub record Represents (ids : List String) (parent : Parent) (rep : String → String) : Type 0 where
  pub step : (x : String) → rep (parent x) ≡ rep x
  pub root : (x : String) → parent (rep x) ≡ rep x
  pub top : (x : String) → parent x ≡ x → rep x ≡ x
  pub down : (x : String) → parent x ≢ x → text_lt (parent x) x ≡ true
  pub inside : (x : String) → contains ids x ≡ true → contains ids (parent x) ≡ true
  pub rep_inside : (x : String) → contains ids x ≡ true → contains ids (rep x) ≡ true

pub start-Represents : (ids : List String) → Represents ids (λ b. b) (λ b. b)
start-Represents ids = record {
  step = λ x. refl;
  root = λ x. refl;
  top = λ x h. refl;
  down = λ x h. absurd (h refl);
  inside = λ x h. h;
  rep_inside = λ x h. h;
}

not_self : {x y : String} → text_lt x y ≡ true → x ≢ y
not_self {x} h e = let h' : text_lt x x ≡ true = rw (← e) at h in ground (arith, text_lt_irrefl x)

module _ {ids : List String} {parent : Parent} {rep : String → String}
    (r : Represents ids parent rep) where
  grandparent_down : (x : String) → parent x ≢ x → text_lt (parent (parent x)) x ≡ true
  grandparent_down x moved = elim (Bool-cases (parent (parent x) == parent x)) [
    | inl same ↦ rw ((string_eq.beq_iff _ _).0 same) (r.down x moved)
    | inr other ↦
        text_lt_trans (parent (parent x)) (parent x) x
          (r.down (parent x)
            (λ e. ground (arith, string_eq.beq_iff (parent (parent x)) (parent x))))
          (r.down x moved)
  ]

  -- Path halving keeps what the forest represents.
  halve-Represents :
      (x : String) → parent x ≢ x → Represents ids (assign parent x (parent (parent x))) rep
  halve-Represents x moved = record {
    step = λ y. ground (arith, string_eq.beq_iff x y, r.step (parent x), r.step x, r.step y);
    root = λ y. ground (arith, string_eq.beq_iff x (rep y), r.root y);
    top = λ y h.
        ground (arith, string_eq.beq_iff x y, r.top y, grandparent_down x moved, text_lt_irrefl x);
    down = λ y h. ground (arith, string_eq.beq_iff x y, r.down y, grandparent_down x moved);
    inside =
        λ y m. ground (arith, string_eq.beq_iff x y, r.inside y, r.inside (parent x), r.inside x);
    rep_inside = r.rep_inside;
  }

-- On a forest of the ids that represents `rep`, and with more fuel than there are ids below the id
-- that is asked for, `find` ends at the representative of the id and leaves a forest that
-- represents the same.
pub find_lem :
    {ids : List String} (fuel : ℕ) {parent : Parent} {rep : String → String} (x : String)
    → Represents ids parent rep
    → contains ids x ≡ true
    → level ids x < fuel
    → Represents ids (find fuel parent x).0 rep × ((find fuel parent x).1 ≡ rep x)
unfolding find
find_lem zero x r m h = absurd (omega arith)
find_lem {ids} (suc fuel) {parent} x r m h = elim (Bool-cases (parent x == x)) [
  | inl same ↦ rw same (r, sym (r.top x ((string_eq.beq_iff _ _).0 same)))
  | inr other ↦
      let moved : parent x ≢ x = λ e. ground (arith, string_eq.beq_iff (parent x) x) in
      let up = parent (parent x) in
      let closer = level-lt ids x up (r.inside _ (r.inside x m)) (grandparent_down r x moved) in
      let (kept, found) =
        find_lem fuel {parent = assign parent x up} up (halve-Represents r x moved)
          (r.inside _ (r.inside x m)) (omega (arith, closer)) in
      rw other (kept, found ∙ r.step (parent x) ∙ r.step x)
]

pub level-lt_fuel : (ids : List String) (x : String) → level ids x < suc (length ids)
level-lt_fuel ids x = omega (arith, level-le ids x)

-- Two trees joined: the root that stands lower is the root of both.
abbrev pub merge : String → String → (String → String) → String → String
merge lo hi rep z = if rep z == hi then lo else rep z

-- The partition after `union`, on the representatives alone.
unfoldable pub join : (String → String) → String → String → String → String
join rep x y =
    if rep x == rep y
    then rep
    else if text_lt (rep y) (rep x)
    then merge (rep y) (rep x) rep
    else merge (rep x) (rep y) rep

-- One root becomes the child of a lower one.
module _ {ids : List String} {parent : Parent} {rep : String → String}
    (r : Represents ids parent rep) (lo hi : String) (lo_inside : contains ids lo ≡ true)
    (lo_root : parent lo ≡ lo) (hi_root : parent hi ≡ hi) (lower : text_lt lo hi ≡ true) where
  apart : (lo == hi) ≡ false
  apart = ground (arith, string_eq.beq_iff lo hi, text_lt_irrefl lo)

  merge-step : (z : String) → merge lo hi rep (assign parent hi lo z) ≡ merge lo hi rep z
  merge-step z = ground (
    arith,
    apart,
    string_eq.beq_iff hi z,
    string_eq.beq_iff (rep z) hi,
    string_eq.beq_iff (rep (parent z)) hi,
    string_eq.beq_iff (rep lo) hi,
    r.step z,
    r.top lo lo_root,
    r.top hi hi_root,
  )

  merge-root : (z : String) → assign parent hi lo (merge lo hi rep z) ≡ merge lo hi rep z
  merge-root z = ground (
    arith,
    apart,
    string_eq.beq_iff hi lo,
    string_eq.beq_iff lo hi,
    string_eq.beq_iff hi (rep z),
    string_eq.beq_iff (rep z) hi,
    r.root z,
  )

  merge-top : (z : String) → assign parent hi lo z ≡ z → merge lo hi rep z ≡ z
  merge-top z h = ground (
    arith,
    apart,
    string_eq.beq_iff hi z,
    string_eq.beq_iff (rep z) hi,
    string_eq.beq_iff lo hi,
    r.top z,
  )

  merge-Represents : Represents ids (assign parent hi lo) (merge lo hi rep)
  merge-Represents = record {
    step = merge-step;
    root = merge-root;
    top = merge-top;
    down = λ z h. ground (arith, string_eq.beq_iff hi z, r.down z);
    inside = λ z m. ground (arith, r.inside z);
    rep_inside = λ z m. ground (arith, r.rep_inside z);
  }

link-Represents :
    {ids : List String} {parent : Parent} {rep : String → String} (x y : String)
    → Represents ids parent rep
    → contains ids x ≡ true
    → contains ids y ≡ true
    → Represents ids (link parent (rep x) (rep y)) (join rep x y)
unfolding join
link-Represents {rep} x y r mx my = elim (Bool-cases (rep x == rep y)) [
  | inl same ↦ rw same r
  | inr other ↦ elim (Bool-cases (text_lt (rep y) (rep x))) [
    | inl above ↦
        rw (other, above)
          (merge-Represents r (rep y) (rep x) (r.rep_inside y my) (r.root y) (r.root x) above)
    | inr below ↦
        rw (other, below)
          (merge-Represents r (rep x) (rep y) (r.rep_inside x mx) (r.root x) (r.root y)
            (above_of other below))
  ]
]
  where
    above_of :
        (rep x == rep y) ≡ false → text_lt (rep y) (rep x) ≡ false → text_lt (rep x) (rep y) ≡ true
    above_of other below =
        ground (arith, string_eq.beq_iff (rep x) (rep y), text_lt_total (rep x) (rep y))

-- `union` refines `join`.
pub union-Represents :
    {ids : List String} {parent : Parent} {rep : String → String} (x y : String)
    → Represents ids parent rep
    → contains ids x ≡ true
    → contains ids y ≡ true
    → Represents ids (union (suc (length ids)) parent x y) (join rep x y)
unfolding union join
union-Represents {ids} {parent} {rep} x y r mx my =
    let fuel = suc (length ids) in
    let (r', found) = find_lem fuel x r mx (level-lt_fuel ids x) in
    let (r'', found') = find_lem fuel y r' my (level-lt_fuel ids y) in
    rw (found, found') (link-Represents x y r'' mx my)
