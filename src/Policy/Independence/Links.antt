-- ===== src/Policy/Independence/Links.antt =====
-- What the partition means, in chains of unjustified pairs.
use new_z.Prelude.{
  ◌≡◌, ◌↔◌, ◌⊎◌, refl, sym, ap, ◌∙◌, Bool, true, false, List, [], ◌∷◌, arith, String, ◌==◌,
  string_eq, if◌then◌else◌, contains, Bool-cases, inl, inr, eq_refl,
}
use mathlib.Core.Path.{subst}
use new_z.Policy.Independence.Forest.{join}
use new_z.Policy.Independence.Partition.{join_row, join_all, Within, Within-self}

-- A chain of pairs of ids whose independence no recorded justification establishes.
pub data Linked (ids : List String) (justified : String → String → Bool)
    : String → String → Type 0 where
  here : {a : String} → Linked ids justified a a
  link :
      {a b : String}
      → contains ids a ≡ true
      → contains ids b ≡ true
      → justified a b ≡ false
      → Linked ids justified a b
  back : {a b : String} → Linked ids justified a b → Linked ids justified b a
  chain :
      {a b c : String}
      → Linked ids justified a b
      → Linked ids justified b c
      → Linked ids justified a c

join_keeps :
    (rep : String → String) (x y a b : String) → rep a ≡ rep b → join rep x y a ≡ join rep x y b
unfolding join
join_keeps rep x y a b h = ground arith

join_joins : (rep : String → String) (x y : String) → join rep x y x ≡ join rep x y y
unfolding join
join_joins rep x y = ground (
  arith,
  string_eq.beq_iff (rep x) (rep y),
  string_eq.beq_iff (rep y) (rep x),
  eq_refl (rep x),
  eq_refl (rep y),
)

module _ (justified : String → String → Bool) where
  row_keeps :
      (c : String) (bs : List String) (rep : String → String) (a b : String)
      → rep a ≡ rep b
      → join_row justified c bs rep a ≡ join_row justified c bs rep b
  unfolding join_row
  row_keeps c [] rep a b h = h
  row_keeps c (d ∷ ds) rep a b h =
      row_keeps c ds (if justified c d then rep else join rep c d) a b
        (ground (arith, join_keeps rep c d a b))

  all_keeps :
      (xs : List String) (rep : String → String) (a b : String)
      → rep a ≡ rep b
      → join_all justified xs rep a ≡ join_all justified xs rep b
  unfolding join_all
  all_keeps [] rep a b h = h
  all_keeps (x ∷ xs) rep a b h = all_keeps xs _ a b (row_keeps x xs rep a b h)

  -- A row joins its head with each later id that is not justified against it.
  row_joins :
      (a : String) (bs : List String) (rep : String → String) (b : String)
      → contains bs b ≡ true
      → justified a b ≡ false
      → join_row justified a bs rep a ≡ join_row justified a bs rep b
  unfolding join_row
  row_joins a [] rep b m h = cc
  row_joins a (d ∷ ds) rep b m h = elim (Bool-cases (d == b)) [
    | inl same ↦
        let e = (string_eq.beq_iff d b).0 same in
        row_keeps a ds (if justified a d then rep else join rep a d) a b
          (ground (arith, join_joins rep a d))
    | inr other ↦ row_joins a ds (if justified a d then rep else join rep a d) b (ground arith) h
  ]

  module _ (symmetric : (a b : String) → justified a b ≡ justified b a) where
    head_joins :
        (x : String) (xs : List String) (rep : String → String) (b : String)
        → contains (x ∷ xs) b ≡ true
        → justified x b ≡ false
        → join_all justified (x ∷ xs) rep x ≡ join_all justified (x ∷ xs) rep b
    unfolding join_all
    head_joins x xs rep b m h = elim (Bool-cases (x == b)) [
      | inl same ↦ ap (join_all justified (x ∷ xs) rep) ((string_eq.beq_iff x b).0 same)
      | inr other ↦
          all_keeps xs (join_row justified x xs rep) x b (row_joins x xs rep b (rw other at m) h)
    ]

    all_joins :
        (xs : List String) (rep : String → String) (a b : String)
        → contains xs a ≡ true
        → contains xs b ≡ true
        → justified a b ≡ false
        → join_all justified xs rep a ≡ join_all justified xs rep b
    unfolding join_all
    all_joins [] rep a b ma mb h = cc
    all_joins (x ∷ xs) rep a b ma mb h = elim (Bool-cases (x == a)) [
      | inl same ↦ at_head a b ((string_eq.beq_iff x a).0 same) mb h
      | inr other ↦ elim (Bool-cases (x == b)) [
        | inl same' ↦ sym (at_head b a ((string_eq.beq_iff x b).0 same') ma (symmetric b a ∙ h))
        | inr other' ↦
            all_joins xs (join_row justified x xs rep) a b (rw other at ma) (rw other' at mb) h
      ]
    ]
      where
        at_head :
            (c d : String)
            → x ≡ c
            → contains (x ∷ xs) d ≡ true
            → justified c d ≡ false
            → join_all justified (x ∷ xs) rep c ≡ join_all justified (x ∷ xs) rep d
        at_head c d e m k =
            subst
              (λ y.
                justified y d ≡ false
                → join_all justified (x ∷ xs) rep y ≡ join_all justified (x ∷ xs) rep d)
              e (head_joins x xs rep d m) k

    -- Linked ids end up together.
    joined_of_Linked :
        {ids : List String} {a b : String} (rep : String → String)
        → Linked ids justified a b
        → join_all justified ids rep a ≡ join_all justified ids rep b
    joined_of_Linked rep Linked.here = refl
    joined_of_Linked {ids} rep (Linked.link {a = a} {b = b} ma mb h) = all_joins ids rep a b ma mb h
    joined_of_Linked rep (Linked.back l) = sym (joined_of_Linked rep l)
    joined_of_Linked rep (Linked.chain k l) = joined_of_Linked rep k ∙ joined_of_Linked rep l

  join_cases :
      (rep : String → String) (x y z : String)
      → (join rep x y z ≡ rep z)
        ⊎ (((rep z ≡ rep x) × (join rep x y z ≡ rep y))
            ⊎ ((rep z ≡ rep y) × (join rep x y z ≡ rep x)))
  unfolding join
  join_cases rep x y z =
      ground (arith, string_eq.beq_iff (rep z) (rep x), string_eq.beq_iff (rep z) (rep y))

  -- Every item is linked to its representative.
  abbrev Sound : List String → (String → String) → Type 0
  Sound ids rep = (a : String) → Linked ids justified a (rep a)

  Linked-eq :
      {ids : List String} {a b c : String}
      → Linked ids justified a b
      → b ≡ c
      → Linked ids justified a c
  Linked-eq {ids} {a} l e = subst (λ z. Linked ids justified a z) e l

  join-Sound :
      {ids : List String} (rep : String → String) (x y : String)
      → Sound ids rep
      → Linked ids justified x y
      → Sound ids (join rep x y)
  join-Sound rep x y s l z =
      let between = Linked.chain (Linked.back (s x)) (Linked.chain l (s y)) in
      elim (join_cases rep x y z) [
        | inl same ↦ Linked-eq (s z) (sym same)
        | inr (inl (e, e')) ↦ Linked-eq (Linked.chain (Linked-eq (s z) e) between) (sym e')
        | inr (inr (e, e')) ↦
            Linked-eq (Linked.chain (Linked-eq (s z) e) (Linked.back between)) (sym e')
      ]

  row-Sound :
      {ids : List String} (a : String) (bs : List String) (rep : String → String)
      → contains ids a ≡ true
      → Within ids bs
      → Sound ids rep
      → Sound ids (join_row justified a bs rep)
  unfolding join_row
  row-Sound a [] rep m w s = s
  row-Sound {ids} a (b ∷ bs) rep m w s = row-Sound a bs _ m w.1 next
    where
      next : Sound ids (if justified a b then rep else join rep a b)
      next = elim (Bool-cases (justified a b)) [
        | inl skip ↦ rw skip s
        | inr unite ↦ rw unite (join-Sound rep a b s (Linked.link m w.0 unite))
      ]

  all-Sound :
      {ids : List String} (xs : List String) (rep : String → String)
      → Within ids xs
      → Sound ids rep
      → Sound ids (join_all justified xs rep)
  unfolding join_all
  all-Sound [] rep w s = s
  all-Sound (a ∷ bs) rep w s =
      all-Sound bs (join_row justified a bs rep) w.1 (row-Sound a bs rep w.0 w.1 s)

-- The joins put two ids together exactly if they are linked.
pub joined_iff :
    (justified : String → String → Bool) (ids : List String)
    → ((a b : String) → justified a b ≡ justified b a)
    → (a b : String)
    → (join_all justified ids (λ z. z) a ≡ join_all justified ids (λ z. z) b)
      ↔ Linked ids justified a b
joined_iff justified ids symmetric a b = (
  λ e.
      let sound = all-Sound justified ids (λ z. z) (Within-self ids) (λ z. Linked.here) in
      Linked.chain (Linked-eq justified (sound a) e) (Linked.back (sound b)),
  joined_of_Linked justified symmetric (λ z. z),
)
