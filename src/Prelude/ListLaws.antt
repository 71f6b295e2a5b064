-- ===== src/Prelude/ListLaws.antt =====
-- Laws of the list operations.
use Prim.Native.Nat.{suc}
use mathlib.Core.Path.{◌≡◌, refl, sym, ap, ◌∙◌}
use mathlib.Core.Bool.{Bool, true, false, ◌&&◌, ◌||◌}
use mathlib.Core.Logic.{inl, inr}
use mathlib.Core.List.{List, [], ◌∷◌, ◌++◌, map}
use mathlib.Core.Option.{Option, none, some}
use native.Mathlib.Omega.{arith}
use new_z.Prelude.Tests.{if◌then◌else◌, Bool-cases, Option-cases, Eq, ◌==◌, is_some}
use new_z.Prelude.Lists.{
  length, is_filled, insert_by, sort_by, select, every, exists, contains, flat_map, traverse, keyed,
  get, put,
}

module _ {ℓ} {A : Type ℓ} where
  every-append :
      (p : A → Bool) (xs ys : List A)
      → every p (xs ++ ys) ≡ true
      → (every p xs ≡ true) × (every p ys ≡ true)
  every-append p [] ys h = (refl, h)
  every-append p (x ∷ xs) ys h = ground (arith, every-append p xs ys)

module _ {ℓ} {A : Type ℓ} where
  pub every_mono :
      (p q : A → Bool) (xs : List A)
      → ((x : A) → p x ≡ true → q x ≡ true)
      → every p xs ≡ true
      → every q xs ≡ true
  every_mono p q [] h k = refl
  every_mono p q (x ∷ xs) h k = ground (arith, h x, every_mono p q xs h)

module _ {ℓ} {A : Type ℓ} ⦃e : Eq A⦄ where
  pub eq_refl : (a : A) → (a == a) ≡ true
  eq_refl a = (e.beq_iff a a).1 refl

  -- Each item of a list is in it.
  pub every-contains_self : (xs : List A) → every (λ x. contains xs x) xs ≡ true
  every-contains_self [] = refl
  every-contains_self (x ∷ xs) = rw (eq_refl x) (
      every_mono (λ y. contains xs y) (λ y. x == y || contains xs y) xs (λ y h. ground arith)
        (every-contains_self xs))

module _ {ℓ κ} {A : Type ℓ} {B : Type κ} where
  pub every-flat_map :
      (p : B → Bool) (f : A → List B) (xs : List A)
      → every p (flat_map f xs) ≡ true
      → every (λ x. every p (f x)) xs ≡ true
  every-flat_map p f [] h = refl
  every-flat_map p f (x ∷ xs) h =
      let (here, there) = every-append p (f x) (flat_map f xs) h in
      rw here (every-flat_map p f xs there)

module _ {ℓ κ} {K : Type ℓ} {V : Type κ} ⦃e : Eq K⦄ where
  pub get-put :
      (d : List (K × V)) (k j : K) (v : V)
      → get (put d k v) j ≡ (if k == j then some v else get d j)
  get-put [] k j v = refl
  get-put ((i, w) ∷ d) k j v =
      ground (arith, e.beq_iff i k, e.beq_iff k j, e.beq_iff i j, get-put d k j v)

  -- A dict filled by a loop over keys holds, under each of them, what the loop computed for it.
  pub get-traverse :
      (f : K → Option V) (ks : List K)
      → every (λ k. is_some (f k)) ks ≡ true
      → (d : List (K × V)) × (traverse (λ k. keyed k (f k)) ks ≡ some d)
        × ((k : K) → contains ks k ≡ true → get d k ≡ f k)
  get-traverse f [] h = ([], refl, λ k m. cc)
  get-traverse f (k ∷ ks) h = elim (Option-cases (f k)) [
    | inl missing ↦ absurd (not_missing missing)
    | inr (v, found) ↦
        let (d, filled, at) = get-traverse f ks (ground arith) in
        (
          (k, v) ∷ d,
          ground (arith, filled),
          λ j m. elim (Bool-cases (k == j)) [
            | inl same ↦ rw same (sym found ∙ ap f ((e.beq_iff k j).0 same))
            | inr other ↦ rw other (at j (rw other at m))
          ],
        )
  ]
    where
      not_missing : f k ≡ none → ⊥
      not_missing missing = ground arith

module _ {ℓ} {A : Type ℓ} (before : A → A → Bool) where
  is_filled-insert_by : (x : A) (xs : List A) → is_filled (insert_by before x xs) ≡ true
  is_filled-insert_by x [] = refl
  is_filled-insert_by x (y ∷ ys) = ground arith

  -- A sort of a list is empty exactly if the list is.
  pub is_filled-sort_by : (xs : List A) → is_filled (sort_by before xs) ≡ is_filled xs
  is_filled-sort_by [] = refl
  is_filled-sort_by (x ∷ xs) = is_filled-insert_by x (sort_by before xs)

  exists-insert_by :
      (p : A → Bool) (x : A) (xs : List A) → exists p (insert_by before x xs) ≡ (p x || exists p xs)
  exists-insert_by p x [] = refl
  exists-insert_by p x (y ∷ ys) = ground (arith, exists-insert_by p x ys)

  -- A sort keeps the items.
  pub exists-sort_by : (p : A → Bool) (xs : List A) → exists p (sort_by before xs) ≡ exists p xs
  exists-sort_by p [] = refl
  exists-sort_by p (x ∷ xs) =
      ground (arith, exists-insert_by p x (sort_by before xs), exists-sort_by p xs)

  length-insert_by : (x : A) (xs : List A) → length (insert_by before x xs) ≡ suc (length xs)
  length-insert_by x [] = refl
  length-insert_by x (y ∷ ys) = ground (arith, length-insert_by x ys)

  pub length-sort_by : (xs : List A) → length (sort_by before xs) ≡ length xs
  length-sort_by [] = refl
  length-sort_by (x ∷ xs) = length-insert_by x (sort_by before xs) ∙ ap suc (length-sort_by xs)

module _ {ℓ} {A : Type ℓ} where
  pub exists_congr :
      (p q : A → Bool) (xs : List A) → ((x : A) → p x ≡ q x) → exists p xs ≡ exists q xs
  exists_congr p q [] h = refl
  exists_congr p q (x ∷ xs) h = ground (arith, h x, exists_congr p q xs h)

module _ {ℓ} {A : Type ℓ} ⦃e : Eq A⦄ where
  contains-eq-exists : (xs : List A) (a : A) → contains xs a ≡ exists (λ x. x == a) xs
  contains-eq-exists [] a = refl
  contains-eq-exists (x ∷ xs) a = ap (λ b. x == a || b) (contains-eq-exists xs a)

  pub contains-sort_by :
      (before : A → A → Bool) (xs : List A) (a : A) → contains (sort_by before xs) a ≡ contains xs a
  contains-sort_by before xs a =
      contains-eq-exists (sort_by before xs) a
      ∙ exists-sort_by before (λ x. x == a) xs
      ∙ sym (contains-eq-exists xs a)

  pub contains-append :
      (xs ys : List A) (a : A) → contains (xs ++ ys) a ≡ (contains xs a || contains ys a)
  contains-append [] ys a = refl
  contains-append (x ∷ xs) ys a = ground (arith, contains-append xs ys a)

  pub every-contains :
      (p : A → Bool) (xs : List A) (a : A) → every p xs ≡ true → contains xs a ≡ true → p a ≡ true
  every-contains p [] a h m = cc
  every-contains p (x ∷ xs) a h m = ground (arith, e.beq_iff x a, every-contains p xs a)

  pub every_of_contains :
      (p : A → Bool) (xs : List A)
      → ((a : A) → contains xs a ≡ true → p a ≡ true)
      → every p xs ≡ true
  every_of_contains p [] h = refl
  every_of_contains p (x ∷ xs) h =
      rw (h x (rw (eq_refl x))) (every_of_contains p xs (λ a m. h a (ground arith)))

  pub contains-select :
      (p : A → Bool) (xs : List A) (a : A) → contains (select p xs) a ≡ (contains xs a && p a)
  contains-select p [] a = refl
  contains-select p (x ∷ xs) a = ground (arith, e.beq_iff x a, contains-select p xs a)

module _ {ℓ κ} {A : Type ℓ} {B : Type κ} where
  pub exists-map :
      (p : B → Bool) (f : A → B) (xs : List A) → exists p (map f xs) ≡ exists (λ x. p (f x)) xs
  exists-map p f [] = refl
  exists-map p f (x ∷ xs) = ap (λ b. p (f x) || b) (exists-map p f xs)

  pub length-map : (f : A → B) (xs : List A) → length (map f xs) ≡ length xs
  length-map f [] = refl
  length-map f (x ∷ xs) = ap suc (length-map f xs)

  pub select-map :
      (p : B → Bool) (f : A → B) (xs : List A)
      → select p (map f xs) ≡ map f (select (λ x. p (f x)) xs)
  select-map p f [] = refl
  select-map p f (x ∷ xs) = ground (arith, select-map p f xs)

module _ {ℓ} {A : Type ℓ} where
  pub select_congr :
      (p q : A → Bool) (xs : List A) → ((x : A) → p x ≡ q x) → select p xs ≡ select q xs
  select_congr p q [] h = refl
  select_congr p q (x ∷ xs) h = ground (arith, h x, select_congr p q xs h)

  -- A map that keeps the order of the keys goes through a sort.
  module _ (before : A → A → Bool) (f : A → A)
      (keeps : (x y : A) → before (f x) (f y) ≡ before x y) where
    insert_by-map :
        (x : A) (xs : List A) → insert_by before (f x) (map f xs) ≡ map f (insert_by before x xs)
    insert_by-map x [] = refl
    insert_by-map x (y ∷ ys) = ground (arith, keeps y x, insert_by-map x ys)

    pub sort_by-map : (xs : List A) → sort_by before (map f xs) ≡ map f (sort_by before xs)
    sort_by-map [] = refl
    sort_by-map (x ∷ xs) =
        ap (insert_by before (f x)) (sort_by-map xs) ∙ insert_by-map x (sort_by before xs)

  -- An item that a selection drops may as well be left out before the sort.
  pub select-insert_by :
      (before : A → A → Bool) (p : A → Bool) (x : A) (xs : List A)
      → p x ≡ false
      → select p (insert_by before x xs) ≡ select p xs
  select-insert_by before p x [] h = ground arith
  select-insert_by before p x (y ∷ ys) h = ground (arith, select-insert_by before p x ys h)

module _ {ℓ} {A : Type ℓ} (p : A → Bool) where
  pub length-select-append_one :
      (xs : List A) (x : A)
      → length (select p (xs ++ x ∷ []))
        ≡ (if p x then suc (length (select p xs)) else length (select p xs))
  length-select-append_one [] x = ground arith
  length-select-append_one (y ∷ xs) x = ground (arith, length-select-append_one xs x)

  pub every-append_one : (xs : List A) (x : A) → every p (xs ++ x ∷ []) ≡ (every p xs && p x)
  every-append_one [] x = ground arith
  every-append_one (y ∷ xs) x = ground (arith, every-append_one xs x)

  pub exists-append_one : (xs : List A) (x : A) → exists p (xs ++ x ∷ []) ≡ (exists p xs || p x)
  exists-append_one [] x = ground arith
  exists-append_one (y ∷ xs) x = ground (arith, exists-append_one xs x)

  exists-append : (xs ys : List A) → exists p (xs ++ ys) ≡ (exists p xs || exists p ys)
  exists-append [] ys = refl
  exists-append (x ∷ xs) ys = ground (arith, exists-append xs ys)

  pub exists-select :
      (q : A → Bool) (xs : List A) → exists q (select p xs) ≡ exists (λ x. p x && q x) xs
  exists-select q [] = refl
  exists-select q (x ∷ xs) = ground (arith, exists-select q xs)

module _ {ℓ} {A : Type ℓ} where
  pub is_filled-eq-exists : (xs : List A) → is_filled xs ≡ exists (λ x. true) xs
  is_filled-eq-exists [] = refl
  is_filled-eq-exists (x ∷ xs) = refl

  pub is_filled-append : (xs ys : List A) → is_filled (xs ++ ys) ≡ (is_filled xs || is_filled ys)
  is_filled-append [] ys = refl
  is_filled-append (x ∷ xs) ys = refl

module _ {ℓ κ} {A : Type ℓ} {B : Type κ} where
  pub exists-flat_map :
      (p : B → Bool) (f : A → List B) (xs : List A)
      → exists p (flat_map f xs) ≡ exists (λ x. exists p (f x)) xs
  exists-flat_map p f [] = refl
  exists-flat_map p f (x ∷ xs) =
      exists-append p (f x) (flat_map f xs) ∙ ap (λ b. exists p (f x) || b) (exists-flat_map p f xs)

  -- A loop that appends gives something exactly if some round of it does.
  pub is_filled-flat_map :
      (f : A → List B) (xs : List A) → is_filled (flat_map f xs) ≡ exists (λ x. is_filled (f x)) xs
  is_filled-flat_map f [] = refl
  is_filled-flat_map f (x ∷ xs) =
      is_filled-append (f x) (flat_map f xs)
      ∙ ap (λ b. is_filled (f x) || b) (is_filled-flat_map f xs)
