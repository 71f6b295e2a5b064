-- ===== src/Prelude/Search.antt =====
-- Text by position, as Python counts it: in characters.
use Prim.Native.Nat.{ℕ, zero, suc, ◌+◌, ◌-◌, ◌≤◌}
use Prim.Native.String.append
use Prim.Native.String.{String, ◌++◌}
use Prim.Native.Char.{Char, code}
use mathlib.Core.Path.{◌≡◌, refl, sym, ap, ap₂, ◌∙◌}
use mathlib.Core.Bool.{Bool, true, false, ◌&&◌}
use mathlib.Core.Logic.{inl, inr}
use mathlib.Core.Option.{Option, none, some}
use native.Mathlib.Omega.{arith}
use text.Mathlib.TextEquality.{Char-path}
use new_z.Prelude.Tests.{nat_beq, if◌then◌else◌, Bool-cases, Option-cases}

-- `len(s)`
unfoldable pub text_len : String → ℕ
text_len String.[] = 0
text_len (String.◌∷◌ c s) = suc (text_len s)

-- `s[:n]`
unfoldable pub take_text : ℕ → String → String
take_text zero s = ""
take_text (suc n) String.[] = ""
take_text (suc n) (String.◌∷◌ c s) = String.◌∷◌ c (take_text n s)

-- `s[n:]`
unfoldable pub drop_text : ℕ → String → String
drop_text zero s = s
drop_text (suc n) String.[] = ""
drop_text (suc n) (String.◌∷◌ c s) = drop_text n s

-- `s[a:b]`
abbrev pub text_slice : String → ℕ → ℕ → String
text_slice s a b = take_text (b - a) (drop_text a s)

-- `s.startswith(t)`
unfoldable pub starts_with : String → String → Bool
starts_with s String.[] = true
starts_with String.[] (String.◌∷◌ d t) = false
starts_with (String.◌∷◌ c s) (String.◌∷◌ d t) = nat_beq (code c) (code d) && starts_with s t

-- `s.find(t)`, none where Python has -1
unfoldable pub find_text : String → String → Option ℕ
find_text String.[] t = if starts_with "" t then some 0 else none
find_text (String.◌∷◌ c s) t =
    let rest = find_text s t in
    if starts_with (String.◌∷◌ c s) t
    then some 0
    else elim rest [ none ↦ none | some i ↦ some (suc i) ]

-- The occurrences of `t` from the left that do not overlap, after `skip` characters.
unfoldable pub count_from : ℕ → String → String → ℕ
count_from skip String.[] t = 0
count_from (suc skip) (String.◌∷◌ c s) t = count_from skip s t
count_from zero (String.◌∷◌ c s) t =
    let hit = starts_with (String.◌∷◌ c s) t in
    let rest = count_from (if hit then text_len t - 1 else 0) s t in if hit then suc rest else rest

-- `s.count(t)` of a `t` that is not empty
abbrev pub count_text : String → String → ℕ
count_text s t = count_from 0 s t

pub take_text-append : (s t : String) → take_text (text_len s) (s ++ t) ≡ s
unfolding take_text text_len
take_text-append String.[] t = refl
take_text-append (String.◌∷◌ c s) t =
    ap (take_text (suc (text_len s))) (append.cons c s t) ∙ ap (String.◌∷◌ c) (take_text-append s t)

pub drop_text-append : (s t : String) → drop_text (text_len s) (s ++ t) ≡ t
unfolding drop_text text_len
drop_text-append String.[] t = append.nil t
drop_text-append (String.◌∷◌ c s) t =
    ap (drop_text (suc (text_len s))) (append.cons c s t) ∙ drop_text-append s t

pub take_text-drop_text : (n : ℕ) (s : String) → take_text n s ++ drop_text n s ≡ s
unfolding take_text drop_text
take_text-drop_text zero s = append.nil s
take_text-drop_text (suc n) String.[] = append.nil ""
take_text-drop_text (suc n) (String.◌∷◌ c s) =
    append.cons c (take_text n s) (drop_text n s) ∙ ap (String.◌∷◌ c) (take_text-drop_text n s)

pub text_len-append : (s t : String) → text_len (s ++ t) ≡ text_len s + text_len t
unfolding text_len
text_len-append String.[] t = omega (arith, ap text_len (append.nil t))
text_len-append (String.◌∷◌ c s) t =
    ap text_len (append.cons c s t) ∙ omega (arith, text_len-append s t)

pub text_len-take_text : (n : ℕ) (s : String) → n ≤ text_len s → text_len (take_text n s) ≡ n
unfolding take_text text_len
text_len-take_text zero s h = refl
text_len-take_text (suc n) String.[] h = omega arith
text_len-take_text (suc n) (String.◌∷◌ c s) h = omega (arith, text_len-take_text n s (omega arith))

-- A text starts with another exactly if that other and some rest make it.
pub starts_with-append : (s t : String) → starts_with s t ≡ true → s ≡ t ++ drop_text (text_len t) s
unfolding starts_with drop_text text_len
starts_with-append s String.[] h = sym (append.nil s)
starts_with-append String.[] (String.◌∷◌ d t) h = ground arith
starts_with-append (String.◌∷◌ c s) (String.◌∷◌ d t) h =
    ap₂ String.◌∷◌ (Char-path c d (ground arith)) (starts_with-append s t (ground arith))
    ∙ sym (append.cons d t (drop_text (text_len t) s))

pub append-starts_with : (t v : String) → starts_with (t ++ v) t ≡ true
unfolding starts_with
append-starts_with String.[] v = refl
append-starts_with (String.◌∷◌ d t) v =
    ap (λ s. starts_with s (String.◌∷◌ d t)) (append.cons d t v)
    ∙ ground (arith, append-starts_with t v)

-- `t` stands in `s` after `i` characters.
abbrev pub StandsAt : String → String → ℕ → Type 0
StandsAt s t i = (u : String) × (v : String) × (s ≡ u ++ (t ++ v)) × (text_len u ≡ i)

some_inj_nat : {i j : ℕ} → some i ≡ some j → i ≡ j
some_inj_nat h = cc

starts_with-StandsAt :
    (s t : String) {i : ℕ} → starts_with s t ≡ true → some 0 ≡ some i → StandsAt s t i
unfolding text_len
starts_with-StandsAt s t at h = (
  "",
  drop_text (text_len t) s,
  starts_with-append s t at ∙ sym (append.nil (t ++ drop_text (text_len t) s)),
  some_inj_nat h,
)

StandsAt-suc :
    (c : Char) (s t : String) {i j : ℕ} → StandsAt s t i → suc i ≡ j → StandsAt (String.◌∷◌ c s) t j
unfolding text_len
StandsAt-suc c s t (u, v, parts, size) h =
    (String.◌∷◌ c u, v, ap (String.◌∷◌ c) parts ∙ sym (append.cons c u (t ++ v)), ap suc size ∙ h)

-- What is found stands at the place where it is found.
pub find_text-StandsAt : (s t : String) (i : ℕ) → find_text s t ≡ some i → StandsAt s t i
unfolding find_text
find_text-StandsAt String.[] t i h = elim (Bool-cases (starts_with "" t)) [
  | inl at ↦ starts_with-StandsAt "" t at (rw at at h)
  | inr other ↦ absurd_some (rw other at h)
]
  where
    absurd_some : none ≡ some i → StandsAt "" t i
    absurd_some k = cc
find_text-StandsAt (String.◌∷◌ c s) t i h = elim (Bool-cases (starts_with (String.◌∷◌ c s) t)) [
  | inl at ↦ starts_with-StandsAt (String.◌∷◌ c s) t at (rw at at h)
  | inr later ↦ elim (Option-cases (find_text s t)) [
    | inl miss ↦ absurd_some (rw (later, miss) at h)
    | inr (j, hit) ↦
        StandsAt-suc c s t (find_text-StandsAt s t j hit) (some_inj_nat (rw (later, hit) at h))
  ]
]
  where
    absurd_some : none ≡ some i → StandsAt (String.◌∷◌ c s) t i
    absurd_some k = cc

starts_with-find_text : (s t : String) → starts_with s t ≡ true → find_text s t ≡ some 0
unfolding find_text
starts_with-find_text String.[] t h = rw h refl
starts_with-find_text (String.◌∷◌ c s) t h = rw h refl

append-find_text :
    (u t v : String) → (j : ℕ) × (find_text (u ++ (t ++ v)) t ≡ some j) × (j ≤ text_len u)
unfolding find_text text_len
append-find_text String.[] t v = (
  0,
  ap (λ s. find_text s t) (append.nil (t ++ v))
      ∙ starts_with-find_text (t ++ v) t (append-starts_with t v),
  omega arith,
)
append-find_text (String.◌∷◌ c u) t v =
    let whole = append.cons c u (t ++ v) in
    let (j, hit, before) = append-find_text u t v in
    elim (Bool-cases (starts_with (String.◌∷◌ c (u ++ (t ++ v))) t)) [
      | inl at ↦ (
        0,
        ap (λ s. find_text s t) whole ∙ starts_with-find_text (String.◌∷◌ c (u ++ (t ++ v))) t at,
        omega arith,
      )
      | inr later ↦
          (suc j, ap (λ s. find_text s t) whole ∙ rw (later, hit) refl, omega (arith, before))
    ]

-- A text that stands somewhere is found, there or before.
pub StandsAt-find_text :
    (s t : String) (i : ℕ) → StandsAt s t i → (j : ℕ) × (find_text s t ≡ some j) × (j ≤ i)
StandsAt-find_text s t i (u, v, parts, size) =
    let (j, hit, before) = append-find_text u t v in
    (j, ap (λ x. find_text x t) parts ∙ hit, omega (arith, before, size))
