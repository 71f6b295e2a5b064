-- ===== src/Acquisition/Robots/Patterns.antt =====
-- What a pattern without an anchor matches.
use Prim.Native.String.append
use Prim.Native.String.{◌++◌}
use mathlib.Core.Path.{subst}
use text.Mathlib.TextLemmas.{append_assoc}
use new_z.Prelude.{
  ℕ, zero, suc, ◌+◌, ◌-◌, ◌≡◌, ◌↔◌, refl, sym, ap, ◌∙◌, arith, true, false, not, none, some, List,
  [], ◌∷◌, String, is_text, Bool-cases, Option-cases, inl, inr,
}
use new_z.Prelude.Search.{
  text_len, take_text, drop_text, starts_with, find_text, starts_with-append, append-starts_with,
  drop_text-append, take_text-drop_text, find_text-StandsAt, StandsAt-find_text,
}
use new_z.Acquisition.Robots.{Rule, is_anchored, split_stars, match_parts, match_first, matches}

-- The parts stand in the text one after the other, with gaps of any length before each.
abbrev pub Follows : List String → String → Type 0
Follows [] s = Unit
Follows (part ∷ parts) s =
    (gap : String) × (rest : String) × (s ≡ gap ++ (part ++ rest)) × Follows parts rest

-- The first part begins the path, and the others follow.
abbrev pub Globs : List String → String → Type 0
Globs [] path = Unit
Globs (part ∷ parts) path = (rest : String) × (path ≡ part ++ rest) × Follows parts rest

drop_text-nil : (n : ℕ) → drop_text n "" ≡ ""
unfolding drop_text
drop_text-nil zero = refl
drop_text-nil (suc n) = refl

drop_text-drop_text : (m n : ℕ) (s : String) → drop_text (m + n) s ≡ drop_text n (drop_text m s)
unfolding drop_text
drop_text-drop_text zero n s = ap (λ k. drop_text k s) (omega arith)
drop_text-drop_text (suc m) n String.[] = drop_text-nil (suc m + n) ∙ sym (drop_text-nil n)
drop_text-drop_text (suc m) n (String.◌∷◌ c s) =
    let same : suc m + n ≡ suc (m + n) = omega arith in
    ap (λ k. drop_text k (String.◌∷◌ c s)) same ∙ drop_text-drop_text m n s

-- More text in front leaves room for the gap.
Follows-append : (parts : List String) (x s : String) → Follows parts s → Follows parts (x ++ s)
Follows-append [] x s h = tt
Follows-append (part ∷ parts) x s (gap, rest, made, more) =
    (x ++ gap, rest, ap (λ t. x ++ t) made ∙ sym (append_assoc x gap (part ++ rest)), more)

-- What stands after a part that was found.
drop_text-found :
    (s u part v : String) → s ≡ u ++ (part ++ v) → drop_text (text_len u + text_len part) s ≡ v
drop_text-found s u part v made =
    drop_text-drop_text (text_len u) (text_len part) s
    ∙ ap (λ t. drop_text (text_len part) (drop_text (text_len u) t)) made
    ∙ ap (drop_text (text_len part)) (drop_text-append u (part ++ v))
    ∙ drop_text-append part v

no_end : {A : Type 0} {n : ℕ} → none ≡ some n → A
no_end h = cc

blank_lem : (s : String) → is_text s ≡ false → s ≡ ""
blank_lem String.[] h = refl
blank_lem (String.◌∷◌ c s) h = ground arith

match_parts-Follows :
    (path : String) (parts : List String) (position end : ℕ)
    → match_parts path position parts ≡ some end
    → Follows parts (drop_text position path)
unfolding match_parts
match_parts-Follows path [] position end h = tt
match_parts-Follows path (part ∷ parts) position end h =
    let s = drop_text position path in
    elim (Bool-cases (not (is_text part))) [
      | inl blank ↦
          let none_there = blank_lem part (ground arith) in
          (
            "",
            s,
            sym (append.nil (part ++ s) ∙ ap (λ p. p ++ s) none_there ∙ append.nil s),
            match_parts-Follows path parts position end (rw (blank, match_parts) at h),
          )
      | inr full ↦ elim (Option-cases (find_text s part)) [
        | inl missing ↦ no_end (rw (full, missing, match_parts) at h)
        | inr (found, there) ↦
            let (u, v, made, size) = find_text-StandsAt s part found there in
            let after =
              ap (λ k. drop_text k path) (omega (arith, size))
              ∙ drop_text-drop_text position (text_len u + text_len part) path
              ∙ drop_text-found s u part v made in
            (
              u,
              v,
              made,
              subst (Follows parts) after (
                  match_parts-Follows path parts (position + found + text_len part) end
                    (rw (full, there, match_parts) at h)),
            )
      ]
    ]

-- Where the parts follow, the leftmost search finds them.
Follows-match_parts :
    (path : String) (parts : List String) (position : ℕ)
    → Follows parts (drop_text position path)
    → (end : ℕ) × (match_parts path position parts ≡ some end)
unfolding match_parts
Follows-match_parts path [] position h = (position, refl)
Follows-match_parts path (part ∷ parts) position (gap, rest, made, more) =
    let s = drop_text position path in
    elim (Bool-cases (not (is_text part))) [
      | inl blank ↦
          let none_there = blank_lem part (ground arith) in
          let whole =
            made ∙ ap (λ p. gap ++ (p ++ rest)) none_there ∙ ap (λ t. gap ++ t) (append.nil rest) in
          let (end, at_end) =
            Follows-match_parts path parts position
              (subst (Follows parts) (sym whole) (Follows-append parts gap rest more)) in
          (end, rw blank at_end)
      | inr full ↦
          let (found, there, first) =
            StandsAt-find_text s part (text_len gap) (gap, rest, made, refl) in
          let (u, v, parted, size) = find_text-StandsAt s part found there in
          let k = text_len gap - found in
          let behind : drop_text (found + text_len part) s ≡ v =
            ap (λ n. drop_text (n + text_len part) s) (sym size)
            ∙ drop_text-found s u part v parted in
          let later : rest ≡ drop_text k v =
            sym (drop_text-found s gap part rest made)
            ∙ ap (λ n. drop_text n s) (omega (arith, first))
            ∙ drop_text-drop_text (found + text_len part) k s
            ∙ ap (drop_text k) behind in
          let room : Follows parts v = subst (Follows parts) (take_text-drop_text k v) (
            Follows-append parts (take_text k v) (drop_text k v)
              (subst (Follows parts) later more)) in
          let after =
            sym behind
            ∙ sym (drop_text-drop_text position (found + text_len part) path)
            ∙ ap (λ n. drop_text n path) (omega arith) in
          let (end, at_end) =
            Follows-match_parts path parts (position + found + text_len part)
              (subst (Follows parts) after room) in
          (end, rw (full, there) at_end)
    ]

match_first-Globs :
    (path : String) (parts : List String) (end : ℕ)
    → match_first path parts ≡ some end
    → Globs parts path
unfolding match_first drop_text
match_first-Globs path [] end h = tt
match_first-Globs path (part ∷ parts) end h = elim (Bool-cases (not (is_text part))) [
  | inl blank ↦ (
    path,
    sym (ap (λ p. p ++ path) (blank_lem part (ground arith)) ∙ append.nil path),
    match_parts-Follows path parts 0 end (rw (blank, match_first) at h),
  )
  | inr full ↦ elim (Bool-cases (starts_with path part)) [
    | inr other ↦ no_end (rw (full, other, match_first) at h)
    | inl begins ↦ (
      drop_text (text_len part) path,
      starts_with-append path part begins,
      match_parts-Follows path parts (text_len part) end (rw (full, begins, match_first) at h),
    )
  ]
]

Globs-match_first :
    (path : String) (parts : List String)
    → Globs parts path
    → (end : ℕ) × (match_first path parts ≡ some end)
unfolding match_first drop_text
Globs-match_first path [] h = (0, refl)
Globs-match_first path (part ∷ parts) (rest, made, more) = elim (Bool-cases (not (is_text part))) [
  | inl blank ↦
      let whole = made ∙ ap (λ p. p ++ rest) (blank_lem part (ground arith)) ∙ append.nil rest in
      let (end, at_end) =
        Follows-match_parts path parts 0 (subst (Follows parts) (sym whole) more) in
      (end, rw blank at_end)
  | inr full ↦
      let begins = ap (λ s. starts_with s part) made ∙ append-starts_with part rest in
      let after = ap (drop_text (text_len part)) made ∙ drop_text-append part rest in
      let (end, at_end) =
        Follows-match_parts path parts (text_len part) (subst (Follows parts) (sym after) more) in
      (end, rw (full, begins) at_end)
]

-- A pattern that is not empty and does not end in "$" matches exactly the paths that begin with its
-- first part, in which the other parts, which a star divides, stand behind it one after the other.
pub matches_iff :
    (rule : Rule) (path : String)
    → is_text rule.path ≡ true
    → is_anchored rule.path ≡ false
    → (matches rule path ≡ true) ↔ Globs (split_stars rule.path) path
unfolding matches
matches_iff rule path full free = (
  λ h. elim (Option-cases (match_first path (split_stars rule.path))) [
    | inr (end, at_end) ↦ match_first-Globs path (split_stars rule.path) end at_end
    | inl missed ↦ no_match (rw (free, full, missed, matches) at h)
  ],
  λ globs.
      let (end, at_end) = Globs-match_first path (split_stars rule.path) globs in
      rw (free, full, at_end, matches) refl,
)
  where
    no_match : {A : Type 0} → false ≡ true → A
    no_match h = cc
