-- ===== src/Parse/Spans/Locate.antt =====
-- The span that the search for a quotation gives.
use mathlib.Core.Path.{subst}
use new_z.Prelude.{
  ℕ, ◌+◌, ◌≡◌, refl, sym, ap, arith, Bool, true, false, not, ◌&&◌, ◌||◌, none, some, List, [], ◌∷◌,
  String, ◌==◌, string_eq, nat_beq, is_text, Bool-cases, Option-cases, inl, inr, every, exists,
  is_some, eq_refl,
}
use new_z.Prelude.Search.{text_len, find_text, count_text, find_text-StandsAt}
use new_z.Domain.Int.{ℤ}
use new_z.Domain.Records.{Span}
use new_z.Parse.Registry.{Segment, segment}
use new_z.Parse.Spans.Check.{verify_span_iff}
use new_z.Parse.Spans.{located, verify_span, hits, span_of, locate}

no_span : {A : Type 0} {span : Span} → none ≡ some span → A
no_span h = cc

-- What a located span is made of.
span_of-some :
    (quote artifact_id : String) (found : List (Segment × ℕ)) (span : Span)
    → span_of quote artifact_id found ≡ some span
    → (s : Segment) × (start : ℕ) × (found ≡ (s, start) ∷ [])
      × (span ≡ located quote artifact_id s start)
unfolding span_of
span_of-some quote artifact_id [] span h = no_span h
span_of-some quote artifact_id ((s, start) ∷ []) span h =
    elim (Bool-cases (nat_beq (count_text s.text quote) 1)) [
      | inl once ↦ (s, start, refl, some_span (rw once at h))
      | inr more ↦ no_span (rw more at h)
    ]
  where
    some_span : {x y : Span} → some x ≡ some y → y ≡ x
    some_span k = cc
span_of-some quote artifact_id (_ ∷ _ ∷ _) span h = no_span h

-- No two segments share an id.
unfoldable pub distinct_ids : List Segment → Bool
distinct_ids [] = true
distinct_ids (s ∷ rest) = not (exists (λ r. r.id == s.id) rest) && distinct_ids rest

-- The quotation stands in no segment but those with the id.
abbrev pub only_in : String → String → List Segment → Bool
only_in id quote segments =
    every (λ s. s.id == id || not (is_some (find_text s.text quote))) segments

only_hit : {A : Type 0} {a b : A} {rest : List A} → a ∷ rest ≡ b ∷ [] → (a ≡ b) × (rest ≡ [])
only_hit h = (cc, cc)

only_in-hits :
    (id quote : String) (segments : List Segment)
    → hits quote segments ≡ []
    → only_in id quote segments ≡ true
unfolding hits
only_in-hits id quote [] h = refl
only_in-hits id quote (r ∷ rest) h = elim (Option-cases (find_text r.text quote)) [
  | inl miss ↦ rw miss (ground (arith, only_in-hits id quote rest (rw (miss, hits) at h)))
  | inr (k, hit) ↦ filled (rw (hit, hits) at h)
]
  where
    filled : {A : Type 0} {a : Segment × ℕ} {more : List (Segment × ℕ)} → a ∷ more ≡ [] → A
    filled k = cc

id_apart :
    (rest : List Segment) (a b : String)
    → exists (λ x. x.id == a) rest ≡ false
    → exists (λ x. x.id == b) rest ≡ true
    → (a == b) ≡ false
id_apart rest a b free held = elim (Bool-cases (a == b)) [
  | inr other ↦ other
  | inl same ↦
      let clash =
        subst (λ c. exists (λ x. x.id == c) rest ≡ false) ((string_eq.beq_iff a b).0 same) free in
      ground (arith, held, clash)
]

-- The segment of the id is the hit, the quotation is found in it there, and in no other.
abbrev IsOnlyHit : String → List Segment → Segment × ℕ → Type 0
IsOnlyHit quote segments (s, start) =
    (segment segments s.id ≡ some s)
    × (find_text s.text quote ≡ some start)
    × (exists (λ r. r.id == s.id) segments ≡ true)
    × (only_in s.id quote segments ≡ true)

hits-IsOnlyHit :
    (quote : String) (segments : List Segment) (hit : Segment × ℕ)
    → hits quote segments ≡ hit ∷ []
    → distinct_ids segments ≡ true
    → IsOnlyHit quote segments hit
unfolding hits distinct_ids segment
hits-IsOnlyHit quote [] hit h d = empty h
  where
    empty : {A : Type 0} → [] ≡ hit ∷ [] → A
    empty k = cc
hits-IsOnlyHit quote (r ∷ rest) (s, start) h d = elim (Option-cases (find_text r.text quote)) [
  | inl miss ↦
      let (there, found, listed, only) =
        hits-IsOnlyHit quote rest (s, start) (rw (miss, hits) at h) (ground (arith, d)) in
      let other = id_apart rest r.id s.id (ground (arith, d)) listed in
      (rw other there, found, ground (arith, listed), ground (arith, only, miss))
  | inr (k, here) ↦
      let (same, none_left) = only_hit (rw (here, hits) at h) in
      subst (IsOnlyHit quote (r ∷ rest)) same (
        rw (eq_refl r.id) refl,
        here,
        ground (arith, eq_refl r.id),
        ground (arith, eq_refl r.id, only_in-hits r.id quote rest none_left),
      )
]

locate-hits :
    (quote artifact_id : String) (segments : List Segment) (span : Span)
    → locate quote segments artifact_id ≡ some span
    → (is_text quote ≡ true) × (span_of quote artifact_id (hits quote segments) ≡ some span)
unfolding locate
locate-hits quote artifact_id segments span h = elim (Bool-cases (is_text quote)) [
  | inl full ↦ (full, rw full at h)
  | inr blank ↦ no_span (rw blank at h)
]

segment-every :
    (p : Segment → Bool) (segments : List Segment) (id : String) (s : Segment)
    → every p segments ≡ true
    → segment segments id ≡ some s
    → p s ≡ true
unfolding segment
segment-every p [] id s all h = missing h
  where
    missing : {A : Type 0} → none ≡ some s → A
    missing k = cc
segment-every p (r ∷ rest) id s all h = elim (Bool-cases (r.id == id)) [
  | inl same ↦ subst (λ x. p x ≡ true) (the_same (rw same at h)) (ground (arith, all))
  | inr other ↦ segment-every p rest id s (ground (arith, all)) (rw other at h)
]
  where
    the_same : some r ≡ some s → r ≡ s
    the_same k = cc

-- A span that is located in segments of the artifact, no two of which share an id, passes the check
-- against them, quotes what was asked for, and the quotation stands in no other segment.
pub locate-verify_span :
    (quote artifact_id : String) (segments : List Segment) (span : Span)
    → distinct_ids segments ≡ true
    → every (λ s. s.artifact_id == artifact_id) segments ≡ true
    → locate quote segments artifact_id ≡ some span
    → ((verify_span span segments).verified ≡ true)
      × (span.quote ≡ quote)
      × (only_in span.segment_id quote segments ≡ true)
locate-verify_span quote artifact_id segments span distinct own h =
    let (full, made) = locate-hits quote artifact_id segments span h in
    let (s, start, alone, same) = span_of-some quote artifact_id (hits quote segments) span made in
    let (there, found, _, only) = hits-IsOnlyHit quote segments (s, start) alone distinct in
    let (u, v, parts, size) = find_text-StandsAt s.text quote start found in
    let mine = segment-every (λ r. r.artifact_id == artifact_id) segments s.id s own there in
    subst
      (λ x.
        ((verify_span x segments).verified ≡ true)
        × (x.quote ≡ quote)
        × (only_in x.segment_id quote segments ≡ true))
      (sym same)
      (
        (verify_span_iff (located quote artifact_id s start) segments).1 (
          s,
          there,
          (
            (string_eq.beq_iff s.artifact_id artifact_id).0 mine,
            full,
            (u, v, parts, ap ℤ.pos (sym size), ap (λ n. ℤ.pos (n + text_len quote)) (sym size)),
          ),
        ),
        refl,
        only,
      )
