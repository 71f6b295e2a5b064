-- ===== src/Parse/Spans/Check.antt =====
-- Where a quotation stands, and what the check makes of it.
use Prim.Native.String.{◌++◌}
use new_z.Prelude.{
  ℕ, zero, suc, ◌+◌, ◌-◌, ◌≤◌, ◌≡◌, ◌↔◌, refl, sym, ap, ◌∙◌, arith, true, false, not, ◌&&◌, ◌||◌,
  some, List, String, ◌==◌, string_eq, is_text, Bool-cases, Option-cases, inl, inr,
}
use new_z.Prelude.Search.{
  text_len, take_text, drop_text, text_slice, take_text-append, drop_text-append,
  take_text-drop_text, text_len-append, text_len-take_text,
}
use new_z.Domain.Int.{ℤ, is_negative, pos_part, lt_ℤ}
use new_z.Domain.Records.{Span}
use new_z.Parse.Registry.{Segment, segment}
use new_z.Parse.Spans.{verify_in, verify_span}

-- The quotation is a part of the segment's text, and the offsets are where it begins and ends.
abbrev pub Quotes : Segment → Span → Type 0
Quotes s span =
    (s.artifact_id ≡ span.artifact_id)
    × (is_text span.quote ≡ true)
    × ((u : String) × (v : String) × (s.text ≡ u ++ (span.quote ++ v))
        × (span.start ≡ ℤ.pos (text_len u))
        × (span.end ≡ ℤ.pos (text_len u + text_len span.quote)))

slice-append :
    (u t v : String) → text_slice (u ++ (t ++ v)) (text_len u) (text_len u + text_len t) ≡ t
slice-append u t v =
    ap (λ s. take_text (text_len u + text_len t - text_len u) s) (drop_text-append u (t ++ v))
    ∙ ap (λ n. take_text n (t ++ v)) (omega arith)
    ∙ take_text-append t v

text_len-drop_text : (n : ℕ) (s : String) → text_len (drop_text n s) ≡ text_len s - n
unfolding text_len drop_text
text_len-drop_text zero s = omega arith
text_len-drop_text (suc n) String.[] = omega arith
text_len-drop_text (suc n) (String.◌∷◌ c s) = omega (arith, text_len-drop_text n s)

is_text-text_len : (s : String) → is_text s ≡ true → 1 ≤ text_len s
unfolding text_len
is_text-text_len String.[] h = ground arith
is_text-text_len (String.◌∷◌ c s) h = omega arith

text_len-slice :
    (s : String) (a b : ℕ) → a ≤ b → b ≤ text_len s → text_len (text_slice s a b) ≡ b - a
text_len-slice s a b before within =
    text_len-take_text (b - a) (drop_text a s)
      (omega (arith, text_len-drop_text a s, before, within))

-- A text is what stands before a slice, the slice, and the rest.
slice-parts :
    (s : String) (a b : ℕ)
    → s ≡ take_text a s ++ (text_slice s a b ++ drop_text (b - a) (drop_text a s))
slice-parts s a b = sym (
    ap (λ x. take_text a s ++ x) (take_text-drop_text (b - a) (drop_text a s))
    ∙ take_text-drop_text a s)

-- The tests on the offsets.
fits_lem :
    (start end : ℤ) (n : ℕ)
    → (is_negative start || is_negative end) ≡ false
    → not (lt_ℤ start end) ≡ false
    → lt_ℤ (ℤ.pos n) end ≡ false
    → (a : ℕ) × (b : ℕ) × (start ≡ ℤ.pos a) × (end ≡ ℤ.pos b) × (a ≤ b) × (b ≤ n)
fits_lem (ℤ.pos a) (ℤ.pos b) n h k l = (a, b, refl, refl, ground arith, ground arith)
fits_lem (ℤ.pos a) (ℤ.negsuc b) n h k l = ground arith
fits_lem (ℤ.negsuc a) end n h k l = ground arith

verify_in_iff :
    (s : Segment) (span : Span)
    → (verify_in span s).verified ≡ (
        s.artifact_id == span.artifact_id
        && (not (is_negative span.start || is_negative span.end)
            && (lt_ℤ span.start span.end
                && (not (lt_ℤ (ℤ.pos (text_len s.text)) span.end)
                    && text_slice s.text (pos_part span.start) (pos_part span.end) == span.quote))))
unfolding verify_in
verify_in_iff s span = ground arith

Quotes-verify_in : (s : Segment) (span : Span) → Quotes s span → (verify_in span s).verified ≡ true
Quotes-verify_in s span (same, full, (u, v, parts, start, end)) =
    let id = (string_eq.beq_iff s.artifact_id span.artifact_id).1 same in
    let some_text = is_text-text_len span.quote full in
    let size =
      ap text_len parts
      ∙ text_len-append u (span.quote ++ v)
      ∙ ap (λ n. text_len u + n) (text_len-append span.quote v) in
    let found =
      ap (λ x. text_slice x (text_len u) (text_len u + text_len span.quote)) parts
      ∙ slice-append u span.quote v in
    let quoted =
      (string_eq.beq_iff (text_slice s.text (text_len u) (text_len u + text_len span.quote))
          span.quote).1
        found in
    verify_in_iff s span ∙ rw (start, end) (ground (arith, id, some_text, size, quoted))

slice-Quotes :
    (s : Segment) (span : Span) (a b : ℕ)
    → s.artifact_id ≡ span.artifact_id
    → is_text span.quote ≡ true
    → (span.start ≡ ℤ.pos a) × (span.end ≡ ℤ.pos b)
    → (a ≤ b) × (b ≤ text_len s.text)
    → text_slice s.text (pos_part span.start) (pos_part span.end) ≡ span.quote
    → Quotes s span
slice-Quotes s span a b same full (start, end) (before, within) quoted =
    let cut : text_slice s.text a b ≡ span.quote = rw (start, end) at quoted in
    let u = take_text a s.text in
    let v = drop_text (b - a) (drop_text a s.text) in
    let before_size : text_len u ≡ a =
      text_len-take_text a s.text (omega (arith, before, within)) in
    let size = sym (ap text_len cut) ∙ text_len-slice s.text a b before within in
    (
      same,
      full,
      (
        u,
        v,
        slice-parts s.text a b ∙ ap (λ x. u ++ (x ++ v)) cut,
        start ∙ ap ℤ.pos (sym before_size),
        end ∙ ap ℤ.pos (omega (arith, before_size, size, before)),
      ),
    )

verify_in-Quotes :
    (s : Segment) (span : Span)
    → is_text span.quote ≡ true
    → (verify_in span s).verified ≡ true
    → Quotes s span
verify_in-Quotes s span full h =
    let all = sym (verify_in_iff s span) ∙ h in
    let id : (s.artifact_id == span.artifact_id) ≡ true = ground (arith, all) in
    let found = text_slice s.text (pos_part span.start) (pos_part span.end) in
    let quoted : (found == span.quote) ≡ true = ground (arith, all) in
    let (a, b, start, end, before, within) =
      fits_lem span.start span.end (text_len s.text) (ground (arith, all)) (ground (arith, all))
        (ground (arith, all)) in
    slice-Quotes s span a b ((string_eq.beq_iff s.artifact_id span.artifact_id).0 id) full
      (start, end) (before, within) ((string_eq.beq_iff found span.quote).0 quoted)

-- A span is verified exactly if the first segment with its id belongs to its artifact, and the text
-- of that segment is made of a part, the quotation, which is not empty, and a rest, such that the
-- span begins after the part and ends after the quotation.
pub verify_span_iff :
    (span : Span) (segments : List Segment)
    → ((verify_span span segments).verified ≡ true)
      ↔ ((s : Segment) × (segment segments span.segment_id ≡ some s) × Quotes s span)
unfolding verify_span
verify_span_iff span segments = (forth, back)
  where
    absurd_verified :
        false ≡ true → (s : Segment) × (segment segments span.segment_id ≡ some s) × Quotes s span
    absurd_verified k = cc

    forth :
        (verify_span span segments).verified ≡ true
        → (s : Segment) × (segment segments span.segment_id ≡ some s) × Quotes s span
    forth h = elim (Bool-cases (is_text span.quote)) [
      | inr blank ↦ absurd_verified (rw (blank, verify_span) at h)
      | inl full ↦ elim (Option-cases (segment segments span.segment_id)) [
        | inl missing ↦ absurd_verified (rw (full, missing, verify_span) at h)
        | inr (s, there) ↦
            (s, there, verify_in-Quotes s span full (rw (full, there, verify_span) at h))
      ]
    ]

    back :
        (s : Segment) × (segment segments span.segment_id ≡ some s) × Quotes s span
        → (verify_span span segments).verified ≡ true
    back (s, there, (same, full, stands)) =
        rw (full, there, verify_span) (Quotes-verify_in s span (same, full, stands))
