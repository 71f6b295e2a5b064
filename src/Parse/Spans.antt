-- ===== src/Parse/Spans.antt =====
-- newz/parse/spans.py: whether a quotation stands in the retained text where it is said to.
pub mod Check
pub mod Locate
use new_z.Prelude.{
  ℕ, ◌+◌, ◌-◌, Bool, true, false, not, ◌||◌, Option, none, some, List, [], ◌∷◌, String, ◌==◌,
  string_eq, nat_beq, if◌then◌else◌, is_text, flat_map,
}
use new_z.Prelude.Search.{text_len, text_slice, find_text, count_text}
use new_z.Domain.Int.{ℤ, is_negative, pos_part, lt_ℤ}
use new_z.Domain.Records.{Span}
use new_z.Parse.Registry.{Segment, segment}

pub data SpanFailure : Type 0 where
  segment_not_found offsets_out_of_range offsets_inverted quote_mismatch empty_quote
        wrong_artifact :
      SpanFailure

pub record SpanVerification : Type 0 where
  pub verified : Bool
  pub failure : Option SpanFailure
  pub found : String

abbrev failing : SpanFailure → String → SpanVerification
failing why found = record { verified = false; failure = some why; found = found }

-- The checks from the artifact on, of a segment that was found.
unfoldable pub verify_in : Span → Segment → SpanVerification
verify_in span segment =
    let found = text_slice segment.text (pos_part span.start) (pos_part span.end) in
    if not (segment.artifact_id == span.artifact_id)
    then failing SpanFailure.wrong_artifact ""
    else if is_negative span.start || is_negative span.end
    then failing SpanFailure.offsets_out_of_range ""
    else if not (lt_ℤ span.start span.end)
    then failing SpanFailure.offsets_inverted ""
    else if lt_ℤ (ℤ.pos (text_len segment.text)) span.end
    then failing SpanFailure.offsets_out_of_range ""
    else if not (found == span.quote)
    then failing SpanFailure.quote_mismatch found
    else record { verified = true; failure = none; found = "" }

unfoldable pub verify_span : Span → List Segment → SpanVerification
verify_span span segments =
    if not (is_text span.quote)
    then failing SpanFailure.empty_quote ""
    else elim (segment segments span.segment_id) [
      | none ↦ failing SpanFailure.segment_not_found ""
      | some s ↦ verify_in span s
    ]

-- The segments that the quotation stands in, with its first place in each.
unfoldable pub hits : String → List Segment → List (Segment × ℕ)
hits quote [] = []
hits quote (s ∷ rest) = elim (find_text s.text quote) [
  | none ↦ hits quote rest
  | some start ↦ (s, start) ∷ hits quote rest
]

-- The span of a quotation that was found in a segment.
abbrev pub located : String → String → Segment → ℕ → Span
located quote artifact_id s start = record {
  artifact_id = artifact_id;
  segment_id = s.id;
  start = ℤ.pos start;
  end = ℤ.pos (start + text_len quote);
  quote = quote;
  locator = s.locator;
  verified = true;
}

-- Of one hit, whose segment has the quotation once.
unfoldable pub span_of : String → String → List (Segment × ℕ) → Option Span
span_of quote artifact_id [] = none
span_of quote artifact_id ((s, start) ∷ []) =
    if nat_beq (count_text s.text quote) 1 then some (located quote artifact_id s start) else none
span_of quote artifact_id (_ ∷ _ ∷ _) = none

unfoldable pub locate : String → List Segment → String → Option Span
locate quote segments artifact_id =
    if is_text quote then span_of quote artifact_id (hits quote segments) else none
