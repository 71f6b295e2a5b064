-- ===== src/Parse/Examples.antt =====
-- newz/parse, a quotation in two segments.
use new_z.Prelude.{◌≡◌, ◌↔◌, refl, true, some, List, [], ◌∷◌, String, string_eq}
use new_z.Prelude.Search.{text_len, starts_with, find_text, count_from}
use new_z.Domain.Records.{Span}
use new_z.Parse.Registry.{Segment, Parsed, Registry, segment, text}
use new_z.Parse.Spans.{verify_span, hits, span_of, located, locate}
use new_z.Parse.Spans.Check.{Quotes, verify_span_iff}
use new_z.Parse.Spans.Locate.{only_in, distinct_ids, locate-verify_span}

abbrev part : String → String → Segment
part name text = record {
  id = name;
  artifact_id = "art-1";
  ordinal = 0;
  kind = "paragraph";
  locator = "p";
  text = text;
}

abbrev segments : List Segment
segments = part "s-1" "The bridge fell." ∷ part "s-2" "Nobody was hurt." ∷ []

abbrev span : Span
span = located "bridge" "art-1" (part "s-1" "The bridge fell.") 4

verify_span_iff_example :
    ((verify_span span segments).verified ≡ true)
    ↔ ((s : Segment) × (segment segments "s-1" ≡ some s) × Quotes s span)
verify_span_iff_example = verify_span_iff span segments

locate-verify_span_example :
    ((verify_span span segments).verified ≡ true)
    × (span.quote ≡ "bridge")
    × (only_in "s-1" "bridge" segments ≡ true)
unfolding locate span_of hits find_text starts_with count_from text_len distinct_ids
locate-verify_span_example = locate-verify_span "bridge" "art-1" segments span refl refl refl

-- Two occurrences that overlap are counted as one.
locate_overlapping :
    locate "aa" (part "s-1" "aaa" ∷ []) "art-1" ≡ some (located "aa" "art-1" (part "s-1" "aaa") 0)
unfolding locate span_of hits find_text starts_with count_from text_len
locate_overlapping = refl

-- A registry of one parser, which gives the two segments for any body.
abbrev registry : Registry Unit
registry = ("text/plain", ("plain", "1", λ body artifact_id. Parsed.segmented segments [])) ∷ []
