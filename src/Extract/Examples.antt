-- ===== src/Extract/Examples.antt =====
-- newz/extract, a proposal with a quotation that stands in the segments and one that does not.
use new_z.Prelude.{◌≡◌, refl, true, [], ◌∷◌, String, string_eq, every, length}
use new_z.Prelude.Search.{text_len, starts_with, find_text, count_from}
use new_z.Domain.Evidence.{assertion_kind_value}
use new_z.Parse.Registry.{Segment}
use new_z.Parse.Spans.{locate, hits, span_of}
use new_z.Parse.Spans.Locate.{distinct_ids}
use new_z.Extract.Proposal.{
  Proposal, ProposedAssertion, member_of, accepted_of, check_assertion, validate,
}
use new_z.Extract.Proposal.Laws.{is_verified, is_unquoted_or_verified, validate-verified}

abbrev segment : Segment
segment = record {
  id = "s-1";
  artifact_id = "art-1";
  ordinal = 0;
  kind = "paragraph";
  locator = "p";
  text = "The bridge fell.";
}

abbrev proposed : String → ProposedAssertion
proposed quote = record { kind = "testimony"; quote = quote; summary = ""; entities = [] }

abbrev proposal : Proposal
proposal = record {
  assertions = proposed "bridge fell" ∷ proposed "bridge stands" ∷ [];
  claims = record { kind = "forecast"; wording = "It will be built again"; quote = "" } ∷ [];
  ignored = "role" ∷ "note" ∷ [];
}

-- One assertion and the claim are kept, the other assertion and the field are refused.
validate_run : length (validate (segment ∷ []) "art-1" proposal).assertions ≡ 1
unfolding validate accepted_of check_assertion member_of assertion_kind_value locate hits span_of
    find_text starts_with count_from text_len
validate_run = refl

validate-verified_example :
    (every
        (λ a. is_verified (segment ∷ []) a.span)
        (validate (segment ∷ []) "art-1" proposal).assertions
      ≡ true)
    × (every
          (λ c. is_unquoted_or_verified (segment ∷ []) c.span)
          (validate (segment ∷ []) "art-1" proposal).claims
        ≡ true)
unfolding distinct_ids
validate-verified_example = validate-verified (segment ∷ []) "art-1" proposal refl refl
