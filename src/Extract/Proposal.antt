-- ===== src/Extract/Proposal.antt =====
-- newz/extract/proposal.py: the shape of a proposal, and its validation against retained segments.
-- The reading of the XML is not modelled.
pub mod Laws
use new_z.Prelude.{
  ℕ, ◌+◌, Bool, true, false, not, ◌&&◌, Option, none, some, List, [], ◌∷◌, ◌++◌, map, String, ◌==◌,
  string_eq, if◌then◌else◌, is_text, text_lt, contains, select, sort_by, length,
}
use new_z.Prelude.Search.{take_text}
use new_z.Domain.Evidence.{AssertionKind, ClaimKind, assertion_kind_value, claim_kind_value}
use new_z.Domain.Records.{Span}
use new_z.Parse.Registry.{Segment}
use new_z.Parse.Spans.{locate}
use new_z.Pilot.Modes.{is_blank}
use new_z.Policy.Cells.{assertion_kinds, claim_kinds}

pub record ProposedAssertion : Type 0 where
  pub kind : String
  pub quote : String
  pub summary : String
  pub entities : List String

pub record ProposedClaim : Type 0 where
  pub kind : String
  pub wording : String
  pub quote : String

pub record Proposal : Type 0 where
  pub assertions : List ProposedAssertion
  pub claims : List ProposedClaim
  pub ignored : List String

pub record Refusal : Type 0 where
  pub what : String
  pub reason : String
  pub detail : String

pub record AcceptedAssertion : Type 0 where
  pub kind : AssertionKind
  pub span : Span
  pub summary : String
  pub entities : List String

pub record AcceptedClaim : Type 0 where
  pub kind : ClaimKind
  pub wording : String
  pub span : Option Span

pub record ValidatedExtraction : Type 0 where
  pub assertions : List AcceptedAssertion
  pub claims : List AcceptedClaim
  pub refusals : List Refusal

abbrev pub capability_fields : List String
capability_fields =
    "basis" ∷ "clearance" ∷ "independence" ∷ "policy" ∷ "relation" ∷ "risk" ∷ "role" ∷ "scope" ∷ []

-- `AssertionKind(text)` and `ClaimKind(text)`: the member with the value, or none for ValueError.
unfoldable pub member_of {ℓ} : {A : Type ℓ} → (A → String) → List A → String → Option A
member_of value [] text = none
member_of value (a ∷ rest) text = if value a == text then some a else member_of value rest text

-- What one turn of a loop appends, to the accepted or to the refused.
pub data Checked {ℓ} (A : Type ℓ) : Type ℓ where
  accepted : A → Checked A
  refused : Refusal → Checked A

unfoldable pub accepted_of {ℓ} : {A : Type ℓ} → List (Checked A) → List A
accepted_of [] = []
accepted_of (Checked.accepted a ∷ rest) = a ∷ accepted_of rest
accepted_of (Checked.refused r ∷ rest) = accepted_of rest

unfoldable pub refused_of {ℓ} : {A : Type ℓ} → List (Checked A) → List Refusal
refused_of [] = []
refused_of (Checked.accepted a ∷ rest) = refused_of rest
refused_of (Checked.refused r ∷ rest) = r ∷ refused_of rest

abbrev pub capability_refusal : String → Refusal
capability_refusal field_name = record {
  what = "proposal";
  reason = "capability_field_proposed";
  detail = field_name;
}

-- The fields with capability that were proposed, in their order.
abbrev pub proposed_capability : Proposal → List String
proposed_capability proposal =
    sort_by text_lt (select (λ f. contains proposal.ignored f) capability_fields)

module _ (segments : List Segment) (artifact_id : String) where
  unfoldable pub check_assertion : ProposedAssertion → Checked AcceptedAssertion
  check_assertion p = elim (member_of assertion_kind_value assertion_kinds p.kind) [
    | none ↦
        Checked.refused
          record { what = "assertion"; reason = "unknown_assertion_kind"; detail = p.kind }
    | some kind ↦
        if not (is_text p.quote)
        then Checked.refused record {
          what = "assertion";
          reason = "assertion_without_quote";
          detail = take_text 80 p.summary;
        }
        else elim (locate p.quote segments artifact_id) [
          | none ↦ Checked.refused record {
            what = "assertion";
            reason = "unverified_quote";
            detail = take_text 120 p.quote;
          }
          | some span ↦
              Checked.accepted
                record { kind = kind; span = span; summary = p.summary; entities = p.entities }
        ]
  ]

  unfoldable pub check_claim : ProposedClaim → Checked AcceptedClaim
  check_claim p = elim (member_of claim_kind_value claim_kinds p.kind) [
    | none ↦
        Checked.refused record { what = "claim"; reason = "unknown_claim_kind"; detail = p.kind }
    | some kind ↦
        if is_blank p.wording
        then Checked.refused
            record { what = "claim"; reason = "claim_without_wording"; detail = p.kind }
        else if not (is_text p.quote)
        then Checked.accepted record { kind = kind; wording = p.wording; span = none }
        else elim (locate p.quote segments artifact_id) [
          | none ↦
              Checked.refused record {
                what = "claim";
                reason = "unverified_quote";
                detail = take_text 120 p.quote;
              }
          | some span ↦
              Checked.accepted record { kind = kind; wording = p.wording; span = some span }
        ]
  ]

  unfoldable pub validate : Proposal → ValidatedExtraction
  validate proposal =
      let assertions = map check_assertion proposal.assertions in
      let claims = map check_claim proposal.claims in
      record {
        assertions = accepted_of assertions;
        claims = accepted_of claims;
        refusals =
            map capability_refusal (proposed_capability proposal)
            ++ (refused_of assertions ++ refused_of claims);
      }
