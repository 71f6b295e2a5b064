-- ===== src/Policy/Admission.antt =====
-- newz/policy/promotion.py, admission: whether one edge may count, with an attestation for each
-- named predicate.
pub mod Laws
use new_z.Prelude.{
  ℕ, Bool, true, false, not, ◌&&◌, Option, none, some, List, [], ◌∷◌, String, ◌==◌, if◌then◌else◌,
  is_text, is_some, is_filled, text_lt, decimal, bool_text, length, every, sort_by,
}
use new_z.Domain.Evidence.{
  SourceRole, ClaimKind, AssertionKind, EdgeRelation, RiskTier, role_value, claim_kind_value,
  assertion_kind_value, relation_value, risk_value,
}
use new_z.Domain.Admission.{RefusalReason, AdmissionPredicate}
use new_z.Domain.Records.{Span, Assertion, Claim, Basis, PredicateAttestation, EdgeEvent}
use new_z.Policy.Matrix.{permits, lookup}

pub record AdmissionResult : Type 0 where
  pub admitted : Bool
  pub reason : Option RefusalReason
  pub attestations : List PredicateAttestation

-- The keyword arguments have different names, so their order is that of the names.
unfoldable pub att : AdmissionPredicate → Bool → List (String × String) → PredicateAttestation
att predicate held inputs = record {
  predicate = predicate;
  held = held;
  inputs = sort_by (λ p q. text_lt p.0 q.0) inputs;
}

-- `role` and `kind`: the assertion's, or the edge's where there is no assertion.
unfoldable pub role_of : EdgeEvent → Option Assertion → SourceRole
role_of edge none = edge.role
role_of edge (some assertion) = assertion.role

unfoldable pub kind_of : EdgeEvent → Option Assertion → AssertionKind
kind_of edge none = edge.assertion_kind
kind_of edge (some assertion) = assertion.kind

unfoldable pub spans_of : Option Assertion → List Span
spans_of none = []
spans_of (some assertion) = assertion.spans

unfoldable pub is_live : EdgeEvent → Option Assertion → Bool
is_live edge none = false
is_live edge (some assertion) = assertion.live && edge.live

unfoldable pub has_span : List Span → Bool
has_span spans = is_filled spans && every (λ s. is_text s.artifact_id && is_text s.segment_id) spans

unfoldable pub is_verified : List Span → Bool
is_verified spans = is_filled spans && every (λ s. s.verified) spans

unfoldable pub has_basis : Option Basis → Bool
has_basis none = false
has_basis (some basis) = basis.resolved

-- `edge.risk is not RiskTier.R4`
unfoldable pub not_quarantined : Option RiskTier → Bool
not_quarantined (some RiskTier.r4) = false
not_quarantined _ = true

unfoldable pub is_versioned : Option String → Bool
is_versioned none = false
is_versioned (some version) = is_text version

abbrev risk_text : Option RiskTier → String
unfolding risk_value
risk_text none = "missing"
risk_text (some tier) = risk_value tier

-- `MATRIX.lookup(...).reason`
unfoldable pub matrix_reason :
    SourceRole → ClaimKind → AssertionKind → EdgeRelation → Option RefusalReason
matrix_reason role claim_kind kind relation = elim (lookup role claim_kind kind relation) [
  | none ↦ none
  | some entry ↦ entry.reason
]

unfoldable pub attest :
    EdgeEvent → Claim → Option Assertion → Option Basis → List PredicateAttestation
unfolding risk_text
attest edge claim assertion basis =
    let role = role_of edge assertion in
    let kind = kind_of edge assertion in
    let spans = spans_of assertion in
    att AdmissionPredicate.assertion_live (is_live edge assertion)
      (("edge_live", bool_text edge.live) ∷ [])
    ∷ att AdmissionPredicate.artifact_and_span_present (has_span spans)
        (("spans", decimal (length spans)) ∷ [])
    ∷ att AdmissionPredicate.quote_verified (is_verified spans)
        (("spans", decimal (length spans)) ∷ [])
    ∷ att AdmissionPredicate.tuple_permitted (permits role claim.kind kind edge.relation) (
        ("role", role_value role)
        ∷ ("claim_kind", claim_kind_value claim.kind)
        ∷ ("assertion_kind", assertion_kind_value kind)
        ∷ ("relation", relation_value edge.relation)
        ∷ [])
    ∷ att AdmissionPredicate.basis_identity_resolved (has_basis basis)
        (("basis", edge.basis_id) ∷ [])
    ∷ att AdmissionPredicate.risk_classified (is_some edge.risk && not_quarantined edge.risk)
        (("risk", risk_text edge.risk) ∷ [])
    ∷ att AdmissionPredicate.policy_version_recorded (is_versioned edge.policy_version) []
    ∷ []

-- The ladder of refusals: `none` is no refusal, `some r` the recorded reason `r`.
unfoldable pub refusal :
    EdgeEvent → Claim → Option Assertion → Option Basis → Option (Option RefusalReason)
refusal edge claim assertion basis =
    let role = role_of edge assertion in
    let kind = kind_of edge assertion in
    let spans = spans_of assertion in
    if not (is_live edge assertion)
    then some (some RefusalReason.assertion_not_live)
    else if not (has_span spans)
    then some (some RefusalReason.missing_artifact_or_span)
    else if not (is_verified spans)
    then some (some RefusalReason.unverified_quote)
    else if not (is_some edge.risk)
    then some (some RefusalReason.missing_risk_state)
    else if not (not_quarantined edge.risk)
    then some (some RefusalReason.quarantined_r4)
    else if not (permits role claim.kind kind edge.relation)
    then some (matrix_reason role claim.kind kind edge.relation)
    else if not (has_basis basis)
    then some (some RefusalReason.unresolved_basis)
    else if not (is_versioned edge.policy_version)
    then some (some RefusalReason.missing_policy_version)
    else none

unfoldable pub evaluate_edge : EdgeEvent → Claim → Option Assertion → Option Basis → AdmissionResult
evaluate_edge edge claim assertion basis =
    let attestations = attest edge claim assertion basis in
    elim (refusal edge claim assertion basis) [
      | none ↦ record { admitted = true; reason = none; attestations = attestations }
      | some reason ↦ record { admitted = false; reason = reason; attestations = attestations }
    ]
