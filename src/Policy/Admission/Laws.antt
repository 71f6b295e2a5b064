-- ===== src/Policy/Admission/Laws.antt =====
-- When an edge is admitted, and what is recorded of it.
use new_z.Prelude.{
  ◌≡◌, refl, ◌∙◌, Bool, true, false, not, ◌&&◌, Option, none, some, arith, is_some, every, ◌≢◌,
  is_filled, is_text, String, sym,
}
use new_z.Domain.Evidence.{SourceRole, ClaimKind, AssertionKind, EdgeRelation, RiskTier}
use new_z.Domain.Records.{Assertion, Claim, Basis, EdgeEvent}
use new_z.Policy.Rules.{Cell}
use new_z.Policy.Rules.Table.{in_table, decide-eq-in_table}
use new_z.Policy.Matrix.{permits}
use new_z.Policy.Matrix.Laws.{lookup-Restates, permits-eq-in_table}
use new_z.Policy.Admission.{
  att, attest, refusal, evaluate_edge, role_of, kind_of, spans_of, is_live, has_span, is_verified,
  has_basis, not_quarantined, is_versioned, matrix_reason,
}

-- A refused cell of the matrix has a reason.
matrix_reason-is_some :
    (r : SourceRole) (k : ClaimKind) (a : AssertionKind) (e : EdgeRelation)
    → permits r k a e ≡ false
    → is_some (matrix_reason r k a e) ≡ true
unfolding permits matrix_reason
matrix_reason-is_some r k a e h =
    let (entry, found, restates) = lookup-Restates r k a e in
    let (v, decided, _, reasoned) =
      decide-eq-in_table (record { role = r; claim_kind = k; assertion_kind = a; relation = e }) in
    ground (arith, found, restates.decided, restates.same_reason, restates.same_admitted)

-- An edge is admitted exactly if each of the seven predicates is attested to hold, and a reason is
-- recorded exactly if it is refused.
evaluate_edge-attested :
    (edge : EdgeEvent) (claim : Claim) (assertion : Option Assertion) (basis : Option Basis)
    → ((evaluate_edge edge claim assertion basis).admitted
        ≡ every (λ a. a.held) (evaluate_edge edge claim assertion basis).attestations)
      × (is_some (evaluate_edge edge claim assertion basis).reason
          ≡ not (evaluate_edge edge claim assertion basis).admitted)
unfolding evaluate_edge attest refusal att
evaluate_edge-attested edge claim assertion basis = ground (
  arith,
  matrix_reason-is_some (role_of edge assertion) claim.kind (kind_of edge assertion) edge.relation,
)

abbrev pub cell_of : EdgeEvent → Claim → Assertion → Cell
cell_of edge claim a = record {
  role = a.role;
  claim_kind = claim.kind;
  assertion_kind = a.kind;
  relation = edge.relation;
}

-- What an edge needs in order to count.
pub record Qualifies (edge : EdgeEvent) (claim : Claim) (assertion : Option Assertion)
    (basis : Option Basis) : Type 0 where
  pub said : Assertion
  pub found : assertion ≡ some said
  pub lives : (said.live && edge.live) ≡ true
  pub quoted : is_filled said.spans ≡ true
  pub located : every (λ s. is_text s.artifact_id && is_text s.segment_id) said.spans ≡ true
  pub checked : every (λ s. s.verified) said.spans ≡ true
  pub listed : in_table (cell_of edge claim said) ≡ true
  pub origin : Basis
  pub traced : basis ≡ some origin
  pub resolved : origin.resolved ≡ true
  pub tier : RiskTier
  pub classified : edge.risk ≡ some tier
  pub bearable : tier ≢ RiskTier.r4
  pub version : String
  pub recorded : edge.policy_version ≡ some version
  pub named : is_text version ≡ true

tier_of :
    (r : Option RiskTier)
    → is_some r ≡ true
    → not_quarantined r ≡ true
    → (t : RiskTier) × (r ≡ some t) × (t ≢ RiskTier.r4)
unfolding not_quarantined
tier_of none h k = cc
tier_of (some t) h k = (t, refl, λ e. ground arith)

version_of :
    (v : Option String) → is_versioned v ≡ true → (s : String) × (v ≡ some s) × (is_text s ≡ true)
unfolding is_versioned
version_of none h = cc
version_of (some s) h = (s, refl, h)

-- The eight tests of the ladder.
passes : EdgeEvent → Claim → Assertion → Basis → Bool
passes edge claim a b =
    is_live edge (some a)
    && (has_span a.spans
        && (is_verified a.spans
            && (is_some edge.risk
                && (not_quarantined edge.risk
                    && (permits a.role claim.kind a.kind edge.relation
                        && (has_basis (some b) && is_versioned edge.policy_version))))))

live_none : (edge : EdgeEvent) → is_live edge none ≡ false
unfolding is_live
live_none edge = refl

basis_none : has_basis none ≡ false
unfolding has_basis
basis_none = refl

refusal-none :
    (edge : EdgeEvent) (claim : Claim) (assertion : Option Assertion) (basis : Option Basis)
    → (evaluate_edge edge claim assertion basis).admitted ≡ true
    → (a : Assertion) × (b : Basis) × (assertion ≡ some a)
      × (basis ≡ some b)
      × (passes edge claim a b ≡ true)
unfolding evaluate_edge refusal passes role_of kind_of spans_of
refusal-none edge claim none basis h = absurd (ground (arith, live_none edge))
refusal-none edge claim (some a) none h = absurd (ground (arith, basis_none))
refusal-none edge claim (some a) (some b) h = (a, b, refl, refl, ground arith)

-- An edge is admitted only if its assertion exists and lives with it, every span of the assertion
-- is located and verified and there is one, the capability table lists the cell or the relation does
-- not count, the basis exists and is resolved, the risk is known and below R4, and a policy version
-- is recorded.
pub admitted-Qualifies :
    (edge : EdgeEvent) (claim : Claim) (assertion : Option Assertion) (basis : Option Basis)
    → (evaluate_edge edge claim assertion basis).admitted ≡ true
    → Qualifies edge claim assertion basis
unfolding passes is_live has_span is_verified has_basis
admitted-Qualifies edge claim assertion basis h =
    let (a, b, found, traced, p) = refusal-none edge claim assertion basis h in
    let (tier, classified, bearable) = tier_of edge.risk (ground arith) (ground arith) in
    let (version, recorded, named) = version_of edge.policy_version (ground arith) in
    record {
      said = a;
      found = found;
      lives = ground arith;
      quoted = ground arith;
      located = ground arith;
      checked = ground arith;
      listed = sym (permits-eq-in_table a.role claim.kind a.kind edge.relation) ∙ ground arith;
      origin = b;
      traced = traced;
      resolved = ground arith;
      tier = tier;
      classified = classified;
      bearable = bearable;
      version = version;
      recorded = recorded;
      named = named;
    }
