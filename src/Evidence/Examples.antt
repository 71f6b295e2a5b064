-- ===== src/Evidence/Examples.antt =====
-- newz/evidence/edges.py and newz/evidence/assess.py, one edge that is admitted and withdrawn.
use new_z.Prelude.{
  ◌≡◌, ◌≢◌, refl, Bool, true, false, not, ◌&&◌, ◌||◌, none, some, [], ◌∷◌, String, ◌==◌, string_eq,
  exists,
}
use new_z.Domain.Int.{ℤ}
use new_z.Domain.Evidence.{
  SourceRole, ClaimKind, AssertionKind, EdgeRelation, RiskTier, AssessmentState,
}
use new_z.Domain.Records.{Assertion, Claim, Basis, EdgeEvent, Assessment}
use new_z.Domain.Version.{current_policy_version, code_version}
use new_z.Policy.Promotion.{assess}
use new_z.Policy.Admission.{AdmissionResult, evaluate_edge}
use new_z.Evidence.Edges.{
  EdgeStore, Proposed, load_assertion, find_assertion, load_claim, edge_of, row_of, record_edge,
  admit_edge, withdraw_edge, loaded, load_edges,
}
use new_z.Evidence.Assess.{
  AssessStore, inputs_of, evidence_input, last_row, current_assessment, record_assessment,
  assess_claim, reassessment_owed,
}
use new_z.Evidence.Assess.Laws.{Follows, assess_claim-Follows}
use new_z.Evidence.Assess.Owed.{withdraw_edge-reassessment_owed}
use new_z.Evidence.Edges.Laws.{IsEvaluated, admit_edge-load_edges, withdraw_edge-load_edges}

abbrev claim : Claim
claim = record {
  id = "c-1";
  kind = ClaimKind.event_or_observation;
  wording = "The bridge fell";
  risk = some RiskTier.r1;
  resolution_horizon = none;
  resolver = none;
  aliases = [];
  withdrawn = false;
}

abbrev basis : Basis
basis = record {
  id = "b-1";
  origin_kind = "report";
  origin_identifier = "r-1";
  resolved = true;
  independence_group = none;
}

abbrev store : EdgeStore
store = record {
  assertions =
      record {
        id = "a-1";
        artifact_id = "art-1";
        segment_id = "s-1";
        source_revision_id = "src-1";
        kind = AssertionKind.documented_event;
        quote = "The bridge fell";
        offset_start = ℤ.pos 0;
        offset_end = ℤ.pos 15;
        locator = "p";
        live = true;
      }
      ∷ [];
  roles = ("src-1", SourceRole.primary_record) ∷ [];
  claims = claim ∷ [];
  bases = ("b-1", basis) ∷ [];
  edge_events = [];
  predicate_attestations = [];
  outbox = [];
}

abbrev proposed : Proposed
proposed = record {
  edge_id = "e-1";
  assertion_id = "a-1";
  claim_id = "c-1";
  relation = EdgeRelation.supports;
  basis_id = "b-1";
  risk = some RiskTier.r1;
  declared_scope = "";
  topic = "";
  adjudicative_scope_covers_claim = none;
  policy_version = "1.0.0";
}

abbrev assertion : Assertion
assertion = record {
  id = "a-1";
  kind = AssertionKind.documented_event;
  spans =
      record {
        artifact_id = "art-1";
        segment_id = "s-1";
        start = ℤ.pos 0;
        end = ℤ.pos 15;
        quote = "The bridge fell";
        locator = "p";
        verified = true;
      }
      ∷ [];
  source_revision_id = "src-1";
  role = SourceRole.primary_record;
  declared_scope = "";
  live = true;
}

abbrev result : AdmissionResult
result = evaluate_edge (edge_of proposed assertion) claim (some assertion) (some basis)

abbrev edge : EdgeEvent
edge = record (row_of (edge_of proposed assertion) result) { attestations = result.attestations }

abbrev after : EdgeStore
after = record_edge store (edge_of proposed assertion) result

admit_edge-load_edges_example :
    IsEvaluated store proposed edge result
    × ((q : EdgeEvent → Bool) (claim_id : String)
        → exists q (load_edges after claim_id) ≡ (
            exists q (load_edges store claim_id)
            || edge.claim_id == claim_id && (edge.live && edge.admitted) && q (loaded edge)))
unfolding admit_edge load_claim load_assertion find_assertion
admit_edge-load_edges_example = admit_edge-load_edges store proposed after edge result refl

abbrev withdrawn : EdgeStore
withdrawn = record after {
  edge_events = record (row_of (edge_of proposed assertion) result) { live = false } ∷ [];
  outbox = ("edge_withdrawn", "e-1", "retracted") ∷ [];
}

withdraw_edge-load_edges_example :
    exists (λ e. e.id == "e-1") (load_edges withdrawn "c-1")
    ≡ exists (λ e. not (e.id == "e-1") && e.id == "e-1") (load_edges after "c-1")
unfolding withdraw_edge record_edge edge_of
withdraw_edge-load_edges_example =
    withdraw_edge-load_edges (λ e. e.id == "e-1") after withdrawn "e-1" "retracted" "c-1" refl

abbrev assess_store : AssessStore
assess_store = record {
  edges = after;
  independence = [];
  tasks = [];
  assessments = [];
  changes = [];
}

abbrev first_result : Assessment
first_result = assess (inputs_of assess_store "c-1" claim false) current_policy_version

assess_claim-Follows_example :
    Follows assess_store
      (record_assessment assess_store "c-1" "as-1" false first_result)
      "c-1"
      first_result
unfolding assess_claim evidence_input load_claim record_edge
assess_claim-Follows_example =
    assess_claim-Follows assess_store
      (record_assessment assess_store "c-1" "as-1" false first_result) "c-1" "as-1" false
      first_result refl

abbrev held : Assessment
held = record {
  claim_id = "c-1";
  state = AssessmentState.provisional_support;
  supporting_bases = 1;
  contradicting_bases = 0;
  policy_version = current_policy_version;
  code_version = code_version;
  explanation = "one_independent_basis";
  blocked_lanes = [];
  countable_edge_ids = "e-1" ∷ [];
}

abbrev held_store : AssessStore
held_store = record assess_store {
  assessments = record { id = "as-1"; assessment = held; horizon_reached = false } ∷ [];
}

withdraw_edge-reassessment_owed_example :
    reassessment_owed (record held_store { edges = withdrawn }) "c-1" ≢ some ""
unfolding current_assessment last_row withdraw_edge record_edge edge_of
withdraw_edge-reassessment_owed_example =
    withdraw_edge-reassessment_owed held_store withdrawn "c-1" "e-1" "retracted" held (refl, tt)
      refl refl refl
