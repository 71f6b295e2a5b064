-- ===== src/Policy/Samples.antt =====
-- newz/policy, a small body of evidence: two records of one event, a justification that tells them
-- apart, and the tasks of a claim.
use new_z.Prelude.{true, false, none, some, List, [], ◌∷◌, String, string_eq}
use new_z.Domain.Int.{ℤ}
use new_z.Domain.Evidence.{
  SourceRole, ClaimKind, AssertionKind, EdgeRelation, RiskTier, IndependenceJustification,
  relation_eq, risk_eq,
}
use new_z.Domain.Work.{TaskState, EvidenceLane}
use new_z.Domain.Records.{Span, Assertion, Claim, Basis, IndependenceClaim, EdgeEvent, Task}
use new_z.Policy.Promotion.{EvidenceInput}
use new_z.Prelude.{string_eq}

abbrev pub span : Span
span = record {
  artifact_id = "art-1";
  segment_id = "seg-1";
  start = ℤ.pos 0;
  end = ℤ.pos 4;
  quote = "fell";
  locator = "p. 1";
  verified = true;
}

abbrev pub recorded : Assertion
recorded = record {
  id = "a-1";
  kind = AssertionKind.documented_event;
  spans = span ∷ [];
  source_revision_id = "rev-1";
  role = SourceRole.primary_record;
  declared_scope = "";
  live = true;
}

abbrev pub event_claim : Claim
event_claim = record {
  id = "c-1";
  kind = ClaimKind.event_or_observation;
  wording = "The bridge fell";
  risk = some RiskTier.r1;
  resolution_horizon = none;
  resolver = none;
  aliases = [];
  withdrawn = false;
}

abbrev pub basis : String → Basis
basis name = record {
  id = name;
  origin_kind = "record";
  origin_identifier = name;
  resolved = true;
  independence_group = none;
}

abbrev pub edge_from : String → EdgeRelation → String → EdgeEvent
edge_from name relation basis_name = record {
  id = name;
  assertion_id = "a-1";
  claim_id = "c-1";
  relation = relation;
  basis_id = basis_name;
  role = SourceRole.primary_record;
  assertion_kind = AssertionKind.documented_event;
  risk = some RiskTier.r1;
  policy_version = some "1.0.0";
  admitted = true;
  live = true;
  refusal_reason = none;
  attestations = [];
  declared_scope = "";
  topic = "bridge";
  adjudicative_scope_covers_claim = none;
}

abbrev pub apart : IndependenceClaim
apart = record {
  basis_a = "b-1";
  basis_b = "b-2";
  justification = IndependenceJustification.distinct_official_record;
  evidence = "two registries";
  operator_actor = none;
  operator_reason = none;
}

abbrev pub two_bases : List (String × Basis)
two_bases = ("b-1", basis "b-1") ∷ ("b-2", basis "b-2") ∷ []

abbrev pub two_ids : List String
two_ids = "b-1" ∷ "b-2" ∷ []

abbrev pub evidence : List EdgeEvent → List IndependenceClaim → List Task → EvidenceInput
evidence edges independence tasks = record {
  claim = event_claim;
  edges = edges;
  assertions = ("a-1", recorded) ∷ [];
  bases = two_bases;
  independence = independence;
  tasks = tasks;
  horizon_reached = false;
}

abbrev pub two_supports : List EdgeEvent
two_supports =
    edge_from "e-1" EdgeRelation.supports "b-1" ∷ edge_from "e-2" EdgeRelation.supports "b-2" ∷ []

abbrev pub one_each : List EdgeEvent
one_each =
    edge_from "e-1" EdgeRelation.supports "b-1"
    ∷ edge_from "e-2" EdgeRelation.contradicts "b-2"
    ∷ []

abbrev pub searched : EvidenceLane → Task
searched lane = record {
  id = "t-1";
  claim_id = "c-1";
  lane = lane;
  state = TaskState.exhausted;
  owner = "desk";
  reason = "";
  due = "";
  retry_budget = ℤ.pos 0;
  state_reason = "";
  expected_record = "permit";
  repository = "registry";
  query = "bridge";
  time_window = "2020";
  searched_scope = "all";
}

abbrev pub searches : List Task
searches =
    searched EvidenceLane.claimant_origin
    ∷ searched EvidenceLane.primary_record
    ∷ searched EvidenceLane.independent_counterpart
    ∷ searched EvidenceLane.skeptical_analysis
    ∷ []

abbrev pub supported_input : EvidenceInput
supported_input = evidence two_supports (apart ∷ []) []

abbrev pub contested_input : EvidenceInput
contested_input = evidence one_each (apart ∷ []) []

abbrev pub searched_input : EvidenceInput
searched_input = evidence [] [] searches

abbrev pub unjustified_input : EvidenceInput
unjustified_input = evidence two_supports [] []
