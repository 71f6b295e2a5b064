-- ===== src/Domain/Records.antt =====
-- newz/domain/records.py: the record shapes, field by field. `X | None` is `Option X`, a tuple is
-- a list, and a time or a date stays the text that the source keeps. `as_record`, the print of a
-- record as a JSON object, is not modelled.
use new_z.Prelude.{ℕ, Bool, String, Option, List}
use new_z.Domain.Int.{ℤ}
use new_z.Domain.Evidence.{
  SourceRole, ClaimKind, AssertionKind, EdgeRelation, AssessmentState, RiskTier,
  IndependenceJustification,
}
use new_z.Domain.Admission.{RefusalReason, AdmissionPredicate}
use new_z.Domain.Work.{TaskState, EvidenceLane}

pub record Span : Type 0 where
  pub artifact_id : String
  pub segment_id : String
  pub start : ℤ
  pub end : ℤ
  pub quote : String
  pub locator : String
  pub verified : Bool

pub record Assertion : Type 0 where
  pub id : String
  pub kind : AssertionKind
  pub spans : List Span
  pub source_revision_id : String
  pub role : SourceRole
  pub declared_scope : String
  pub live : Bool

pub record Claim : Type 0 where
  pub id : String
  pub kind : ClaimKind
  pub wording : String
  pub risk : Option RiskTier
  pub resolution_horizon : Option String
  pub resolver : Option String
  pub aliases : List String
  pub withdrawn : Bool

pub record Basis : Type 0 where
  pub id : String
  pub origin_kind : String
  pub origin_identifier : String
  pub resolved : Bool
  pub independence_group : Option String

pub record IndependenceClaim : Type 0 where
  pub basis_a : String
  pub basis_b : String
  pub justification : IndependenceJustification
  pub evidence : String
  pub operator_actor : Option String
  pub operator_reason : Option String

pub record PredicateAttestation : Type 0 where
  pub predicate : AdmissionPredicate
  pub held : Bool
  pub inputs : List (String × String)

pub record EdgeEvent : Type 0 where
  pub id : String
  pub assertion_id : String
  pub claim_id : String
  pub relation : EdgeRelation
  pub basis_id : String
  pub role : SourceRole
  pub assertion_kind : AssertionKind
  pub risk : Option RiskTier
  pub policy_version : Option String
  pub admitted : Bool
  pub live : Bool
  pub refusal_reason : Option RefusalReason
  pub attestations : List PredicateAttestation
  pub declared_scope : String
  pub topic : String
  pub adjudicative_scope_covers_claim : Option Bool

pub record Assessment : Type 0 where
  pub claim_id : String
  pub state : AssessmentState
  pub supporting_bases : ℕ
  pub contradicting_bases : ℕ
  pub policy_version : String
  pub code_version : String
  pub explanation : String
  pub blocked_lanes : List (EvidenceLane × TaskState × String)
  pub countable_edge_ids : List String

pub record SupersessionEvent : Type 0 where
  pub id : String
  pub kind : String
  pub preimage_claim_ids : List String
  pub successor_claim_ids : List String
  pub reason : String

pub record Task : Type 0 where
  pub id : String
  pub claim_id : String
  pub lane : EvidenceLane
  pub state : TaskState
  pub owner : String
  pub reason : String
  pub due : String
  pub retry_budget : ℤ
  pub state_reason : String
  pub expected_record : String
  pub repository : String
  pub query : String
  pub time_window : String
  pub searched_scope : String

pub record OperatorAction : Type 0 where
  pub id : String
  pub actor : String
  pub at : String
  pub action : String
  pub reason : String
  pub target_preimage : String
  pub result : String
  pub channel : String

pub record Presentation : Type 0 where
  pub id : String
  pub kind : String
  pub claim_ids : List String
  pub edge_ids : List String
  pub policy_version : String
  pub live : Bool
  pub invalidation_reason : String
  pub metadata : List (String × String)
