-- ===== src/Publish/Tables.antt =====
-- newz/publish: the tables that appraisal, clearance and publication keep. The times of writing
-- that nothing reads are left out.
use new_z.Prelude.{Bool, true, false, Option, List, String}
use new_z.Domain.Evidence.{risk_value}
use new_z.Parse.Registry.{Segment}
use new_z.Policy.Promotion.{◌⧺◌}
use new_z.Control.Adversarial.{ReviewStore}
use new_z.Present.Cards.{CardRevision, CardStore}

pub data AppraisalDimension : Type 0 where
  accuracy privacy risk rendering fair_representation material_omission : AppraisalDimension

unfoldable pub dimension_value : AppraisalDimension → String
dimension_value AppraisalDimension.accuracy = "accuracy"
dimension_value AppraisalDimension.privacy = "privacy"
dimension_value AppraisalDimension.risk = "risk"
dimension_value AppraisalDimension.rendering = "rendering"
dimension_value AppraisalDimension.fair_representation = "fair_representation"
dimension_value AppraisalDimension.material_omission = "material_omission"

-- `dimension in JUDGMENT_DIMENSIONS`
abbrev pub is_judgment : AppraisalDimension → Bool
is_judgment AppraisalDimension.fair_representation = true
is_judgment AppraisalDimension.material_omission = true
is_judgment _ = false

-- A row of `appraisals`; the verdict of a dimension that awaits review is none.
pub record AppraisalRow : Type 0 where
  pub id : String
  pub card_revision_id : String
  pub dimension : String
  pub decided_by : String
  pub passed : Option Bool
  pub detail : String
  pub reviewer : String

pub record QueueRow : Type 0 where
  pub id : String
  pub card_revision_id : String
  pub output_class : String
  pub sampled_reason : String
  pub state : String
  pub finding : String
  pub reviewer : String

pub record Clearance : Type 0 where
  pub id : String
  pub card_revision_id : String
  pub content_hash : String
  pub output_class : String
  pub granted : Bool
  pub refusal_reason : String
  pub policy_version : String
  pub operator_actor : String

pub record Publication : Type 0 where
  pub id : String
  pub card_revision_id : String
  pub clearance_id : String
  pub audience : String
  pub status : String

pub record Revocation : Type 0 where
  pub id : String
  pub kind : String
  pub claim_id : String
  pub card_revision_id : String
  pub output_class : String
  pub reason : String
  pub attempted_at : String
  pub due_at : String
  pub confirmed_at : String
  pub status : String

pub record TombstoneRow : Type 0 where
  pub id : String
  pub claim_id : String
  pub card_revision_id : String
  pub explanation : String

-- A row of `class_halts`; `cleared` says that `cleared_at` is not NULL.
pub record ClassHalt : Type 0 where
  pub output_class : String
  pub reason : String
  pub cleared : Bool

pub record Reach : Type 0 where
  pub audience : String
  pub enabled : Bool
  pub scope : String
  pub changed_by : String
  pub reason : String

-- A row of the audit trail, without its hash.
pub record Audited : Type 0 where
  pub actor : String
  pub action : String
  pub target : String
  pub reason : String
  pub preimage : String
  pub result : String
  pub channel : String

-- The tables. `named` pairs an assertion with the name of an entity in it, and `origins` a claim
-- with the quotation it was first taken from.
pub record PublishStore : Type 0 where
  pub cards : CardStore
  pub reviews : ReviewStore
  pub segments : List Segment
  pub named : List (String × String)
  pub origins : List (String × String)
  pub appraisals : List AppraisalRow
  pub review_queue : List QueueRow
  pub clearances : List Clearance
  pub publications : List Publication
  pub revocations : List Revocation
  pub tombstones : List TombstoneRow
  pub class_halts : List ClassHalt
  pub reach_settings : List Reach
  pub audit_events : List Audited

-- `class_of`, of a revision that is there.
unfoldable pub class_of : CardRevision → String
class_of row = "claim_card:" ⧺ risk_value row.risk
