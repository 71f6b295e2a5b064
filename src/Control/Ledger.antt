-- ===== src/Control/Ledger.antt =====
-- newz/store/schema.py, the tables that the scheduler reads and writes: operations, reservations,
-- refused reservations, and what it counts of attempts, artifacts and diet epochs. A column that
-- holds the time of writing is left out.
use new_z.Prelude.{ℕ, Option, List, String}
use new_z.Domain.Operations.{ReadLane, OperationKind, OperationState, FetchRefusal}

pub record OperationRow : Type 0 where
  pub id : String
  pub kind : OperationKind
  pub lane : ReadLane
  pub source_revision_id : String
  pub epoch_id : String
  pub policy_version : String
  pub intent : String
  pub idempotency_key : String
  pub state : OperationState
  pub local_day : String
  pub lease_owner : Option String
  pub lease_expires_at : Option String
  pub outcome : Option String

pub record ReservationRow : Type 0 where
  pub id : String
  pub operation_id : String
  pub local_day : String
  pub lane : ReadLane
  pub borrowed_from : Option ReadLane

pub record RefusalRow : Type 0 where
  pub idempotency_key : String
  pub source_revision_id : String
  pub lane : ReadLane
  pub refusal : FetchRefusal
  pub detail : String
  pub local_day : String

pub record Ledger : Type 0 where
  pub operations : List OperationRow
  pub reservations : List ReservationRow
  pub reservation_refusals : List RefusalRow
  -- The pairs of an epoch and a source revision that it enables.
  pub diet_epoch_sources : List (String × String)
  -- `started_at` of each attempt.
  pub attempts : List String
  -- `stored_at` and `byte_size` of each artifact.
  pub artifacts : List (String × ℕ)
