-- ===== src/Domain/Work.antt =====
-- newz/domain/enums.py, the vocabulary of evidence work: tasks and the lanes they search.
use new_z.Prelude.{ℕ, ◌≡◌, ◌↔◌, true, String, Eq, nat_beq, arith}

pub data TaskState : Type 0 where
  opened scheduled in_progress blocked satisfied exhausted unreachable refused cancelled : TaskState
  expired superseded : TaskState

abbrev pub task_state_index : TaskState → ℕ
task_state_index TaskState.opened = 0
task_state_index TaskState.scheduled = 1
task_state_index TaskState.in_progress = 2
task_state_index TaskState.blocked = 3
task_state_index TaskState.satisfied = 4
task_state_index TaskState.exhausted = 5
task_state_index TaskState.unreachable = 6
task_state_index TaskState.refused = 7
task_state_index TaskState.cancelled = 8
task_state_index TaskState.expired = 9
task_state_index TaskState.superseded = 10

pub task_state_beq_iff :
    (a b : TaskState) → (nat_beq (task_state_index a) (task_state_index b) ≡ true) ↔ (a ≡ b)
task_state_beq_iff a b = ground arith

instance abbrev pub task_state_eq : Eq TaskState
task_state_eq = record {
  beq = λ a b. nat_beq (task_state_index a) (task_state_index b);
  beq_iff = task_state_beq_iff;
}

unfoldable pub task_state_value : TaskState → String
task_state_value TaskState.opened = "open"
task_state_value TaskState.scheduled = "scheduled"
task_state_value TaskState.in_progress = "in_progress"
task_state_value TaskState.blocked = "blocked"
task_state_value TaskState.satisfied = "satisfied"
task_state_value TaskState.exhausted = "exhausted"
task_state_value TaskState.unreachable = "unreachable"
task_state_value TaskState.refused = "refused"
task_state_value TaskState.cancelled = "cancelled"
task_state_value TaskState.expired = "expired"
task_state_value TaskState.superseded = "superseded"

pub data EvidenceLane : Type 0 where
  claimant_origin primary_record empirical independent_counterpart skeptical_analysis resolver :
      EvidenceLane

abbrev pub lane_index : EvidenceLane → ℕ
lane_index EvidenceLane.claimant_origin = 0
lane_index EvidenceLane.primary_record = 1
lane_index EvidenceLane.empirical = 2
lane_index EvidenceLane.independent_counterpart = 3
lane_index EvidenceLane.skeptical_analysis = 4
lane_index EvidenceLane.resolver = 5

pub lane_beq_iff : (a b : EvidenceLane) → (nat_beq (lane_index a) (lane_index b) ≡ true) ↔ (a ≡ b)
lane_beq_iff a b = ground arith

instance abbrev pub lane_eq : Eq EvidenceLane
lane_eq = record { beq = λ a b. nat_beq (lane_index a) (lane_index b); beq_iff = lane_beq_iff }

unfoldable pub lane_value : EvidenceLane → String
lane_value EvidenceLane.claimant_origin = "claimant_origin"
lane_value EvidenceLane.primary_record = "primary_record"
lane_value EvidenceLane.empirical = "empirical"
lane_value EvidenceLane.independent_counterpart = "independent_counterpart"
lane_value EvidenceLane.skeptical_analysis = "skeptical_analysis"
lane_value EvidenceLane.resolver = "resolver"
