-- ===== src/Research/Generation.antt =====
-- newz/research/tasks.py, `generate_tasks`: one task for each required lane of a claim. The due
-- stamps, which the source computes from the clock, are given by lane; the rows of the claim are
-- those of the table that name it, and the claim is in its own table.
pub mod Laws
use Prim.Native.String.{String, ◌++◌ as text_append}
use Prim.Native.Char.{code}
use new_z.Prelude.{
  Bool, true, false, not, ◌&&◌, ◌||◌, List, [], ◌∷◌, ◌++◌, ◌==◌, string_eq, nat_beq, if◌then◌else◌,
  text_lt, contains, exists, sort_by,
}
use new_z.Domain.Int.{ℤ}
use new_z.Domain.Evidence.{ClaimKind}
use new_z.Domain.Work.{TaskState, EvidenceLane, task_state_eq, lane_eq, lane_value}
use new_z.Domain.Records.{Task}
use new_z.Policy.Lanes.{required}
use new_z.Policy.LaneStatus.{live_task_states, terminal_competent_states}

pub record GeneratedTask : Type 0 where
  pub id : String
  pub lane : EvidenceLane
  pub due : String
  pub created : Bool

-- `claim_id.split(":")[-1]`, with what it is if no colon is left.
unfoldable pub last_part : String → String → String
last_part whole String.[] = whole
last_part whole (String.◌∷◌ c rest) =
    if nat_beq (code c) 58 then last_part rest rest else last_part whole rest

unfoldable pub task_id : String → EvidenceLane → String
task_id claim_id lane =
    text_append "task:"
      (text_append (last_part claim_id claim_id) (text_append "-" (lane_value lane)))

-- The claim has a task of the lane in one of the states.
abbrev pub has_task : List TaskState → String → EvidenceLane → List Task → Bool
has_task states claim_id lane tasks =
    exists (λ t. t.claim_id == claim_id && (t.lane == lane && contains states t.state)) tasks

-- `lane.value in live_lanes or lane.value in satisfied_lanes`
abbrev pub is_covered : String → EvidenceLane → List Task → Bool
is_covered claim_id lane tasks =
    has_task live_task_states claim_id lane tasks
    || has_task terminal_competent_states claim_id lane tasks

-- `INSERT OR IGNORE`: a row whose id the table has is dropped.
unfoldable pub insert_or_ignore : List Task → Task → List Task
insert_or_ignore tasks task =
    if exists (λ t. t.id == task.id) tasks then tasks else tasks ++ task ∷ []

abbrev pub new_task : String → EvidenceLane → (due owner reason : String) → ℤ → Task
new_task claim_id lane due owner reason retry_budget = record {
  id = task_id claim_id lane;
  claim_id = claim_id;
  lane = lane;
  state = TaskState.opened;
  owner = owner;
  reason = reason;
  due = due;
  retry_budget = retry_budget;
  state_reason = "";
  expected_record = "";
  repository = "";
  query = "";
  time_window = "";
  searched_scope = "";
}

module _ (claim_id : String) (due : EvidenceLane → String) (owner reason : String)
    (retry_budget : ℤ) where
  -- The body of the loop: the row, and what is reported of it. `before` is the table as it was
  -- read ahead of the loop.
  unfoldable pub generate_one : List Task → EvidenceLane → List Task → List Task
  generate_one before lane tasks =
      if is_covered claim_id lane before
      then tasks
      else insert_or_ignore tasks (new_task claim_id lane (due lane) owner reason retry_budget)

  unfoldable pub report_one : List Task → EvidenceLane → GeneratedTask
  report_one before lane =
      if is_covered claim_id lane before
      then record { id = ""; lane = lane; due = ""; created = false }
      else record { id = task_id claim_id lane; lane = lane; due = due lane; created = true }

  unfoldable pub generate_all :
      List Task → List EvidenceLane → List Task → List Task × List GeneratedTask
  generate_all before [] tasks = (tasks, [])
  generate_all before (lane ∷ lanes) tasks =
      let (tasks', generated) = generate_all before lanes (generate_one before lane tasks) in
      (tasks', report_one before lane ∷ generated)

  unfoldable pub generate_tasks : ClaimKind → List Task → List Task × List GeneratedTask
  generate_tasks claim_kind tasks =
      generate_all tasks
        (sort_by (λ a b. text_lt (lane_value a) (lane_value b)) (required claim_kind)) tasks
