-- ===== src/Policy/LaneStatus.antt =====
-- newz/policy/promotion.py, `lane_statuses`: what the tasks of a claim say of each required lane.
pub mod Laws
use new_z.Prelude.{
  Bool, true, false, ◌&&◌, Option, none, some, List, [], ◌∷◌, map, String, ◌==◌, if◌then◌else◌,
  is_text, text_lt, contains, select, sort_by,
}
use new_z.Domain.Evidence.{ClaimKind}
use new_z.Domain.Work.{TaskState, EvidenceLane, task_state_eq, lane_eq, lane_value}
use new_z.Domain.Records.{Claim, Task}
use new_z.Policy.Lanes.{required}

abbrev pub live_task_states : List TaskState
live_task_states =
    TaskState.opened ∷ TaskState.scheduled ∷ TaskState.in_progress ∷ TaskState.blocked ∷ []

abbrev pub terminal_competent_states : List TaskState
terminal_competent_states = TaskState.satisfied ∷ TaskState.exhausted ∷ TaskState.unreachable ∷ []

abbrev pub terminal_incomplete_states : List TaskState
terminal_incomplete_states =
    TaskState.refused ∷ TaskState.cancelled ∷ TaskState.expired ∷ TaskState.superseded ∷ []

pub record LaneStatus : Type 0 where
  pub lane : EvidenceLane
  pub settled_competent : Bool
  pub blocked : Bool
  pub state : Option TaskState
  pub reason : String

unfoldable pub absence_recorded : Task → Bool
absence_recorded task =
    if task.state == TaskState.satisfied
    then true
    else is_text task.expected_record
      && (is_text task.repository
          && (is_text task.query && (is_text task.time_window && is_text task.searched_scope)))

-- `[t for t in tasks if t.state in states]`, `sorted(tasks, key=lambda t: t.id)`
abbrev pub in_states : List TaskState → List Task → List Task
in_states states tasks = select (λ t. contains states t.state) tasks

abbrev pub by_id : List Task → List Task
by_id tasks = sort_by (λ t u. text_lt t.id u.id) tasks

abbrev status : EvidenceLane → Bool → Bool → Option TaskState → String → LaneStatus
status lane settled blocked state reason = record {
  lane = lane;
  settled_competent = settled;
  blocked = blocked;
  state = state;
  reason = reason;
}

-- `task.state_reason or "terminal_incomplete"`
abbrev reason_of : Task → String
reason_of task = if is_text task.state_reason then task.state_reason else "terminal_incomplete"

-- The branches of the loop body. A list is tested by whether its sorted copy has a first item. The
-- last `[]` is the IndexError of `sorted(incomplete)[0]`: the state of a task is in one of the
-- three sets, so some list has a task.
abbrev pub concluded : EvidenceLane → List Task → List Task → List Task → LaneStatus
concluded lane (t ∷ _) _ _ = status lane true false (some t.state) "searched_and_concluded"
concluded lane [] (t ∷ _) _ = status lane false false (some t.state) "search_not_described"
concluded lane [] [] (t ∷ _) = status lane false true (some t.state) (reason_of t)
concluded lane [] [] [] = status lane false false none "index_error"

-- The branch of the live tasks, before those.
abbrev pub still_open : EvidenceLane → List Task → LaneStatus → LaneStatus
still_open lane (t ∷ _) rest = status lane false false (some t.state) "still_open"
still_open lane [] rest = rest

-- The body of the loop for the tasks in the lane.
unfoldable pub status_of : EvidenceLane → List Task → LaneStatus
unfolding absence_recorded
status_of lane [] = status lane false false none "no_task_created"
status_of lane (task ∷ tasks) =
    let in_lane = task ∷ tasks in
    let competent = in_states terminal_competent_states in_lane in
    still_open lane (by_id (in_states live_task_states in_lane)) (
      concluded lane (by_id (select absence_recorded competent)) (by_id competent)
        (by_id (in_states terminal_incomplete_states in_lane)))

unfoldable pub lane_status : EvidenceLane → List Task → LaneStatus
unfolding status_of
lane_status lane tasks = status_of lane (select (λ t. t.lane == lane) tasks)

unfoldable pub lane_statuses : Claim → List Task → List LaneStatus
unfolding lane_value
lane_statuses claim tasks =
    map (λ lane. lane_status lane tasks)
      (sort_by (λ a b. text_lt (lane_value a) (lane_value b)) (required claim.kind))
