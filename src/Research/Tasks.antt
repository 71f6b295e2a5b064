-- ===== src/Research/Tasks.antt =====
-- newz/research/tasks.py: the life of a task, and the brake on discovery. The store is its table of
-- tasks and its audit trail; a time is its stamp, whose texts are ordered as the times are. The
-- `ORDER BY id` of a query is the sort of its rows.
pub mod Laws
use Prim.Native.String.{◌++◌ as text_append}
use new_z.Prelude.{
  ℕ, Bool, true, false, not, ◌&&◌, ◌||◌, Option, none, some, List, [], ◌∷◌, map, String, ◌==◌,
  string_eq, ltb, if◌then◌else◌, is_text, is_filled, text_lt, decimal, length, contains, exists,
  select, sort_by,
}
use new_z.Domain.Work.{TaskState, EvidenceLane, task_state_eq, lane_eq}
use new_z.Domain.Records.{Task}
use new_z.Policy.LaneStatus.{
  live_task_states, terminal_competent_states, terminal_incomplete_states,
}

abbrev pub counterpart_backlog_limit : ℕ
counterpart_backlog_limit = 12

-- `TRANSITIONS.get(state, frozenset())`
abbrev pub transitions : TaskState → List TaskState
transitions TaskState.opened = TaskState.scheduled ∷ TaskState.cancelled ∷ TaskState.expired ∷ []
transitions TaskState.scheduled =
    TaskState.in_progress ∷ TaskState.blocked ∷ TaskState.cancelled ∷ TaskState.expired ∷ []
transitions TaskState.in_progress =
    TaskState.satisfied ∷ TaskState.exhausted ∷ TaskState.unreachable ∷ TaskState.blocked
    ∷ TaskState.refused ∷ TaskState.cancelled ∷ TaskState.expired ∷ []
transitions TaskState.blocked =
    TaskState.scheduled ∷ TaskState.cancelled ∷ TaskState.expired ∷ TaskState.refused ∷ []
transitions _ = []

pub record AuditEvent : Type 0 where
  pub actor : String
  pub action : String
  pub target : String
  pub reason : String
  pub preimage : TaskState
  pub result : TaskState
  pub channel : String

pub record TaskStore : Type 0 where
  pub tasks : List Task
  pub audit_events : List AuditEvent

-- KeyError, and the three reasons of TaskTransitionRefused.
pub data TaskError : Type 0 where
  unknown_task already_terminal not_a_transition no_reason : TaskError

pub data Result : Type 0 where
  done : TaskStore → TaskState → Result
  failed : TaskError → Result

-- `SELECT * FROM tasks WHERE id = ?`, its first row.
unfoldable pub find_task : List Task → String → Option Task
find_task [] task_id = none
find_task (t ∷ ts) task_id = if t.id == task_id then some t else find_task ts task_id

abbrev pub is_terminal : TaskState → Bool
is_terminal state =
    contains terminal_competent_states state || contains terminal_incomplete_states state

-- The row with a new state and its reason.
unfoldable pub set_state : String → TaskState → String → Task → Task
set_state task_id to reason t =
    if t.id == task_id then record t { state = to; state_reason = reason } else t

unfoldable pub guard : TaskState → TaskState → String → Option TaskError
guard current to reason =
    if is_terminal current
    then some TaskError.already_terminal
    else if not (contains (transitions current) to)
    then some TaskError.not_a_transition
    else if contains terminal_incomplete_states to && not (is_text reason)
    then some TaskError.no_reason
    else none

unfoldable pub update : TaskStore → String → TaskState → TaskState → String → String → TaskStore
update store task_id current to reason actor = record {
  tasks = map (set_state task_id to reason) store.tasks;
  audit_events =
      if contains terminal_incomplete_states to
      then record {
        actor = actor;
        action = "task_terminal_incomplete";
        target = task_id;
        reason = reason;
        preimage = current;
        result = to;
        channel = if to == TaskState.cancelled then "command" else "system";
      }
        ∷ store.audit_events
      else store.audit_events;
}

unfoldable pub transition_task : TaskStore → String → TaskState → (reason actor : String) → Result
transition_task store task_id to reason actor = elim (find_task store.tasks task_id) [
  | none ↦ Result.failed TaskError.unknown_task
  | some row ↦ elim (guard row.state to reason) [
    | some e ↦ Result.failed e
    | none ↦ Result.done (update store task_id row.state to reason actor) to
  ]
]

-- `stamp <= now`
abbrev pub is_due : String → Task → Bool
is_due now t = not (text_lt now t.due)

abbrev pub is_open_counterpart : Task → Bool
is_open_counterpart t =
    t.lane == EvidenceLane.independent_counterpart && contains live_task_states t.state

-- `SELECT id FROM tasks WHERE ... ORDER BY id`
abbrev pub ids_where : (Task → Bool) → List Task → List String
ids_where p tasks = sort_by text_lt (map (λ t. t.id) (select p tasks))

unfoldable pub open_counterparts : TaskStore → List String
open_counterparts store = ids_where is_open_counterpart store.tasks

unfoldable pub overdue_counterparts : TaskStore → String → List String
overdue_counterparts store now = ids_where (λ t. is_open_counterpart t && is_due now t) store.tasks

unfoldable pub expirable : TaskStore → String → List String
expirable store now = ids_where (λ t. contains live_task_states t.state && is_due now t) store.tasks

pub record DiscoveryBrake : Type 0 where
  pub engaged : Bool
  pub reason : String
  pub open_counterparts : ℕ
  pub overdue : List String

unfoldable pub discovery_brake : TaskStore → String → DiscoveryBrake
discovery_brake store now =
    let overdue = overdue_counterparts store now in
    let backlog = open_counterparts store in
    if is_filled overdue
    then record {
      engaged = true;
      reason = text_append (decimal (length overdue)) " counterpart task(s) overdue";
      open_counterparts = length backlog;
      overdue = overdue;
    }
    else if ltb counterpart_backlog_limit (length backlog)
    then record {
      engaged = true;
      reason =
          text_append (decimal (length backlog))
            (text_append " open counterpart tasks exceeds " (decimal counterpart_backlog_limit));
      open_counterparts = length backlog;
      overdue = [];
    }
    else record { engaged = false; reason = ""; open_counterparts = length backlog; overdue = [] }
