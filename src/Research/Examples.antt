-- ===== src/Research/Examples.antt =====
-- newz/research/tasks.py, runs on one task in progress and one that is open.
use new_z.Prelude.{◌≡◌, refl, [], ◌∷◌, String, string_eq}
use new_z.Domain.Int.{ℤ}
use new_z.Domain.Work.{TaskState, EvidenceLane}
use new_z.Domain.Records.{Task}
use new_z.Research.Tasks.{TaskStore, find_task, set_state, guard, update, transition_task}
use new_z.Research.Tasks.Laws.{Moves, transition_task-Moves}
use new_z.Prelude.{every, text_lt, true, string_eq}
use new_z.Domain.Evidence.{ClaimKind}
use new_z.Domain.Work.{lane_value}
use new_z.Policy.Lanes.{required}
use new_z.Research.Generation.{task_id, last_part, generate_tasks}
use new_z.Research.Generation.Laws.{generate_tasks-stuck}

abbrev task : String → TaskState → Task
task name state = record {
  id = name;
  claim_id = "c-1";
  lane = EvidenceLane.independent_counterpart;
  state = state;
  owner = "worker:evidence";
  reason = "required evidence lane";
  due = "2026-01-03";
  retry_budget = ℤ.pos 2;
  state_reason = "";
  expected_record = "";
  repository = "";
  query = "";
  time_window = "";
  searched_scope = "";
}

abbrev two_tasks : TaskStore
two_tasks = record {
  tasks = task "t-1" TaskState.in_progress ∷ task "t-2" TaskState.opened ∷ [];
  audit_events = [];
}

abbrev refused_store : TaskStore
unfolding update set_state
refused_store = update two_tasks "t-1" TaskState.in_progress TaskState.refused "no standing" "ada"

transition_task-Moves_example :
    Moves two_tasks refused_store "t-1" TaskState.refused "no standing"
    × (TaskState.refused ≡ TaskState.refused)
unfolding transition_task find_task guard update set_state refused_store
transition_task-Moves_example =
    transition_task-Moves two_tasks refused_store "t-1" TaskState.refused TaskState.refused
      "no standing" "ada" refl

abbrev due_at : EvidenceLane → String
due_at lane = "2026-02-01 00:00:00"

abbrev expired_resolver : Task
expired_resolver = record (task "task:1-resolver" TaskState.expired) {
  claim_id = "claim:1";
  lane = EvidenceLane.resolver;
}

generate_tasks-stuck_example :
    ((generate_tasks "claim:1" due_at "worker:evidence" "lane"
        (ℤ.pos 2)
        ClaimKind.forecast
        (expired_resolver ∷ [])).0
      ≡ expired_resolver ∷ [])
    × (every
          (λ g. g.created)
          (generate_tasks "claim:1" due_at "worker:evidence" "lane"
            (ℤ.pos 2)
            ClaimKind.forecast
            (expired_resolver ∷ [])).1
        ≡ true)
unfolding task_id last_part lane_value required text_lt
generate_tasks-stuck_example =
    generate_tasks-stuck "claim:1" due_at "worker:evidence" "lane" (ℤ.pos 2) ClaimKind.forecast
      (expired_resolver ∷ []) refl
