-- ===== src/Research/Tasks/Laws.antt =====
-- What the moves of a task keep, and when discovery is paused.
use mathlib.Core.Path.{subst}
use new_z.Prelude.{
  ◌≡◌, refl, sym, ap, ◌∙◌, Bool, true, false, not, ◌&&◌, ◌||◌, Option, none, some, List, [], ◌∷◌,
  map, arith, String, ◌==◌, string_eq, ltb, is_text, is_filled, contains, exists, every, select,
  length, text_lt, is_filled-sort_by, length-sort_by, length-map, Bool-cases, Option-cases, &&_iff,
  inl, inr,
}
use new_z.Domain.Work.{TaskState, task_state_eq}
use new_z.Domain.Records.{Task}
use new_z.Policy.LaneStatus.{terminal_incomplete_states}
use new_z.Research.Tasks.{
  transitions, TaskStore, Result, find_task, is_terminal, set_state, guard, update, transition_task,
  is_due, is_open_counterpart, open_counterparts, overdue_counterparts, discovery_brake,
}

abbrev pub is_done : Result → Bool
is_done (Result.done s t) = true
is_done (Result.failed e) = false

abbrev pub implies : Bool → Bool → Bool
implies a b = not a || b

-- What a task must meet to be moved.
abbrev pub may_move : TaskState → String → Task → Bool
may_move to reason t =
    not (is_terminal t.state)
    && (contains (transitions t.state) to
        && implies (contains terminal_incomplete_states to) (is_text reason))

abbrev pub holds_of : (Task → Bool) → Option Task → Bool
holds_of p none = false
holds_of p (some t) = p t

-- A move is made exactly if the task exists, is not terminal, has the move, and a terminal state
-- without a search is given a reason.
transition_task_iff :
    (store : TaskStore) (id : String) (to : TaskState) (reason actor : String)
    → is_done (transition_task store id to reason actor)
      ≡ holds_of (may_move to reason) (find_task store.tasks id)
unfolding transition_task guard
transition_task_iff store id to reason actor = ground arith

set_state-same :
    (id : String) (to : TaskState) (reason : String) (t : Task)
    → (t.id == id) ≡ true
    → set_state id to reason t ≡ record t { state = to; state_reason = reason }
unfolding set_state
set_state-same id to reason t h = rw h refl

set_state-other :
    (id : String) (to : TaskState) (reason : String) (t : Task)
    → (t.id == id) ≡ false
    → set_state id to reason t ≡ t
unfolding set_state
set_state-other id to reason t h = rw h refl

set_state-id :
    (id : String) (to : TaskState) (reason : String) (t : Task)
    → (set_state id to reason t).id ≡ t.id
unfolding set_state
set_state-id id to reason t = elim (Bool-cases (t.id == id)) [
  | inl h ↦ rw h refl
  | inr h ↦ rw h refl
]

-- The other tasks are found as they were.
find_task-set_state :
    (id other : String) (to : TaskState) (reason : String) (ts : List Task)
    → (id == other) ≡ false
    → find_task (map (set_state id to reason) ts) other ≡ find_task ts other
unfolding find_task
find_task-set_state id other to reason [] h = refl
find_task-set_state id other to reason (t ∷ ts) h = elim (Bool-cases (t.id == other)) [
  | inl here ↦ rw (untouched here, here) refl
  | inr there ↦
      rw (set_state-id id to reason t, there) (find_task-set_state id other to reason ts h)
]
  where
    untouched : (t.id == other) ≡ true → set_state id to reason t ≡ t
    untouched here = set_state-other id to reason t (
        ground (
          arith,
          string_eq.beq_iff t.id other,
          string_eq.beq_iff t.id id,
          string_eq.beq_iff id other,
        ))

find_task-moved :
    (id : String) (to : TaskState) (reason : String) (ts : List Task) {t : Task}
    → find_task ts id ≡ some t
    → holds_of
        (λ u. u.state == to && u.state_reason == reason)
        (find_task (map (set_state id to reason) ts) id)
      ≡ true
unfolding find_task
find_task-moved id to reason [] h = ground arith
find_task-moved id to reason (t ∷ ts) h = elim (Bool-cases (t.id == id)) [
  | inl here ↦
      rw
        (
          set_state-id id to reason t,
          here,
          set_state-same id to reason t here,
          (task_state_eq.beq_iff to to).1 refl,
          (string_eq.beq_iff reason reason).1 refl,
        )
        refl
  | inr there ↦
      rw (set_state-id id to reason t, there) (find_task-moved id to reason ts (rw there at h))
]

-- Every task in a terminal state without a search says why.
abbrev pub explains : Task → Bool
explains t = implies (contains terminal_incomplete_states t.state) (is_text t.state_reason)

abbrev pub IsExplained : List Task → Type 0
IsExplained ts = every explains ts ≡ true

set_state-IsExplained :
    (id : String) (to : TaskState) (reason : String) (ts : List Task)
    → implies (contains terminal_incomplete_states to) (is_text reason) ≡ true
    → IsExplained ts
    → IsExplained (map (set_state id to reason) ts)
set_state-IsExplained id to reason [] h k = refl
set_state-IsExplained id to reason (t ∷ ts) h k =
    let (first, rest) = (&&_iff (explains t) (every explains ts)).0 k in
    let more = set_state-IsExplained id to reason ts h rest in
    elim (Bool-cases (t.id == id)) [
      | inl here ↦ rw (set_state-same id to reason t here, h) more
      | inr there ↦ rw (set_state-other id to reason t there, first) more
    ]

done_inj :
    {s t : TaskStore} {m n : TaskState} → Result.done s m ≡ Result.done t n → (s ≡ t) × (m ≡ n)
done_inj {s} {t} {m} {n} h = (
  ap (λ o. elim o [ Result.done x _ ↦ x | Result.failed _ ↦ s ]) h,
  ap (λ o. elim o [ Result.done _ x ↦ x | Result.failed _ ↦ m ]) h,
)

-- What a move leaves in the table of tasks.
abbrev pub Moves : TaskStore → TaskStore → String → TaskState → String → Type 0
Moves store store' id to reason =
    (holds_of (λ u. u.state == to && u.state_reason == reason) (find_task store'.tasks id) ≡ true)
    × ((other : String)
        → (id == other) ≡ false
        → find_task store'.tasks other ≡ find_task store.tasks other)
    × (IsExplained store.tasks → IsExplained store'.tasks)

update-Moves :
    (store : TaskStore) (id : String) (to : TaskState) (reason actor : String) {row : Task}
    → find_task store.tasks id ≡ some row
    → guard row.state to reason ≡ none
    → Moves store (update store id row.state to reason actor) id to reason
unfolding update guard
update-Moves store id to reason actor {row} found passed = (
  find_task-moved id to reason store.tasks found,
  λ other h. find_task-set_state id other to reason store.tasks h,
  set_state-IsExplained id to reason store.tasks (ground arith),
)

-- A move that is made puts the task in the state asked for, with the reason given, leaves every
-- other task as it was, and keeps it so that each task in a terminal state without a search says
-- why.
pub transition_task-Moves :
    (store store' : TaskStore) (id : String) (to state : TaskState) (reason actor : String)
    → transition_task store id to reason actor ≡ Result.done store' state
    → Moves store store' id to reason × (state ≡ to)
unfolding transition_task
transition_task-Moves store store' id to state reason actor h =
    elim (Option-cases (find_task store.tasks id)) [
      | inl lost ↦ ground arith
      | inr (row, found) ↦ elim (Option-cases (guard row.state to reason)) [
        | inr (e, failed) ↦ ground arith
        | inl passed ↦
            let (same, to_state) = done_inj (rw (found, passed, transition_task) at h) in
            (
              subst (λ s. Moves store s id to reason) same
                  (update-Moves store id to reason actor found passed),
              sym to_state,
            )
      ]
    ]

filled-select :
    (p : Task → Bool) (ts : List Task)
    → is_filled (map (λ (t : Task). t.id) (select p ts)) ≡ exists p ts
filled-select p [] = refl
filled-select p (t ∷ ts) = ground (arith, filled-select p ts)

overdue-filled :
    (store : TaskStore) (now : String)
    → is_filled (overdue_counterparts store now)
      ≡ exists (λ t. is_open_counterpart t && is_due now t) store.tasks
unfolding overdue_counterparts
overdue-filled store now =
    let p = λ (t : Task). is_open_counterpart t && is_due now t in
    is_filled-sort_by text_lt (map (λ (t : Task). t.id) (select p store.tasks))
    ∙ filled-select p store.tasks

backlog-length :
    (store : TaskStore)
    → length (open_counterparts store) ≡ length (select is_open_counterpart store.tasks)
unfolding open_counterparts
backlog-length store =
    let found = select is_open_counterpart store.tasks in
    length-sort_by text_lt (map (λ (t : Task). t.id) found) ∙ length-map (λ (t : Task). t.id) found

-- The brake is engaged exactly if an open counterpart task is overdue or more than twelve are open,
-- and it names overdue tasks exactly if there are some.
discovery_brake_iff :
    (store : TaskStore) (now : String)
    → ((discovery_brake store now).engaged ≡ (
        exists (λ t. is_open_counterpart t && is_due now t) store.tasks
        || ltb 12 (length (select is_open_counterpart store.tasks))))
      × (is_filled (discovery_brake store now).overdue
          ≡ exists (λ t. is_open_counterpart t && is_due now t) store.tasks)
unfolding discovery_brake
discovery_brake_iff store now =
    rw (sym (overdue-filled store now), sym (backlog-length store))
      (elim (Bool-cases (is_filled (overdue_counterparts store now))) [
        | inl late ↦ rw late (refl, late)
        | inr prompt ↦ elim (Bool-cases (ltb 12 (length (open_counterparts store)))) [
          | inl many ↦ rw (prompt, many) (refl, refl)
          | inr few ↦ rw (prompt, few) (refl, refl)
        ]
      ])
