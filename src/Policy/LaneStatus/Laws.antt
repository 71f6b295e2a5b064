-- ===== src/Policy/LaneStatus/Laws.antt =====
-- What the status of a lane says of the tasks in it.
use new_z.Prelude.{
  ◌≡◌, refl, sym, ap, ◌∙◌, Bool, true, false, not, ◌&&◌, ◌||◌, List, [], ◌∷◌, arith, ◌==◌,
  is_filled, contains, exists, select, text_lt, is_filled-sort_by, is_some,
}
use new_z.Domain.Work.{TaskState, EvidenceLane, task_state_eq, lane_eq}
use new_z.Domain.Records.{Task}
use new_z.Policy.LaneStatus.{
  live_task_states, terminal_competent_states, terminal_incomplete_states, LaneStatus, still_open,
  absence_recorded, in_states, by_id, concluded, status_of, lane_status,
}

-- The states of a task are the live, the competent and the incomplete ones, each in one set.
states-partition :
    (s : TaskState)
    → (contains live_task_states s
        || (contains terminal_competent_states s || contains terminal_incomplete_states s))
      ≡ true
states-partition s = ground arith

abbrev pub in_lane : EvidenceLane → List Task → List Task
in_lane lane tasks = select (λ t. t.lane == lane) tasks

is_filled-select : (p : Task → Bool) (ts : List Task) → is_filled (select p ts) ≡ exists p ts
is_filled-select p [] = refl
is_filled-select p (t ∷ ts) = ground (arith, is_filled-select p ts)

-- `any(t.state in states for t in tasks)`
abbrev pub any_in : List TaskState → List Task → Bool
any_in states tasks = exists (λ t. contains states t.state) tasks

by_id-filled : (p : Task → Bool) (ts : List Task) → is_filled (by_id (select p ts)) ≡ exists p ts
by_id-filled p ts =
    is_filled-sort_by (λ (t u : Task). text_lt t.id u.id) (select p ts) ∙ is_filled-select p ts

-- What the branches say, by which of the three lists have a task.
pub record Says (s : LaneStatus) (settled blocked found : Bool) : Type 0 where
  pub settles : s.settled_competent ≡ settled
  pub blocks : s.blocked ≡ blocked
  pub finds : is_some s.state ≡ found

concluded_lem :
    (lane : EvidenceLane) (a b c : List Task)
    → Says
        (concluded lane a b c)
        (is_filled a)
        (not (is_filled a) && (not (is_filled b) && is_filled c))
        (is_filled a || (is_filled b || is_filled c))
concluded_lem lane (t ∷ a) b c = record { settles = refl; blocks = refl; finds = refl }
concluded_lem lane [] (t ∷ b) c = record { settles = refl; blocks = refl; finds = refl }
concluded_lem lane [] [] (t ∷ c) = record { settles = refl; blocks = refl; finds = refl }
concluded_lem lane [] [] [] = record { settles = refl; blocks = refl; finds = refl }

select-select :
    (p q : Task → Bool) (ts : List Task) → select p (select q ts) ≡ select (λ t. q t && p t) ts
select-select p q [] = refl
select-select p q (t ∷ ts) = ground (arith, select-select p q ts)

competent : Task → Bool
competent t = contains terminal_competent_states t.state

-- A task that is neither live nor competent is incomplete.
exists-incomplete :
    (ts : List Task)
    → any_in live_task_states ts ≡ false
    → any_in terminal_competent_states ts ≡ false
    → any_in terminal_incomplete_states ts ≡ is_filled ts
exists-incomplete [] h k = refl
exists-incomplete (t ∷ ts) h k = ground (arith, states-partition t.state)

competent-recorded :
    (ts : List Task)
    → is_filled (by_id (select absence_recorded (in_states terminal_competent_states ts)))
      ≡ exists (λ t. competent t && absence_recorded t) ts
unfolding competent
competent-recorded ts =
    by_id-filled absence_recorded (in_states terminal_competent_states ts)
    ∙ sym (is_filled-select absence_recorded (in_states terminal_competent_states ts))
    ∙ ap is_filled (select-select absence_recorded competent ts)
    ∙ is_filled-select (λ t. competent t && absence_recorded t) ts

recorded_of_competent :
    (ts : List Task)
    → exists (λ t. competent t && absence_recorded t) ts ≡ true
    → any_in terminal_competent_states ts ≡ true
unfolding competent
recorded_of_competent [] h = cc
recorded_of_competent (t ∷ ts) h = ground (arith, recorded_of_competent ts)

-- The closing branches, where every recorded task is competent and some task is competent or
-- incomplete.
concluded-Says :
    (lane : EvidenceLane) (xs ys zs : List Task) (recorded some_competent incomplete : Bool)
    → is_filled xs ≡ recorded
    → is_filled ys ≡ some_competent
    → is_filled zs ≡ incomplete
    → (recorded ≡ true → some_competent ≡ true)
    → (some_competent ≡ false → incomplete ≡ true)
    → Says (concluded lane xs ys zs) recorded (not some_competent) true
concluded-Says lane xs ys zs recorded some_competent incomplete a b c below covers =
    let s = concluded_lem lane xs ys zs in
    record {
      settles = s.settles ∙ a;
      blocks = s.blocks ∙ ground arith;
      finds = s.finds ∙ ground arith;
    }

-- What holds of a lane with the tasks `ts`.
abbrev pub LaneSays : LaneStatus → List Task → Type 0
LaneSays s ts =
    Says s
      (not (any_in live_task_states ts)
        && exists (λ t. contains terminal_competent_states t.state && absence_recorded t) ts)
      (is_filled ts
        && (not (any_in live_task_states ts) && not (any_in terminal_competent_states ts)))
      (is_filled ts)

live-LaneSays :
    (s : LaneStatus) (t : Task) (ts : List Task)
    → any_in live_task_states (t ∷ ts) ≡ true
    → Says s false false true
    → LaneSays s (t ∷ ts)
live-LaneSays s t ts h said = rw h said

closed-LaneSays :
    (s : LaneStatus) (t : Task) (ts : List Task)
    → any_in live_task_states (t ∷ ts) ≡ false
    → Says s
        (exists (λ t. competent t && absence_recorded t) (t ∷ ts))
        (not (any_in terminal_competent_states (t ∷ ts)))
        true
    → LaneSays s (t ∷ ts)
unfolding competent
closed-LaneSays s t ts h said = rw h said

still_open-LaneSays :
    (lane : EvidenceLane) (ls : List Task) (rest : LaneStatus) (t : Task) (ts : List Task)
    → is_filled ls ≡ any_in live_task_states (t ∷ ts)
    → (any_in live_task_states (t ∷ ts) ≡ false
        → Says rest
            (exists (λ t. competent t && absence_recorded t) (t ∷ ts))
            (not (any_in terminal_competent_states (t ∷ ts)))
            true)
    → LaneSays (still_open lane ls rest) (t ∷ ts)
still_open-LaneSays lane (l ∷ ls) rest t ts alive below =
    live-LaneSays (still_open lane (l ∷ ls) rest) t ts (sym alive)
      (record { settles = refl; blocks = refl; finds = refl })
still_open-LaneSays lane [] rest t ts alive below =
    closed-LaneSays rest t ts (sym alive) (below (sym alive))

status_of-LaneSays : (lane : EvidenceLane) (ts : List Task) → LaneSays (status_of lane ts) ts
unfolding status_of
status_of-LaneSays lane [] = record { settles = refl; blocks = refl; finds = refl }
status_of-LaneSays lane (t ∷ ts) =
    let us = t ∷ ts in
    let done = in_states terminal_competent_states us in
    let xs = by_id (select absence_recorded done) in
    let zs = by_id (in_states terminal_incomplete_states us) in
    still_open-LaneSays lane (by_id (in_states live_task_states us))
      (concluded lane xs (by_id done) zs) t ts
      (by_id-filled (λ t. contains live_task_states t.state) us)
      (λ none_live.
        concluded-Says lane xs (by_id done) zs _ _ _ (competent-recorded us)
          (by_id-filled (λ t. contains terminal_competent_states t.state) us)
          (by_id-filled (λ t. contains terminal_incomplete_states t.state) us)
          (recorded_of_competent us) (exists-incomplete us none_live))

-- A required lane is settled exactly if no task in it is live and a task that searched competently
-- records what an absence needs; it is blocked exactly if there are tasks in it and each was
-- refused, cancelled, expired or superseded; and it has a state exactly if there is a task in it.
pub lane_status-LaneSays :
    (lane : EvidenceLane) (tasks : List Task)
    → LaneSays (lane_status lane tasks) (in_lane lane tasks)
unfolding lane_status
lane_status-LaneSays lane tasks = status_of-LaneSays lane (in_lane lane tasks)
