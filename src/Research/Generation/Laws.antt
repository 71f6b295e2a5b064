-- ===== src/Research/Generation/Laws.antt =====
-- What the generation of tasks adds, and what it reports.
use new_z.Prelude.{
  ◌≡◌, refl, sym, ap, ◌∙◌, Bool, true, false, not, ◌&&◌, List, [], ◌∷◌, ◌++◌, arith, String, ◌==◌,
  string_eq, text_lt, every, exists, sort_by, Bool-cases, inl, inr, &&_iff, eq_refl,
}
use new_z.Domain.Int.{ℤ}
use new_z.Domain.Evidence.{ClaimKind}
use new_z.Domain.Work.{TaskState, EvidenceLane, task_state_eq, lane_value}
use new_z.Domain.Records.{Task}
use new_z.Policy.Lanes.{required}
use new_z.Research.Generation.{
  task_id, is_covered, insert_or_ignore, new_task, generate_one, report_one, generate_all,
  generate_tasks,
}

append-[] : (xs : List Task) → xs ++ [] ≡ xs
append-[] [] = refl
append-[] (x ∷ xs) = ap (λ l. x ∷ l) (append-[] xs)

append_assoc : (xs ys zs : List Task) → (xs ++ ys) ++ zs ≡ xs ++ (ys ++ zs)
append_assoc [] ys zs = refl
append_assoc (x ∷ xs) ys zs = ap (λ l. x ∷ l) (append_assoc xs ys zs)

every-append_of :
    (p : Task → Bool) (xs ys : List Task)
    → every p xs ≡ true
    → every p ys ≡ true
    → every p (xs ++ ys) ≡ true
every-append_of p [] ys h k = k
every-append_of p (x ∷ xs) ys h k = ground (arith, every-append_of p xs ys)

-- `lanes` sorted by their values, as the loop visits them.
abbrev pub visited : ClaimKind → List EvidenceLane
visited claim_kind = sort_by (λ a b. text_lt (lane_value a) (lane_value b)) (required claim_kind)

module _ (claim_id : String) (due : EvidenceLane → String) (owner reason : String)
    (retry_budget : ℤ) where
  -- The rows that are added after those there were.
  abbrev pub Extends : List Task → List Task → Type 0
  Extends tasks result =
      (more : List Task) × (result ≡ tasks ++ more)
      × (every (λ t. t.claim_id == claim_id && t.state == TaskState.opened) more ≡ true)

  generate_one-Extends :
      (before : List Task) (lane : EvidenceLane) (tasks : List Task)
      → Extends tasks (generate_one claim_id due owner reason retry_budget before lane tasks)
  unfolding generate_one insert_or_ignore
  generate_one-Extends before lane tasks = elim (Bool-cases (is_covered claim_id lane before)) [
    | inl covered ↦ rw covered ([], sym (append-[] tasks), refl)
    | inr uncovered ↦ elim (Bool-cases (exists (λ t. t.id == task_id claim_id lane) tasks)) [
      | inl taken ↦ rw (uncovered, taken) ([], sym (append-[] tasks), refl)
      | inr fresh ↦
          rw (uncovered, fresh)
            (
              new_task claim_id lane (due lane) owner reason retry_budget ∷ [],
              refl,
              rw (eq_refl claim_id) refl,
            )
    ]
  ]

  generate_all-Extends :
      (before : List Task) (lanes : List EvidenceLane) (tasks : List Task)
      → Extends tasks (generate_all claim_id due owner reason retry_budget before lanes tasks).0
  unfolding generate_all
  generate_all-Extends before [] tasks = ([], sym (append-[] tasks), refl)
  generate_all-Extends before (lane ∷ lanes) tasks =
      let (one, first, a) = generate_one-Extends before lane tasks in
      let (more, rest, b) =
        generate_all-Extends before lanes
          (generate_one claim_id due owner reason retry_budget before lane tasks) in
      (
        one ++ more,
        rest ∙ ap (λ xs. xs ++ more) first ∙ append_assoc tasks one more,
        every-append_of _ one more a b,
      )

  -- Nothing to insert: each lane is uncovered, and its id is taken by a row that does not cover it.
  abbrev pub is_stuck : List Task → EvidenceLane → Bool
  is_stuck tasks lane =
      not (is_covered claim_id lane tasks) && exists (λ t. t.id == task_id claim_id lane) tasks

  stuck_one :
      (tasks : List Task) (lane : EvidenceLane)
      → is_stuck tasks lane ≡ true
      → generate_one claim_id due owner reason retry_budget tasks lane tasks ≡ tasks
  unfolding generate_one insert_or_ignore
  stuck_one tasks lane h =
      let uncovered : is_covered claim_id lane tasks ≡ false = ground arith in
      let taken : exists (λ t. t.id == task_id claim_id lane) tasks ≡ true = ground arith in
      rw (uncovered, taken) refl

  generate_all-stuck :
      (tasks : List Task) (lanes : List EvidenceLane)
      → every (is_stuck tasks) lanes ≡ true
      → ((generate_all claim_id due owner reason retry_budget tasks lanes tasks).0 ≡ tasks)
        × (every
              (λ g. g.created)
              (generate_all claim_id due owner reason retry_budget tasks lanes tasks).1
            ≡ true)
  unfolding generate_all report_one
  generate_all-stuck tasks [] h = (refl, refl)
  generate_all-stuck tasks (lane ∷ lanes) h =
      let (here, there) = (&&_iff (is_stuck tasks lane) (every (is_stuck tasks) lanes)).0 h in
      let uncovered : is_covered claim_id lane tasks ≡ false = ground arith in
      rw (stuck_one tasks lane here, uncovered) (generate_all-stuck tasks lanes there)

  -- Generation adds rows after those there were, each an open task of the claim, and changes none.
  generate_tasks-Extends :
      (claim_kind : ClaimKind) (tasks : List Task)
      → Extends tasks (generate_tasks claim_id due owner reason retry_budget claim_kind tasks).0
  unfolding generate_tasks
  generate_tasks-Extends claim_kind tasks = generate_all-Extends tasks (visited claim_kind) tasks

  -- If each required lane has no live and no competent task but its id is taken, as by a task that
  -- expired, was refused or was cancelled, then nothing is written, and every lane is reported as
  -- created.
  pub generate_tasks-stuck :
      (claim_kind : ClaimKind) (tasks : List Task)
      → every (is_stuck tasks) (visited claim_kind) ≡ true
      → ((generate_tasks claim_id due owner reason retry_budget claim_kind tasks).0 ≡ tasks)
        × (every
              (λ g. g.created)
              (generate_tasks claim_id due owner reason retry_budget claim_kind tasks).1
            ≡ true)
  unfolding generate_tasks
  generate_tasks-stuck claim_kind tasks h = generate_all-stuck tasks (visited claim_kind) h
