-- ===== src/Evidence/Assess.antt =====
-- newz/evidence/assess.py: the assessment of a claim over the store, its history, and whether the
-- last one still follows from the evidence. The bases and the independence recorded between them
-- are those that newz/evidence/bases.py loads, and the times of writing are left out.
pub mod Laws
pub mod Owed
use new_z.Prelude.{
  ℕ, Bool, true, false, not, ◌&&◌, ◌||◌, Option, none, some, List, [], ◌∷◌, ◌++◌, map, String, ◌==◌,
  string_eq, nat_beq, if◌then◌else◌, text_lt, decimal, exists, select, sort_by,
}
use new_z.Domain.Evidence.{AssessmentState, assessment_state_eq, assessment_state_value}
use new_z.Domain.Records.{Assertion, Assessment, Claim, EdgeEvent, IndependenceClaim, Task}
use new_z.Domain.Version.{current_policy_version}
use new_z.Policy.Promotion.{EvidenceInput, assess, ◌⧺◌}
use new_z.Evidence.Edges.{EdgeStore, load_assertion, load_claim, load_edges}

-- A row of the table of assessments: the assessment, and the input that is recorded beside it.
pub record AssessmentRow : Type 0 where
  pub id : String
  pub assessment : Assessment
  pub horizon_reached : Bool

-- An entry "assessment_changed" of the outbox.
pub record Changed : Type 0 where
  pub subject : String
  pub from_state : Option AssessmentState
  pub to_state : AssessmentState
  pub assessment : String

-- The tables that an assessment reads and writes; the rows of `assessments` are in the order of
-- insertion, and `changes` are the entries of the outbox that are written here.
pub record AssessStore : Type 0 where
  pub edges : EdgeStore
  pub independence : List IndependenceClaim
  pub tasks : List Task
  pub assessments : List AssessmentRow
  pub changes : List Changed

unfoldable pub load_tasks : AssessStore → String → List Task
load_tasks store claim_id =
    sort_by (λ t u. text_lt t.id u.id) (select (λ t. t.claim_id == claim_id) store.tasks)

-- `DISTINCT`, of a sorted list.
unfoldable pub distinct : List String → List String
distinct [] = []
distinct (x ∷ []) = x ∷ []
distinct (x ∷ y ∷ more) = let rest = distinct (y ∷ more) in if x == y then rest else x ∷ rest

-- The loop over the ids.
unfoldable pub load_each : EdgeStore → List String → List (String × Assertion)
load_each store [] = []
load_each store (id ∷ ids) = elim (load_assertion store id) [
  | none ↦ load_each store ids
  | some assertion ↦ (id, assertion) ∷ load_each store ids
]

unfoldable pub load_assertions : EdgeStore → String → List (String × Assertion)
load_assertions store claim_id = load_each store (
    distinct (
      sort_by text_lt (
        map (λ (e : EdgeEvent). e.assertion_id)
          (select (λ e. e.claim_id == claim_id) store.edge_events))))

-- What the evidence of a claim that was loaded is.
unfoldable pub inputs_of : AssessStore → String → Claim → Bool → EvidenceInput
inputs_of store claim_id claim horizon_reached = record {
  claim = claim;
  edges = load_edges store.edges claim_id;
  assertions = load_assertions store.edges claim_id;
  bases = store.edges.bases;
  independence = store.independence;
  tasks = load_tasks store claim_id;
  horizon_reached = horizon_reached;
}

-- None is the KeyError of a claim that is not there.
unfoldable pub evidence_input : AssessStore → String → Bool → Option EvidenceInput
evidence_input store claim_id horizon_reached = elim (load_claim store.edges.claims claim_id) [
  | none ↦ none
  | some claim ↦ some (inputs_of store claim_id claim horizon_reached)
]

-- `ORDER BY rowid DESC LIMIT 1`: the row that was written last.
unfoldable pub last_row : List AssessmentRow → String → Option AssessmentRow
last_row [] claim_id = none
last_row (row ∷ rows) claim_id = elim (last_row rows claim_id) [
  | some later ↦ some later
  | none ↦ if row.assessment.claim_id == claim_id then some row else none
]

unfoldable pub find_row : List AssessmentRow → String → Option AssessmentRow
find_row [] id = none
find_row (row ∷ rows) id = if row.id == id then some row else find_row rows id

unfoldable pub current_assessment : AssessStore → String → Option Assessment
current_assessment store claim_id = elim (last_row store.assessments claim_id) [
  | none ↦ none
  | some row ↦ some row.assessment
]

unfoldable pub assessment_history : AssessStore → String → List Assessment
assessment_history store claim_id =
    select (λ a. a.claim_id == claim_id)
      (map (λ (r : AssessmentRow). r.assessment) store.assessments)

unfoldable pub load_assessment : AssessStore → String → Option Assessment
load_assessment store assessment_id = elim (find_row store.assessments assessment_id) [
  | none ↦ none
  | some row ↦ some row.assessment
]

-- `previous is None or previous.state is not result.state`
abbrev pub is_change : Option Assessment → Assessment → Bool
is_change none result = true
is_change (some previous) result = not (previous.state == result.state)

abbrev pub state_of : Option Assessment → Option AssessmentState
state_of none = none
state_of (some previous) = some previous.state

-- The assessment that is returned, the KeyError of a claim that is not there, or the
-- IntegrityError of an id that is taken.
pub data Assessed : Type 0 where
  assessed : Assessment → Assessed
  key_error : String → Assessed
  integrity_error : Assessed

-- The inserts.
unfoldable pub record_assessment : AssessStore → String → String → Bool → Assessment → AssessStore
record_assessment store claim_id assessment_id horizon_reached result =
    let previous = current_assessment store claim_id in
    record store {
      assessments =
          store.assessments
          ++ record {
            id = assessment_id;
            assessment = record result { claim_id = claim_id };
            horizon_reached = horizon_reached;
          }
            ∷ [];
      changes =
          if is_change previous result
          then store.changes
            ++ record {
              subject = claim_id;
              from_state = state_of previous;
              to_state = result.state;
              assessment = assessment_id;
            }
              ∷ []
          else store.changes;
    }

unfoldable pub assess_claim :
    AssessStore
    → (claim_id assessment_id : String) → Bool
    → (policy_version : String) → AssessStore × Assessed
assess_claim store claim_id assessment_id horizon_reached policy_version =
    elim (evidence_input store claim_id horizon_reached) [
      | none ↦ (store, Assessed.key_error claim_id)
      | some inputs ↦
          let result = assess inputs policy_version in
          if exists (λ row. row.id == assessment_id) store.assessments
          then (store, Assessed.integrity_error)
          else (
            record_assessment store claim_id assessment_id horizon_reached result,
            Assessed.assessed result,
          )
    ]

-- `xs != ys` of two tuples of strings.
unfoldable pub same_texts : List String → List String → Bool
same_texts [] [] = true
same_texts [] (y ∷ ys) = false
same_texts (x ∷ xs) [] = false
same_texts (x ∷ xs) (y ∷ ys) = x == y && same_texts xs ys

-- The comparison of what is derived again with what is stored.
unfoldable pub disagreement : (again stored : Assessment) → String
disagreement again stored =
    if not (again.state == stored.state)
    then "the evidence now reads "
      ⧺ assessment_state_value again.state
      ⧺ ", the assessment says "
      ⧺ assessment_state_value stored.state
    else if not (
        nat_beq again.supporting_bases stored.supporting_bases
        && nat_beq again.contradicting_bases stored.contradicting_bases)
    then "the independent bases moved from "
      ⧺ decimal stored.supporting_bases
      ⧺ "/"
      ⧺ decimal stored.contradicting_bases
      ⧺ " to "
      ⧺ decimal again.supporting_bases
      ⧺ "/"
      ⧺ decimal again.contradicting_bases
    else if not (same_texts again.countable_edge_ids stored.countable_edge_ids)
    then "the countable edges changed, so the same conclusion now rests on different evidence"
    else ""

-- The comparison for a row; the row is read again by its id.
unfoldable pub owed_by : AssessStore → String → AssessmentRow → Option String
owed_by store claim_id row =
    if not (row.assessment.policy_version == current_policy_version)
    then some ("derived under superseded policy " ⧺ row.assessment.policy_version)
    else elim (find_row store.assessments row.id) [
      | none ↦ none
      | some stored ↦ elim (evidence_input store claim_id row.horizon_reached) [
        | none ↦ none
        | some inputs ↦
            some (disagreement (assess inputs row.assessment.policy_version) stored.assessment)
      ]
    ]

-- None is the KeyError of a claim that is not there.
unfoldable pub reassessment_owed : AssessStore → String → Option String
reassessment_owed store claim_id = elim (last_row store.assessments claim_id) [
  | none ↦ some "no assessment has been derived"
  | some row ↦ owed_by store claim_id row
]

-- The rows that no later row of the same claim replaces.
unfoldable pub latest : List AssessmentRow → List Assessment
latest [] = []
latest (row ∷ rows) =
    let rest = latest rows in
    if exists (λ later. later.assessment.claim_id == row.assessment.claim_id) rows
    then rest
    else row.assessment ∷ rest

unfoldable pub stale_claims : AssessStore → String → List String
stale_claims store policy_version = sort_by text_lt (
    map (λ (a : Assessment). a.claim_id)
      (select (λ a. not (a.policy_version == policy_version)) (latest store.assessments)))
