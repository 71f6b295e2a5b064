-- ===== src/Evidence/Assess/Laws.antt =====
-- What an assessment that was just derived says, and what a withdrawal makes of it.
use new_z.Prelude.{
  ◌≡◌, refl, sym, ap, ◌∙◌, arith, Bool, true, false, some, List, [], ◌∷◌, ◌++◌, map, String, ◌==◌,
  string_eq, if◌then◌else◌, nat_beq_iff, exists, select, eq_refl, Bool-cases, Option-cases, inl,
  inr,
}
use mathlib.Core.Path.{subst}
use new_z.Domain.Evidence.{assessment_state_eq}
use new_z.Domain.Records.{Assessment, Claim}
use new_z.Domain.Version.{current_policy_version}
use new_z.Policy.Promotion.{EvidenceInput, assess}
use new_z.Evidence.Edges.{load_claim}
use new_z.Evidence.Assess.{
  AssessmentRow, AssessStore, Assessed, inputs_of, load_tasks, evidence_input, last_row, find_row,
  current_assessment, assessment_history, record_assessment, assess_claim, same_texts, disagreement,
  owed_by, reassessment_owed,
}

load_claim-id :
    (claims : List Claim) (id : String) {claim : Claim}
    → load_claim claims id ≡ some claim
    → claim.id ≡ id
unfolding load_claim
load_claim-id [] id h = cc
load_claim-id (c ∷ rest) id {claim} h = elim (Bool-cases (c.id == id)) [
  | inl same ↦ found (rw same at h) ∙ (string_eq.beq_iff c.id id).0 same
  | inr other ↦ load_claim-id rest id (rw other at h)
]
  where
    found : some (record c { aliases = [] }) ≡ some claim → claim.id ≡ c.id
    found k = cc

assess-claim_id :
    (inputs : EvidenceInput) (v : String) → (assess inputs v).claim_id ≡ inputs.claim.id
unfolding assess
assess-claim_id inputs v = refl

assess-policy_version : (inputs : EvidenceInput) (v : String) → (assess inputs v).policy_version ≡ v
unfolding assess
assess-policy_version inputs v = refl

last_row-append :
    (rows : List AssessmentRow) (row : AssessmentRow) (id : String)
    → last_row (rows ++ row ∷ []) id
      ≡ (if row.assessment.claim_id == id then some row else last_row rows id)
unfolding last_row
last_row-append [] row id = ground arith
last_row-append (r ∷ rows) row id = ground (arith, last_row-append rows row id)

find_row-append :
    (rows : List AssessmentRow) (row : AssessmentRow)
    → exists (λ r. r.id == row.id) rows ≡ false
    → find_row (rows ++ row ∷ []) row.id ≡ some row
unfolding find_row
find_row-append [] row h = rw (eq_refl row.id) refl
find_row-append (r ∷ rows) row h = ground (arith, find_row-append rows row)

pub same_texts_iff : (xs ys : List String) → same_texts xs ys ≡ true → xs ≡ ys
unfolding same_texts
same_texts_iff [] [] h = refl
same_texts_iff [] (y ∷ ys) h = cc
same_texts_iff (x ∷ xs) [] h = cc
same_texts_iff (x ∷ xs) (y ∷ ys) h = ground (arith, string_eq.beq_iff x y, same_texts_iff xs ys)

same_texts_refl : (xs : List String) → same_texts xs xs ≡ true
unfolding same_texts
same_texts_refl [] = refl
same_texts_refl (x ∷ xs) = rw (eq_refl x, same_texts_refl xs) refl

disagreement_self : (a : Assessment) → disagreement a a ≡ ""
unfolding disagreement
disagreement_self a =
    rw
      (
        (assessment_state_eq.beq_iff a.state a.state).1 refl,
        (nat_beq_iff a.supporting_bases a.supporting_bases).1 refl,
        (nat_beq_iff a.contradicting_bases a.contradicting_bases).1 refl,
        same_texts_refl a.countable_edge_ids,
      )
      refl

-- What a granted assessment says of the store.
abbrev pub Follows : AssessStore → AssessStore → String → Assessment → Type 0
Follows store store' claim_id result =
    ((d : String)
      → current_assessment store' d
        ≡ (if claim_id == d then some result else current_assessment store d))
    × (reassessment_owed store' claim_id ≡ some "")
    × (assessment_history store' claim_id ≡ assessment_history store claim_id ++ result ∷ [])

-- The row that is written.
abbrev row_of : String → String → Bool → Assessment → AssessmentRow
row_of claim_id id horizon result = record {
  id = id;
  assessment = record result { claim_id = claim_id };
  horizon_reached = horizon;
}

same_claim_id :
    (result : Assessment) (claim_id : String)
    → result.claim_id ≡ claim_id
    → record result { claim_id = claim_id } ≡ result
same_claim_id result claim_id e = ap (λ x. record result { claim_id = x }) (sym e)

history-append :
    (rows : List AssessmentRow) (row : AssessmentRow) (id : String)
    → row.assessment.claim_id ≡ id
    → select
        (λ (a : Assessment). a.claim_id == id)
        (map (λ (r : AssessmentRow). r.assessment) (rows ++ row ∷ []))
      ≡ select
          (λ (a : Assessment). a.claim_id == id)
          (map (λ (r : AssessmentRow). r.assessment) rows)
        ++ row.assessment ∷ []
history-append [] row id e = ground (arith, string_eq.beq_iff row.assessment.claim_id id)
history-append (r ∷ rows) row id e = ground (arith, history-append rows row id e)

pub last_row-owed :
    (store : AssessStore) (claim_id : String) (row : AssessmentRow)
    → last_row store.assessments claim_id ≡ some row
    → reassessment_owed store claim_id ≡ owed_by store claim_id row
unfolding reassessment_owed
last_row-owed store claim_id row h = rw (h, reassessment_owed) refl

owed_by_lem :
    (store : AssessStore) (claim_id : String) (row : AssessmentRow) (inputs : EvidenceInput)
    → row.assessment.policy_version ≡ current_policy_version
    → find_row store.assessments row.id ≡ some row
    → evidence_input store claim_id row.horizon_reached ≡ some inputs
    → owed_by store claim_id row
      ≡ some (disagreement (assess inputs row.assessment.policy_version) row.assessment)
unfolding owed_by
owed_by_lem store claim_id row inputs current found gives =
    rw
      (
        (string_eq.beq_iff row.assessment.policy_version current_policy_version).1 current,
        found,
        gives,
        owed_by,
      )
      refl

evidence_input_lem :
    (store : AssessStore) (claim_id : String) (horizon : Bool) (claim : Claim)
    → load_claim store.edges.claims claim_id ≡ some claim
    → evidence_input store claim_id horizon ≡ some (inputs_of store claim_id claim horizon)
unfolding evidence_input
evidence_input_lem store claim_id horizon claim there = rw (there, evidence_input) refl

abbrev made_of : AssessStore → String → Bool → Claim → Assessment
made_of store claim_id horizon claim =
    assess (inputs_of store claim_id claim horizon) current_policy_version

abbrev stored_of : AssessStore → String → String → Bool → Claim → AssessStore
stored_of store claim_id id horizon claim =
    record_assessment store claim_id id horizon (made_of store claim_id horizon claim)

module _ (store : AssessStore) (claim_id id : String) (horizon : Bool) (claim : Claim)
    (there : load_claim store.edges.claims claim_id ≡ some claim)
    (free : exists (λ (row : AssessmentRow). row.id == id) store.assessments ≡ false) where
  abbrev made : Assessment
  made = made_of store claim_id horizon claim

  abbrev stored : AssessStore
  stored = stored_of store claim_id id horizon claim

  made_claim : made.claim_id ≡ claim_id
  unfolding inputs_of
  made_claim =
      assess-claim_id (inputs_of store claim_id claim horizon) current_policy_version
      ∙ load_claim-id store.edges.claims claim_id there

  stored-last_row :
      (d : String)
      → last_row stored.assessments d ≡ (
          if claim_id == d
          then some (row_of claim_id id horizon made)
          else last_row store.assessments d)
  unfolding record_assessment
  stored-last_row d = last_row-append store.assessments (row_of claim_id id horizon made) d

  stored-current :
      (d : String)
      → current_assessment stored d
        ≡ (if claim_id == d then some made else current_assessment store d)
  unfolding current_assessment
  stored-current d = elim (Bool-cases (claim_id == d)) [
    | inl same ↦
        rw (stored-last_row d, same, same_claim_id made claim_id made_claim, current_assessment)
          refl
    | inr other ↦ rw (stored-last_row d, other, current_assessment) refl
  ]

  stored-evidence_input :
      evidence_input stored claim_id horizon ≡ some (inputs_of store claim_id claim horizon)
  unfolding record_assessment inputs_of load_tasks
  stored-evidence_input = evidence_input_lem stored claim_id horizon claim there

  stored-owed : reassessment_owed stored claim_id ≡ some ""
  unfolding record_assessment assess
  stored-owed =
      last_row-owed stored claim_id (row_of claim_id id horizon made)
        (stored-last_row claim_id ∙ rw (eq_refl claim_id) refl)
      ∙ owed_by_lem stored claim_id (row_of claim_id id horizon made)
          (inputs_of store claim_id claim horizon)
          (assess-policy_version (inputs_of store claim_id claim horizon) current_policy_version)
          (find_row-append store.assessments (row_of claim_id id horizon made) free)
          stored-evidence_input
      ∙ ap some (
          ap (λ a. disagreement made a) (same_claim_id made claim_id made_claim)
          ∙ disagreement_self made)

  stored-Follows : Follows store stored claim_id made
  unfolding assessment_history record_assessment
  stored-Follows = (
    stored-current,
    stored-owed,
    history-append store.assessments (row_of claim_id id horizon made) claim_id refl
        ∙ ap (λ a. assessment_history store claim_id ++ a ∷ [])
            (same_claim_id made claim_id made_claim),
  )

-- What the assessment leaves behind, where it returns.
abbrev Leaves : AssessStore → String → AssessStore × Assessed → Type 0
Leaves store claim_id (store', Assessed.assessed result) = Follows store store' claim_id result
Leaves store claim_id (store', Assessed.key_error key) = Unit
Leaves store claim_id (store', Assessed.integrity_error) = Unit

assess_claim-Leaves :
    (store : AssessStore) (claim_id id : String) (horizon : Bool)
    → Leaves store claim_id (assess_claim store claim_id id horizon current_policy_version)
unfolding assess_claim evidence_input
assess_claim-Leaves store claim_id id horizon =
    elim (Option-cases (load_claim store.edges.claims claim_id)) [
      | inl missing ↦ back (store, Assessed.key_error claim_id) (rw (missing, assess_claim) refl) tt
      | inr (claim, there) ↦
          elim (Bool-cases (exists (λ (row : AssessmentRow). row.id == id) store.assessments)) [
            | inl taken ↦
                back (store, Assessed.integrity_error) (rw (there, taken, assess_claim) refl) tt
            | inr free ↦
                back
                  (
                    stored_of store claim_id id horizon claim,
                    Assessed.assessed (made_of store claim_id horizon claim),
                  )
                  (rw (there, free, assess_claim) refl)
                  (stored-Follows store claim_id id horizon claim there free)
          ]
    ]
  where
    back :
        (made : AssessStore × Assessed)
        → assess_claim store claim_id id horizon current_policy_version ≡ made
        → Leaves store claim_id made
        → Leaves store claim_id (assess_claim store claim_id id horizon current_policy_version)
    back made same h = subst (Leaves store claim_id) (sym same) h

-- An assessment that returns, under the current policy, is from then on the current one of its claim, the last of
-- its history, and follows from the evidence; that of another claim stays as it was.
pub assess_claim-Follows :
    (store store' : AssessStore) (claim_id id : String) (horizon : Bool) (result : Assessment)
    → assess_claim store claim_id id horizon current_policy_version
      ≡ (store', Assessed.assessed result)
    → Follows store store' claim_id result
assess_claim-Follows store store' claim_id id horizon result h =
    subst (Leaves store claim_id) h (assess_claim-Leaves store claim_id id horizon)
