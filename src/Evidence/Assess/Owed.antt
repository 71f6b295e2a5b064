-- ===== src/Evidence/Assess/Owed.antt =====
-- When a claim owes a reassessment: what a withdrawal makes of its assessment.
use new_z.Prelude.{
  ◌≡◌, ◌≢◌, ◌⊎◌, refl, sym, ap, ◌∙◌, arith, Bool, true, false, not, ◌&&◌, Option, none, some, List,
  [], ◌∷◌, map, String, ◌==◌, string_eq, if◌then◌else◌, text_lt, nat_beq, exists, select, sort_by,
  contains, exists-sort_by, eq_refl, Bool-cases, Option-cases, inl, inr, is_text, is_text-append,
  decimal,
}
use new_z.Domain.Evidence.{assessment_state_eq, assessment_state_value}
use new_z.Domain.Records.{Assessment, EdgeEvent}
use new_z.Domain.Version.{current_policy_version}
use new_z.Policy.Promotion.{EvidenceInput, countable, assess, ◌⧺◌}
use new_z.Evidence.Edges.{EdgeStore, load_claim, load_edges, withdraw_edge}
use new_z.Evidence.Edges.Laws.{withdraw_edge-load_edges}
use new_z.Evidence.Assess.Laws.{same_texts_iff, last_row-owed}
use new_z.Evidence.Assess.{
  AssessmentRow, AssessStore, inputs_of, evidence_input, last_row, find_row, current_assessment,
  same_texts, disagreement, owed_by, reassessment_owed,
}

message-ne-empty : (s t : String) {u : String} → is_text s ≡ true → u ≡ s ⧺ t → u ≢ ""
message-ne-empty s t h e k = cc (is_text-append s t h)

-- What agrees rests on the same edges.
disagreement-same :
    (again stored : Assessment)
    → disagreement again stored ≡ ""
    → again.countable_edge_ids ≡ stored.countable_edge_ids
unfolding disagreement
disagreement-same again stored h = elim (Bool-cases (again.state == stored.state)) [
  | inr moved ↦ absurd (
      message-ne-empty "the evidence now reads "
        (assessment_state_value again.state
          ⧺ ", the assessment says "
          ⧺ assessment_state_value stored.state)
        refl (rw moved refl) h)
  | inl state ↦
      elim (Bool-cases (
        nat_beq again.supporting_bases stored.supporting_bases
        && nat_beq again.contradicting_bases stored.contradicting_bases)) [
          | inr moved ↦ absurd (
              message-ne-empty "the independent bases moved from "
                (decimal stored.supporting_bases
                  ⧺ "/"
                  ⧺ decimal stored.contradicting_bases
                  ⧺ " to "
                  ⧺ decimal again.supporting_bases
                  ⧺ "/"
                  ⧺ decimal again.contradicting_bases)
                refl (rw (state, moved) refl) h)
          | inl bases ↦
              elim (Bool-cases (same_texts again.countable_edge_ids stored.countable_edge_ids)) [
                | inl same ↦ same_texts_iff again.countable_edge_ids stored.countable_edge_ids same
                | inr other ↦ absurd (nonempty refl (rw (state, bases, other) at h))
              ]
        ]
]
  where
    nonempty : {s : String} → is_text s ≡ true → s ≢ ""
    nonempty h k = cc (ap is_text k)

-- No two rows share an id, as the table's primary key has it.
abbrev pub IsKeyed : List AssessmentRow → Type 0
IsKeyed [] = Unit
IsKeyed (row ∷ rows) = (exists (λ r. r.id == row.id) rows ≡ false) × IsKeyed rows

last_row-cases :
    (r : AssessmentRow) (rows : List AssessmentRow) (claim_id : String) {row : AssessmentRow}
    → last_row (r ∷ rows) claim_id ≡ some row
    → (last_row rows claim_id ≡ some row) ⊎ (r ≡ row)
unfolding last_row
last_row-cases r rows claim_id h = elim (Option-cases (last_row rows claim_id)) [
  | inl last ↦ elim (Bool-cases (r.assessment.claim_id == claim_id)) [
    | inl mine ↦ inr (cc (rw (last, mine) at h))
    | inr other ↦ inl (cc (rw (last, other) at h))
  ]
  | inr (later, found) ↦ inl (found ∙ (rw found at h))
]

last_row-exists :
    (rows : List AssessmentRow) (claim_id : String) {row : AssessmentRow}
    → last_row rows claim_id ≡ some row
    → exists (λ r. r.id == row.id) rows ≡ true
unfolding last_row
last_row-exists [] claim_id h = cc
last_row-exists (r ∷ rows) claim_id {row} h = elim (last_row-cases r rows claim_id h) [
  | inl later ↦ ground (arith, last_row-exists rows claim_id later)
  | inr same ↦ rw same (rw (eq_refl row.id) refl)
]

last_row-find_row :
    (rows : List AssessmentRow) (claim_id : String) {row : AssessmentRow}
    → IsKeyed rows
    → last_row rows claim_id ≡ some row
    → find_row rows row.id ≡ some row
unfolding find_row last_row
last_row-find_row [] claim_id k h = cc
last_row-find_row (r ∷ rows) claim_id {row} (fresh, k) h = elim (last_row-cases r rows claim_id h) [
  | inl later ↦ elim (Bool-cases (r.id == row.id)) [
    | inl same ↦
        absurd
          (apart ((string_eq.beq_iff r.id row.id).0 same) (last_row-exists rows claim_id later))
    | inr other ↦ rw other (last_row-find_row rows claim_id k later)
  ]
  | inr same ↦
      ap (λ (x : AssessmentRow). if r.id == x.id then some r else find_row rows x.id) (sym same)
      ∙ rw (eq_refl r.id) (ap some same)
]
  where
    apart : r.id ≡ row.id → exists (λ x. x.id == row.id) rows ≡ true → ⊥
    apart same there = cc (ap (λ i. exists (λ x. x.id == i) rows) same, fresh, there)

exists_of_countable :
    (inputs : EvidenceInput) (id : String)
    → contains (map (λ (e : EdgeEvent). e.id) (countable inputs)) id ≡ true
    → exists (λ e. e.id == id) inputs.edges ≡ true
unfolding countable
exists_of_countable inputs id h =
    sym (exists-sort_by (λ (e f : EdgeEvent). text_lt e.id f.id) (λ e. e.id == id) inputs.edges)
    ∙ kept _ (sort_by (λ (e f : EdgeEvent). text_lt e.id f.id) inputs.edges) h
  where
    kept :
        (p : EdgeEvent → Bool) (es : List EdgeEvent)
        → contains (map (λ (e : EdgeEvent). e.id) (select p es)) id ≡ true
        → exists (λ e. e.id == id) es ≡ true
    kept p [] k = cc
    kept p (e ∷ es) k = ground (arith, kept p es)

assess-countable :
    (inputs : EvidenceInput) (v : String)
    → (assess inputs v).countable_edge_ids ≡ map (λ e. e.id) (countable inputs)
unfolding assess
assess-countable inputs v = refl

exists-withdrawn :
    (store store' : EdgeStore) (edge_id reason claim_id : String)
    → withdraw_edge store edge_id reason ≡ some store'
    → exists (λ e. e.id == edge_id) (load_edges store' claim_id) ≡ false
exists-withdrawn store store' edge_id reason claim_id h =
    withdraw_edge-load_edges (λ e. e.id == edge_id) store store' edge_id reason claim_id h
    ∙ none_left (load_edges store claim_id)
  where
    none_left :
        (es : List EdgeEvent) → exists (λ e. not (e.id == edge_id) && e.id == edge_id) es ≡ false
    none_left [] = refl
    none_left (e ∷ es) = ground (arith, none_left es)

owed_by-same :
    (store : AssessStore) (claim_id : String) (row : AssessmentRow)
    → find_row store.assessments row.id ≡ some row
    → owed_by store claim_id row ≡ some ""
    → (inputs : EvidenceInput) × (evidence_input store claim_id row.horizon_reached ≡ some inputs)
      × (map (λ e. e.id) (countable inputs) ≡ row.assessment.countable_edge_ids)
unfolding owed_by
owed_by-same store claim_id row found h =
    elim (Bool-cases (row.assessment.policy_version == current_policy_version)) [
      | inr old ↦ absurd (superseded (rw old at h))
      | inl current ↦ elim (Option-cases (evidence_input store claim_id row.horizon_reached)) [
        | inl missing ↦ absurd (no_claim (rw (current, found, missing, owed_by) at h))
        | inr (inputs, given) ↦ (
          inputs,
          given,
          sym (assess-countable inputs row.assessment.policy_version)
              ∙ disagreement-same (assess inputs row.assessment.policy_version) row.assessment
                  (some_inj (rw (current, found, given, owed_by) at h)),
        )
      ]
    ]
  where
    some_inj : {s t : String} → some s ≡ some t → s ≡ t
    some_inj k = cc

    no_claim : {s : String} → none ≡ some s → ⊥
    no_claim k = cc

    superseded :
        ◌≡◌ {A = Option String}
          (some ("derived under superseded policy " ⧺ row.assessment.policy_version))
          (some "")
        → ⊥
    superseded k =
        message-ne-empty "derived under superseded policy " row.assessment.policy_version refl refl
          (some_inj k)

evidence_input-edges :
    (store : AssessStore) (claim_id : String) (horizon : Bool) (inputs : EvidenceInput)
    → evidence_input store claim_id horizon ≡ some inputs
    → inputs.edges ≡ load_edges store.edges claim_id
unfolding evidence_input inputs_of
evidence_input-edges store claim_id horizon inputs h =
    elim (Option-cases (load_claim store.edges.claims claim_id)) [
      | inl missing ↦ none_given (rw (missing, evidence_input) at h)
      | inr (claim, there) ↦ sym (edges_eq (rw (there, evidence_input) at h))
    ]
  where
    none_given : none ≡ some inputs → inputs.edges ≡ load_edges store.edges claim_id
    none_given k = cc

    edges_eq : {x : EvidenceInput} → some x ≡ some inputs → x.edges ≡ inputs.edges
    edges_eq k = cc

-- Where no two assessments share an id, after the withdrawal of an edge that the current assessment
-- of a claim rests on, in either direction, the claim owes a reassessment, or the KeyError of a claim
-- that is not there is raised.
pub withdraw_edge-reassessment_owed :
    (store : AssessStore) (edges' : EdgeStore) (claim_id edge_id reason : String)
    (held : Assessment)
    → IsKeyed store.assessments
    → current_assessment store claim_id ≡ some held
    → contains held.countable_edge_ids edge_id ≡ true
    → withdraw_edge store.edges edge_id reason ≡ some edges'
    → reassessment_owed (record store { edges = edges' }) claim_id ≢ some ""
unfolding current_assessment
withdraw_edge-reassessment_owed store edges' claim_id edge_id reason held keyed current rests h
      owed =
    elim (Option-cases (last_row store.assessments claim_id)) [
      | inl never ↦ not_current (rw (never, current_assessment) at current)
      | inr (row, last) ↦
          let s : AssessStore = record store { edges = edges' } in
          let (inputs, given, same) =
            owed_by-same s claim_id row (last_row-find_row store.assessments claim_id keyed last)
              (sym (last_row-owed s claim_id row last) ∙ owed) in
          let there = exists_of_countable inputs edge_id (
            ap (λ ids. contains ids edge_id)
              (same ∙ ids_of row (rw (last, current_assessment) at current))
            ∙ rests) in
          let gone = exists-withdrawn store.edges edges' edge_id reason claim_id h in
          cc (
            ap (λ es. exists (λ (e : EdgeEvent). e.id == edge_id) es)
                (evidence_input-edges s claim_id row.horizon_reached inputs given),
            there,
            gone,
          )
    ]
  where
    not_current : none ≡ some held → ⊥
    not_current k = cc

    ids_of :
        (row : AssessmentRow)
        → some row.assessment ≡ some held
        → row.assessment.countable_edge_ids ≡ held.countable_edge_ids
    ids_of row k = cc
