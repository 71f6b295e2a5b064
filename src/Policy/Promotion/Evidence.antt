-- ===== src/Policy/Promotion/Evidence.antt =====
-- Which edges an assessment rests on.
use new_z.Prelude.{
  ◌≡◌, ◌↔◌, ◌≤◌, refl, sym, ap, ◌∙◌, Bool, true, false, ◌&&◌, List, [], ◌∷◌, map, arith, String,
  ◌==◌, string_eq, is_filled, exists, select, sort_by, text_lt, get, contains, select-insert_by,
  exists-sort_by, inl, inr, Bool-cases, eq_refl,
}
use new_z.Domain.Evidence.{EdgeRelation, relation_eq}
use new_z.Domain.Records.{EdgeEvent}
use new_z.Policy.Rules.{is_countable_relation}
use new_z.Policy.Independence.{is_resolved}
use new_z.Policy.Independence.Counting.{count-pos}
use new_z.Policy.Admission.{evaluate_edge}
use new_z.Policy.Admission.Laws.{admitted-Qualifies}
use new_z.Policy.Promotion.Outcomes.{side-filled}
use new_z.Policy.Promotion.{EvidenceInput, countable, side, count_side, conclude, assess}

-- What the guards of the loop over the edges ask of one.
abbrev pub is_admitted : EvidenceInput → EdgeEvent → Bool
is_admitted i edge =
    (evaluate_edge edge i.claim (get i.assertions edge.assertion_id)
      (get i.bases edge.basis_id)).admitted

abbrev pub counts : EvidenceInput → EdgeEvent → Bool
counts i edge = is_countable_relation edge.relation && is_admitted i edge

abbrev pub with_edge : EvidenceInput → EdgeEvent → EvidenceInput
with_edge i edge = record i { edges = edge ∷ i.edges }

countable-with_edge :
    (i : EvidenceInput) (edge : EdgeEvent)
    → counts i edge ≡ false
    → countable (with_edge i edge) ≡ countable i
unfolding countable
countable-with_edge i edge h =
    select-insert_by (λ (e f : EdgeEvent). text_lt e.id f.id) (counts i) edge
      (sort_by (λ (e f : EdgeEvent). text_lt e.id f.id) i.edges) h

-- An edge that is refused, or whose relation does not count, changes nothing of the assessment.
pub assess-with_edge :
    (i : EvidenceInput) (edge : EdgeEvent) (v : String)
    → counts i edge ≡ false
    → assess (with_edge i edge) v ≡ assess i v
unfolding assess conclude count_side side
assess-with_edge i edge v h = rw (countable-with_edge i edge h)

resolved_of_admitted :
    (i : EvidenceInput) (edge : EdgeEvent)
    → is_admitted i edge ≡ true
    → is_resolved i.bases edge.basis_id ≡ true
unfolding is_resolved
resolved_of_admitted i edge h =
    let q =
      admitted-Qualifies edge i.claim (get i.assertions edge.assertion_id)
        (get i.bases edge.basis_id) h in
    rw (q.traced, is_resolved) q.resolved

-- The edges of a list that are admitted and have the relation.
abbrev pub in_direction : EvidenceInput → EdgeRelation → EdgeEvent → Bool
in_direction i r edge = edge.relation == r && counts i edge

select-select :
    (p q : EdgeEvent → Bool) (es : List EdgeEvent)
    → select p (select q es) ≡ select (λ e. p e && q e) es
select-select p q [] = refl
select-select p q (e ∷ es) = ground (arith, select-select p q es)

is_filled-select :
    (p : EdgeEvent → Bool) (es : List EdgeEvent) → is_filled (select p es) ≡ exists p es
is_filled-select p [] = refl
is_filled-select p (e ∷ es) = ground (arith, is_filled-select p es)

side_lem :
    (i : EvidenceInput) (r : EdgeRelation)
    → side r i
      ≡ select (in_direction i r) (sort_by (λ (e f : EdgeEvent). text_lt e.id f.id) i.edges)
unfolding side countable
side_lem i r =
    select-select (λ (e : EdgeEvent). e.relation == r) (counts i)
      (sort_by (λ (e f : EdgeEvent). text_lt e.id f.id) i.edges)

-- The first selected edge: it passes the test, and its basis is named.
first_selected :
    (p : EdgeEvent → Bool) (es : List EdgeEvent)
    → is_filled (select p es) ≡ true
    → (e : EdgeEvent) × (p e ≡ true)
      × (contains (map (λ (f : EdgeEvent). f.basis_id) (select p es)) e.basis_id ≡ true)
first_selected p [] h = cc
first_selected p (e ∷ es) h = elim (Bool-cases (p e)) [
  | inl k ↦ (e, k, rw (k, eq_refl e.basis_id) refl)
  | inr k ↦ rw k (first_selected p es (ground arith))
]

count-pos_of_side :
    (i : EvidenceInput) (r : EdgeRelation) → is_filled (side r i) ≡ true → 1 ≤ (count_side r i).0
unfolding count_side
count-pos_of_side i r h =
    let sorted = sort_by (λ (e f : EdgeEvent). text_lt e.id f.id) i.edges in
    let (e, c, m) =
      first_selected (in_direction i r) sorted (ap is_filled (sym (side_lem i r)) ∙ h) in
    rw (side_lem i r) (
      count-pos (map (λ (f : EdgeEvent). f.basis_id) (select (in_direction i r) sorted)) i.bases
        i.independence e.basis_id (rw (m, resolved_of_admitted i e (ground arith)) refl))

side-filled_iff :
    (i : EvidenceInput) (r : EdgeRelation)
    → is_filled (side r i) ≡ exists (in_direction i r) i.edges
side-filled_iff i r =
    ap is_filled (side_lem i r)
    ∙ is_filled-select (in_direction i r) (sort_by (λ (e f : EdgeEvent). text_lt e.id f.id) i.edges)
    ∙ exists-sort_by (λ (e f : EdgeEvent). text_lt e.id f.id) (in_direction i r) i.edges

count_side-pos_iff :
    (i : EvidenceInput) (r : EdgeRelation)
    → (1 ≤ (count_side r i).0) ↔ (exists (in_direction i r) i.edges ≡ true)
count_side-pos_iff i r = (
  λ h. sym (side-filled_iff i r) ∙ side-filled r i h,
  λ h. count-pos_of_side i r (side-filled_iff i r ∙ h),
)

-- An independent basis counts for the claim exactly if some edge that supports it is admitted, and
-- against it exactly if some edge that contradicts it is.
pub assess-counts_iff :
    (i : EvidenceInput) (v : String)
    → ((1 ≤ (assess i v).supporting_bases)
        ↔ (exists (in_direction i EdgeRelation.supports) i.edges ≡ true))
      × ((1 ≤ (assess i v).contradicting_bases)
          ↔ (exists (in_direction i EdgeRelation.contradicts) i.edges ≡ true))
unfolding assess
assess-counts_iff i v =
    (count_side-pos_iff i EdgeRelation.supports, count_side-pos_iff i EdgeRelation.contradicts)
