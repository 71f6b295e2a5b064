-- ===== src/Policy/Examples.antt =====
-- newz/policy, runs on the samples: edges, bases, lanes, assessments and presentations.
use new_z.Prelude.{
  ◌≡◌, ◌≢◌, ◌↔◌, ◌≤◌, inr, refl, true, false, some, [], ◌∷◌, arith, string_eq, every, exists,
  is_filled, length, ◌∙◌,
}
use new_z.Domain.Evidence.{EdgeRelation, AssessmentState, RiskTier, relation_eq, risk_eq}
use new_z.Domain.Work.{EvidenceLane}
use new_z.Policy.Rules.{rules, decide, is_countable_relation}
use new_z.Policy.Matrix.{lookup, permits}
use new_z.Policy.Risk.{rank}
use new_z.Policy.Independence.{
  is_resolved, is_justified, sorted_ids, count_independent_bases, justification_holds,
}
use new_z.Policy.Independence.Forest.{Represents, find_lem, level-lt_fuel, start-Represents}
use new_z.Policy.Independence.Links.{Linked}
use new_z.Policy.Independence.Counting.{together, count_independent_bases-Linked}
use new_z.Policy.Admission.{evaluate_edge}
use new_z.Policy.Admission.Laws.{Qualifies, admitted-Qualifies}
use new_z.Policy.LaneStatus.{lane_status, lane_statuses}
use new_z.Policy.LaneStatus.Laws.{LaneSays, in_lane, lane_status-LaneSays}
use new_z.Policy.Promotion.{
  assess, side, settles_alone, conclude, count_side, countable, effective_risk, meets_threshold,
  groups_with, ladder, conclude_empty,
}
use new_z.Policy.Matrix.{matrix, entry_of, by_id}
use new_z.Policy.Cells.{all_cells}
use new_z.Policy.Admission.{
  refusal, is_live, has_span, spans_of, is_verified, not_quarantined, role_of, kind_of, attest, att,
  has_basis, is_versioned, matrix_reason,
}
use new_z.Policy.Rules.{decide_by, role_capability, strong_provenance_roles}
use new_z.Policy.Risk.{maximum}
use new_z.Policy.LaneStatus.{status_of, absence_recorded}
use new_z.Policy.Lanes.{required}
use new_z.Domain.Work.{lane_value}
use new_z.Prelude.{text_lt, string_eq}
use new_z.Policy.Independence.{
  judge, groups_of, group_ids, append_to, find, union, union_all, union_row, tuple_lt,
}
use new_z.Policy.Promotion.Symmetry.{flip_edges, assess-flip}
use new_z.Policy.Promotion.Outcomes.{
  assess-supported_iff, assess-contested_iff, assess-indeterminate_iff, assess-unjustified, risk_at,
}
use new_z.Policy.Promotion.Evidence.{
  with_edge, counts, in_direction, assess-with_edge, assess-counts_iff,
}
use new_z.Policy.Samples.{
  recorded, event_claim, basis, edge_from, apart, two_bases, two_ids, two_supports, searches,
  supported_input, contested_input, searched_input, unjustified_input,
}

supported_run :
    ((assess supported_input "1.0.0").supporting_bases ≡ 2)
    × ((assess supported_input "1.0.0").contradicting_bases ≡ 0)
    × (length (count_side EdgeRelation.supports supported_input).1 ≡ 2)
    × (groups_with strong_provenance_roles
          (side EdgeRelation.supports supported_input)
          (count_side EdgeRelation.supports supported_input).1
        ≡ 2)
    × (risk_at supported_input ≡ RiskTier.r1)
unfolding assess conclude count_side countable side count_independent_bases sorted_ids is_justified
    is_resolved judge justification_holds groups_of group_ids append_to find union union_all
    union_row tuple_lt text_lt is_countable_relation evaluate_edge refusal is_live has_span spans_of
    is_verified not_quarantined permits lookup matrix role_of kind_of attest att has_basis
    is_versioned matrix_reason all_cells entry_of by_id decide decide_by role_capability rules
    settles_alone effective_risk maximum rank meets_threshold groups_with ladder conclude_empty
    lane_statuses lane_status status_of required absence_recorded lane_value
supported_run = (refl, refl, refl, refl, refl)

other_runs :
    ((assess contested_input "1.0.0").supporting_bases ≡ 1)
    × ((assess contested_input "1.0.0").contradicting_bases ≡ 1)
    × ((assess searched_input "1.0.0").supporting_bases ≡ 0)
    × ((assess searched_input "1.0.0").contradicting_bases ≡ 0)
    × ((assess searched_input "1.0.0").blocked_lanes ≡ [])
    × (is_filled (lane_statuses event_claim searches) ≡ true)
    × (every (λ s. s.settled_competent) (lane_statuses event_claim searches) ≡ true)
unfolding assess conclude count_side countable side count_independent_bases sorted_ids is_justified
    is_resolved judge justification_holds groups_of group_ids append_to find union union_all
    union_row tuple_lt text_lt is_countable_relation evaluate_edge refusal is_live has_span spans_of
    is_verified not_quarantined permits lookup matrix role_of kind_of attest att has_basis
    is_versioned matrix_reason all_cells entry_of by_id decide decide_by role_capability rules
    settles_alone effective_risk maximum rank meets_threshold groups_with ladder conclude_empty
    lane_statuses lane_status status_of required absence_recorded lane_value
other_runs = (refl, refl, refl, refl, refl, refl, refl)

predicate_runs :
    (settles_alone event_claim (side EdgeRelation.supports unjustified_input) ≡ false)
    × (counts unjustified_input (edge_from "e-3" EdgeRelation.contextualizes "b-1") ≡ false)
    × (exists (in_direction supported_input EdgeRelation.supports) two_supports ≡ true)
    × ((evaluate_edge
          (edge_from "e-1" EdgeRelation.supports "b-1")
          event_claim
          (some recorded)
          (some (basis "b-1"))).admitted
        ≡ true)
    × (is_justified two_bases (apart ∷ []) "b-1" "b-2" ≡ true)
    × (is_justified two_bases (apart ∷ []) "b-2" "b-1" ≡ true)
unfolding assess conclude count_side countable side count_independent_bases sorted_ids is_justified
    is_resolved judge justification_holds groups_of group_ids append_to find union union_all
    union_row tuple_lt text_lt is_countable_relation evaluate_edge refusal is_live has_span spans_of
    is_verified not_quarantined permits lookup matrix role_of kind_of attest att has_basis
    is_versioned matrix_reason all_cells entry_of by_id decide decide_by role_capability rules
    settles_alone effective_risk maximum rank meets_threshold groups_with ladder conclude_empty
    lane_statuses lane_status status_of required absence_recorded lane_value
predicate_runs = (refl, refl, refl, refl, refl, refl)

-- Two records that a justification tells apart support the claim.
assess-supported_iff_example : (assess supported_input "1.0.0").state ≡ AssessmentState.supported
assess-supported_iff_example =
    let (pro, con, groups, strong, risk) = supported_run in
    (assess-supported_iff supported_input "1.0.0").1
      (refl, omega (arith, pro), con, inr (omega (arith, groups), rw risk (omega (arith, strong))))

assess-contested_iff_example : (assess contested_input "1.0.0").state ≡ AssessmentState.contested
assess-contested_iff_example =
    let (pro, con, _, _, _, _, _) = other_runs in
    (assess-contested_iff contested_input "1.0.0").1 (refl, omega (arith, pro), omega (arith, con))

assess-indeterminate_iff_example :
    (assess searched_input "1.0.0").state ≡ AssessmentState.indeterminate
assess-indeterminate_iff_example =
    let (_, _, pro, con, blocked, listed, settled) = other_runs in
    (assess-indeterminate_iff searched_input "1.0.0").1 (refl, pro, con, blocked, listed, settled)

assess-unjustified_example : (assess unjustified_input "1.0.0").state ≢ AssessmentState.supported
unfolding is_justified
assess-unjustified_example =
    assess-unjustified unjustified_input "1.0.0" (λ x y. refl) predicate_runs.0

assess-with_edge_example :
    assess (with_edge unjustified_input (edge_from "e-3" EdgeRelation.contextualizes "b-1")) "1.0.0"
    ≡ assess unjustified_input "1.0.0"
assess-with_edge_example =
    assess-with_edge unjustified_input (edge_from "e-3" EdgeRelation.contextualizes "b-1") "1.0.0"
      predicate_runs.1

assess-counts_iff_example : 1 ≤ (assess supported_input "1.0.0").supporting_bases
assess-counts_iff_example = (assess-counts_iff supported_input "1.0.0").0.1 predicate_runs.2

assess-flip_example : (assess (flip_edges supported_input) "1.0.0").contradicting_bases ≡ 2
assess-flip_example = (assess-flip supported_input "1.0.0").2 ∙ supported_run.0

admitted-Qualifies_example :
    Qualifies
      (edge_from "e-1" EdgeRelation.supports "b-1")
      event_claim
      (some recorded)
      (some (basis "b-1"))
admitted-Qualifies_example =
    admitted-Qualifies (edge_from "e-1" EdgeRelation.supports "b-1") event_claim (some recorded)
      (some (basis "b-1")) predicate_runs.3

lane_status-LaneSays_example :
    LaneSays
      (lane_status EvidenceLane.primary_record searches)
      (in_lane EvidenceLane.primary_record searches)
lane_status-LaneSays_example = lane_status-LaneSays EvidenceLane.primary_record searches

count_independent_bases-Linked_example :
    ((together (count_independent_bases ("b-1" ∷ "b-2" ∷ []) two_bases []).1 "b-1" "b-2" ≡ true)
      ↔ Linked (sorted_ids ("b-1" ∷ "b-2" ∷ []) two_bases) (is_justified two_bases []) "b-1" "b-2")
    × ((count_independent_bases ("b-1" ∷ "b-2" ∷ []) two_bases []).0
        ≡ length (count_independent_bases ("b-1" ∷ "b-2" ∷ []) two_bases []).1)
unfolding is_resolved
count_independent_bases-Linked_example =
    count_independent_bases-Linked ("b-1" ∷ "b-2" ∷ []) two_bases [] "b-1" "b-2" refl refl

find_lem_example :
    Represents two_ids (find 3 (λ b. b) "b-2").0 (λ b. b) × ((find 3 (λ b. b) "b-2").1 ≡ "b-2")
find_lem_example = find_lem 3 "b-2" (start-Represents two_ids) refl (level-lt_fuel two_ids "b-2")
