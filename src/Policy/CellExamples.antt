-- ===== src/Policy/CellExamples.antt =====
-- newz/policy, runs of the rules, the matrix and the risk classifier.
use new_z.Prelude.{◌≡◌, refl, true, not, some, string_eq, is_some}
use new_z.Domain.Evidence.{SourceRole, ClaimKind, AssertionKind, EdgeRelation, relation_eq, risk_eq}
use new_z.Policy.Rules.{Cell, Verdict, rules, decide, is_countable_relation}
use new_z.Policy.Rules.Table.{in_table, decide-eq-in_table}
use new_z.Policy.Rules.Laws.{obeys_spec, decide-obeys_spec}
use new_z.Policy.Rules.{decide_by, role_capability}
use new_z.Prelude.{string_eq}

abbrev inferred : Cell
inferred = record {
  role = SourceRole.primary_record;
  claim_kind = ClaimKind.event_or_observation;
  assertion_kind = AssertionKind.inference;
  relation = EdgeRelation.supports;
}

abbrev documented : Cell
documented = record inferred { assertion_kind = AssertionKind.documented_event }

verdict_runs :
    (v : Verdict) × (w : Verdict) × (decide inferred ≡ some v)
    × (decide documented ≡ some w)
    × (w.admitted ≡ true)
    × (is_countable_relation documented.relation ≡ true)
unfolding decide decide_by rules role_capability is_countable_relation
verdict_runs = (_, _, refl, refl, refl, refl)

decide-eq-in_table_example :
    (v : Verdict) × (decide inferred ≡ some v)
    × (v.admitted ≡ in_table inferred)
    × (v.admitted ≡ not (is_some v.reason))
decide-eq-in_table_example = decide-eq-in_table inferred

decide-obeys_spec_example : obeys_spec documented ≡ true
decide-obeys_spec_example =
    let (_, _, _, found, admitted, relation) = verdict_runs in
    decide-obeys_spec documented found admitted relation
