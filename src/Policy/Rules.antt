-- ===== src/Policy/Rules.antt =====
-- newz/policy/rules.py: the thirteen capability rules and the loop that applies them in order.
-- A rule's prose description is not modelled.
pub mod Laws
pub mod Table
use new_z.Prelude.{
  Bool, true, false, not, ◌&&◌, ◌||◌, Option, none, some, List, [], ◌∷◌, String, ◌==◌,
  if◌then◌else◌, contains,
}
use new_z.Domain.Evidence.{
  SourceRole, ClaimKind, AssertionKind, EdgeRelation, role_eq, claim_kind_eq, assertion_kind_eq,
  relation_eq,
}
use new_z.Domain.Admission.{RefusalReason}

pub record Cell : Type 0 where
  pub role : SourceRole
  pub claim_kind : ClaimKind
  pub assertion_kind : AssertionKind
  pub relation : EdgeRelation

pub record Verdict : Type 0 where
  pub admitted : Bool
  pub rule_id : String
  pub reason : Option RefusalReason

pub record Rule : Type 0 where
  pub id : String
  pub spec_ref : String
  pub decision_id : Option String
  pub applies : Cell → Option Verdict

abbrev refuse : String → RefusalReason → Option Verdict
refuse rule_id reason = some (record { admitted = false; rule_id = rule_id; reason = some reason })

abbrev admit : String → Option Verdict
admit rule_id = some (record { admitted = true; rule_id = rule_id; reason = none })

abbrev obs : AssertionKind
obs = AssertionKind.observation

abbrev tes : AssertionKind
tes = AssertionKind.testimony

abbrev all : AssertionKind
all = AssertionKind.allegation

abbrev mea : AssertionKind
mea = AssertionKind.measurement

abbrev doc : AssertionKind
doc = AssertionKind.documented_event

-- `ROLE_CAPABILITY.get(role, {}).get(claim_kind, frozenset())`: a missing key is the empty set.
unfoldable pub role_capability : SourceRole → ClaimKind → List AssertionKind
role_capability SourceRole.claimant ClaimKind.attribution = obs ∷ tes ∷ all ∷ mea ∷ doc ∷ []
role_capability SourceRole.firsthand_witness ClaimKind.attribution = obs ∷ tes ∷ all ∷ []
role_capability SourceRole.firsthand_witness ClaimKind.event_or_observation = obs ∷ tes ∷ []
role_capability SourceRole.primary_record ClaimKind.attribution = doc ∷ []
role_capability SourceRole.primary_record ClaimKind.document_existence = doc ∷ []
role_capability SourceRole.primary_record ClaimKind.event_or_observation = obs ∷ mea ∷ doc ∷ []
role_capability SourceRole.primary_record ClaimKind.measurement_or_association = mea ∷ doc ∷ []
role_capability SourceRole.primary_record ClaimKind.capability_or_performance = mea ∷ []
role_capability SourceRole.primary_record ClaimKind.identity_or_wrongdoing_allegation = doc ∷ []
role_capability SourceRole.primary_record ClaimKind.forecast = mea ∷ doc ∷ []
role_capability SourceRole.empirical_study ClaimKind.event_or_observation = obs ∷ mea ∷ []
role_capability SourceRole.empirical_study ClaimKind.measurement_or_association = obs ∷ mea ∷ []
role_capability SourceRole.empirical_study ClaimKind.causal_or_mechanistic = mea ∷ []
role_capability SourceRole.empirical_study ClaimKind.capability_or_performance = mea ∷ []
role_capability SourceRole.empirical_study ClaimKind.forecast = mea ∷ []
role_capability SourceRole.adjudicator ClaimKind.attribution = doc ∷ []
role_capability SourceRole.adjudicator ClaimKind.document_existence = doc ∷ []
role_capability SourceRole.adjudicator ClaimKind.event_or_observation = doc ∷ []
role_capability SourceRole.adjudicator ClaimKind.identity_or_wrongdoing_allegation = doc ∷ []
role_capability SourceRole.adjudicator ClaimKind.forecast = doc ∷ []
role_capability SourceRole.skeptical_investigation ClaimKind.attribution = doc ∷ []
role_capability SourceRole.skeptical_investigation ClaimKind.document_existence = doc ∷ []
role_capability SourceRole.skeptical_investigation ClaimKind.event_or_observation =
    obs ∷ mea ∷ doc ∷ []
role_capability SourceRole.skeptical_investigation ClaimKind.measurement_or_association =
    obs ∷ mea ∷ []
role_capability SourceRole.skeptical_investigation ClaimKind.causal_or_mechanistic = mea ∷ []
role_capability SourceRole.skeptical_investigation ClaimKind.capability_or_performance = mea ∷ []
role_capability SourceRole.skeptical_investigation ClaimKind.forecast = mea ∷ doc ∷ []
role_capability _ _ = []

abbrev pub strong_provenance_roles : List SourceRole
strong_provenance_roles =
    SourceRole.primary_record ∷ SourceRole.empirical_study ∷ SourceRole.adjudicator ∷ []

abbrev pub direct_record_roles : List SourceRole
direct_record_roles = SourceRole.primary_record ∷ SourceRole.adjudicator ∷ []

abbrev pub context_only_roles : List SourceRole
context_only_roles = SourceRole.historical_context ∷ SourceRole.general_context ∷ []

r01 : Cell → Option Verdict
r01 cell = if cell.relation == EdgeRelation.claimant_says then admit "R-01" else none

r02 : Cell → Option Verdict
r02 cell = if cell.relation == EdgeRelation.contextualizes then admit "R-02" else none

r03 : Cell → Option Verdict
r03 cell =
    if cell.claim_kind == ClaimKind.normative_proposition
    then refuse "R-03" RefusalReason.normative_admits_no_evidence
    else none

r04 : Cell → Option Verdict
r04 cell =
    if cell.assertion_kind == AssertionKind.inference
    then refuse "R-04" RefusalReason.inference_is_not_evidence
    else none

r05 : Cell → Option Verdict
r05 cell =
    if cell.assertion_kind == AssertionKind.prediction
    then refuse "R-05" RefusalReason.prediction_is_not_evidence
    else none

r06 : Cell → Option Verdict
r06 cell =
    if cell.assertion_kind == AssertionKind.allegation
      && not (cell.claim_kind == ClaimKind.attribution)
    then refuse "R-06" RefusalReason.allegation_is_not_proof
    else none

r07 : Cell → Option Verdict
r07 cell =
    if cell.role == SourceRole.claimant && not (cell.claim_kind == ClaimKind.attribution)
    then refuse "R-07" RefusalReason.claimant_establishes_attribution_only
    else none

r08 : Cell → Option Verdict
r08 cell =
    if contains context_only_roles cell.role
    then refuse "R-08" RefusalReason.context_role_is_contextual_only
    else none

r09 : Cell → Option Verdict
r09 cell =
    if cell.claim_kind == ClaimKind.capability_or_performance
      && not (cell.assertion_kind == AssertionKind.measurement)
    then refuse "R-09" RefusalReason.filing_is_not_performance
    else none

r10 : Cell → Option Verdict
r10 cell =
    if cell.claim_kind == ClaimKind.identity_or_wrongdoing_allegation
      && not (
          contains direct_record_roles cell.role
          && cell.assertion_kind == AssertionKind.documented_event)
    then refuse "R-10" RefusalReason.wrongdoing_needs_adjudication
    else none

r11 : Cell → Option Verdict
r11 cell =
    if cell.assertion_kind == AssertionKind.testimony
      && not
          (contains (ClaimKind.attribution ∷ ClaimKind.event_or_observation ∷ []) cell.claim_kind)
    then refuse "R-11" RefusalReason.testimony_is_bounded
    else none

r12 : Cell → Option Verdict
unfolding role_capability
r12 cell =
    if contains (role_capability cell.role cell.claim_kind) cell.assertion_kind
    then admit "R-12"
    else none

r13 : Cell → Option Verdict
r13 cell = refuse "R-13" RefusalReason.role_lacks_capability

abbrev rule : String → String → Option String → (Cell → Option Verdict) → Rule
rule id spec_ref decision_id applies = record {
  id = id;
  spec_ref = spec_ref;
  decision_id = decision_id;
  applies = applies;
}

unfoldable pub rules : List Rule
unfolding r01 r02 r03 r04 r05 r06 r07 r08 r09 r10 r11 r12 r13
rules =
    rule "R-01" "7.2" none r01
    ∷ rule "R-02" "7.2" none r02
    ∷ rule "R-03" "7.1" none r03
    ∷ rule "R-04" "7.3 rule 6" (some "D-001") r04
    ∷ rule "R-05" "7.1" (some "D-002") r05
    ∷ rule "R-06" "7.3 rule 4" (some "D-008") r06
    ∷ rule "R-07" "7.3 rule 1" none r07
    ∷ rule "R-08" "5.1" (some "D-007") r08
    ∷ rule "R-09" "7.3 rule 3" (some "D-003") r09
    ∷ rule "R-10" "7.3 rule 4" (some "D-004") r10
    ∷ rule "R-11" "7.3 rule 2" (some "D-005") r11
    ∷ rule "R-12" "5.1" (some "D-006") r12
    ∷ rule "R-13" "ARCHITECTURE, evidence engine" none r13
    ∷ []

-- The loop of `decide`; `none` is its AssertionError.
unfoldable pub decide_by : List Rule → Cell → Option Verdict
decide_by [] cell = none
decide_by (r ∷ rs) cell = elim (r.applies cell) [ none ↦ decide_by rs cell | some v ↦ some v ]

unfoldable pub decide : Cell → Option Verdict
unfolding decide_by rules
decide cell = decide_by rules cell

abbrev pub countable_relations : List EdgeRelation
countable_relations = EdgeRelation.supports ∷ EdgeRelation.contradicts ∷ []

unfoldable pub is_countable_relation : EdgeRelation → Bool
is_countable_relation relation = contains countable_relations relation
