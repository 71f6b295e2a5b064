-- ===== src/Domain/Evidence.antt =====
-- newz/domain/enums.py, the evidence vocabulary: what a source says, of what, and what is concluded.
use new_z.Prelude.{ℕ, ◌≡◌, ◌↔◌, true, String, Eq, nat_beq, arith}

pub data SourceRole : Type 0 where
  claimant firsthand_witness primary_record empirical_study adjudicator skeptical_investigation :
      SourceRole
  historical_context general_context : SourceRole

abbrev pub role_index : SourceRole → ℕ
role_index SourceRole.claimant = 0
role_index SourceRole.firsthand_witness = 1
role_index SourceRole.primary_record = 2
role_index SourceRole.empirical_study = 3
role_index SourceRole.adjudicator = 4
role_index SourceRole.skeptical_investigation = 5
role_index SourceRole.historical_context = 6
role_index SourceRole.general_context = 7

pub role_beq_iff : (a b : SourceRole) → (nat_beq (role_index a) (role_index b) ≡ true) ↔ (a ≡ b)
role_beq_iff a b = ground arith

instance abbrev pub role_eq : Eq SourceRole
role_eq = record { beq = λ a b. nat_beq (role_index a) (role_index b); beq_iff = role_beq_iff }

unfoldable pub role_value : SourceRole → String
role_value SourceRole.claimant = "claimant"
role_value SourceRole.firsthand_witness = "firsthand_witness"
role_value SourceRole.primary_record = "primary_record"
role_value SourceRole.empirical_study = "empirical_study"
role_value SourceRole.adjudicator = "adjudicator"
role_value SourceRole.skeptical_investigation = "skeptical_investigation"
role_value SourceRole.historical_context = "historical_context"
role_value SourceRole.general_context = "general_context"

pub data ClaimKind : Type 0 where
  attribution document_existence event_or_observation measurement_or_association : ClaimKind
  causal_or_mechanistic capability_or_performance identity_or_wrongdoing_allegation forecast :
      ClaimKind
  normative_proposition : ClaimKind

abbrev pub claim_kind_index : ClaimKind → ℕ
claim_kind_index ClaimKind.attribution = 0
claim_kind_index ClaimKind.document_existence = 1
claim_kind_index ClaimKind.event_or_observation = 2
claim_kind_index ClaimKind.measurement_or_association = 3
claim_kind_index ClaimKind.causal_or_mechanistic = 4
claim_kind_index ClaimKind.capability_or_performance = 5
claim_kind_index ClaimKind.identity_or_wrongdoing_allegation = 6
claim_kind_index ClaimKind.forecast = 7
claim_kind_index ClaimKind.normative_proposition = 8

pub claim_kind_beq_iff :
    (a b : ClaimKind) → (nat_beq (claim_kind_index a) (claim_kind_index b) ≡ true) ↔ (a ≡ b)
claim_kind_beq_iff a b = ground arith

instance abbrev pub claim_kind_eq : Eq ClaimKind
claim_kind_eq = record {
  beq = λ a b. nat_beq (claim_kind_index a) (claim_kind_index b);
  beq_iff = claim_kind_beq_iff;
}

unfoldable pub claim_kind_value : ClaimKind → String
claim_kind_value ClaimKind.attribution = "attribution"
claim_kind_value ClaimKind.document_existence = "document_existence"
claim_kind_value ClaimKind.event_or_observation = "event_or_observation"
claim_kind_value ClaimKind.measurement_or_association = "measurement_or_association"
claim_kind_value ClaimKind.causal_or_mechanistic = "causal_or_mechanistic"
claim_kind_value ClaimKind.capability_or_performance = "capability_or_performance"
claim_kind_value ClaimKind.identity_or_wrongdoing_allegation = "identity_or_wrongdoing_allegation"
claim_kind_value ClaimKind.forecast = "forecast"
claim_kind_value ClaimKind.normative_proposition = "normative_proposition"

pub data AssertionKind : Type 0 where
  observation testimony allegation measurement documented_event inference prediction : AssertionKind

abbrev pub assertion_kind_index : AssertionKind → ℕ
assertion_kind_index AssertionKind.observation = 0
assertion_kind_index AssertionKind.testimony = 1
assertion_kind_index AssertionKind.allegation = 2
assertion_kind_index AssertionKind.measurement = 3
assertion_kind_index AssertionKind.documented_event = 4
assertion_kind_index AssertionKind.inference = 5
assertion_kind_index AssertionKind.prediction = 6

pub assertion_kind_beq_iff :
    (a b : AssertionKind)
    → (nat_beq (assertion_kind_index a) (assertion_kind_index b) ≡ true) ↔ (a ≡ b)
assertion_kind_beq_iff a b = ground arith

instance abbrev pub assertion_kind_eq : Eq AssertionKind
assertion_kind_eq = record {
  beq = λ a b. nat_beq (assertion_kind_index a) (assertion_kind_index b);
  beq_iff = assertion_kind_beq_iff;
}

unfoldable pub assertion_kind_value : AssertionKind → String
assertion_kind_value AssertionKind.observation = "observation"
assertion_kind_value AssertionKind.testimony = "testimony"
assertion_kind_value AssertionKind.allegation = "allegation"
assertion_kind_value AssertionKind.measurement = "measurement"
assertion_kind_value AssertionKind.documented_event = "documented_event"
assertion_kind_value AssertionKind.inference = "inference"
assertion_kind_value AssertionKind.prediction = "prediction"

pub data EdgeRelation : Type 0 where
  claimant_says supports contradicts contextualizes : EdgeRelation

abbrev pub relation_index : EdgeRelation → ℕ
relation_index EdgeRelation.claimant_says = 0
relation_index EdgeRelation.supports = 1
relation_index EdgeRelation.contradicts = 2
relation_index EdgeRelation.contextualizes = 3

pub relation_beq_iff :
    (a b : EdgeRelation) → (nat_beq (relation_index a) (relation_index b) ≡ true) ↔ (a ≡ b)
relation_beq_iff a b = ground arith

instance abbrev pub relation_eq : Eq EdgeRelation
relation_eq = record {
  beq = λ a b. nat_beq (relation_index a) (relation_index b);
  beq_iff = relation_beq_iff;
}

unfoldable pub relation_value : EdgeRelation → String
relation_value EdgeRelation.claimant_says = "claimant_says"
relation_value EdgeRelation.supports = "supports"
relation_value EdgeRelation.contradicts = "contradicts"
relation_value EdgeRelation.contextualizes = "contextualizes"

pub data AssessmentState : Type 0 where
  reported provisional_support provisional_contradiction supported refuted contested :
      AssessmentState
  indeterminate withdrawn : AssessmentState

abbrev pub assessment_state_index : AssessmentState → ℕ
assessment_state_index AssessmentState.reported = 0
assessment_state_index AssessmentState.provisional_support = 1
assessment_state_index AssessmentState.provisional_contradiction = 2
assessment_state_index AssessmentState.supported = 3
assessment_state_index AssessmentState.refuted = 4
assessment_state_index AssessmentState.contested = 5
assessment_state_index AssessmentState.indeterminate = 6
assessment_state_index AssessmentState.withdrawn = 7

pub assessment_state_beq_iff :
    (a b : AssessmentState)
    → (nat_beq (assessment_state_index a) (assessment_state_index b) ≡ true) ↔ (a ≡ b)
assessment_state_beq_iff a b = ground arith

instance abbrev pub assessment_state_eq : Eq AssessmentState
assessment_state_eq = record {
  beq = λ a b. nat_beq (assessment_state_index a) (assessment_state_index b);
  beq_iff = assessment_state_beq_iff;
}

unfoldable pub assessment_state_value : AssessmentState → String
assessment_state_value AssessmentState.reported = "reported"
assessment_state_value AssessmentState.provisional_support = "provisional_support"
assessment_state_value AssessmentState.provisional_contradiction = "provisional_contradiction"
assessment_state_value AssessmentState.supported = "supported"
assessment_state_value AssessmentState.refuted = "refuted"
assessment_state_value AssessmentState.contested = "contested"
assessment_state_value AssessmentState.indeterminate = "indeterminate"
assessment_state_value AssessmentState.withdrawn = "withdrawn"

pub data RiskTier : Type 0 where
  r0 r1 r2 r3 r4 : RiskTier

abbrev pub risk_index : RiskTier → ℕ
risk_index RiskTier.r0 = 0
risk_index RiskTier.r1 = 1
risk_index RiskTier.r2 = 2
risk_index RiskTier.r3 = 3
risk_index RiskTier.r4 = 4

pub risk_beq_iff : (a b : RiskTier) → (nat_beq (risk_index a) (risk_index b) ≡ true) ↔ (a ≡ b)
risk_beq_iff a b = ground arith

instance abbrev pub risk_eq : Eq RiskTier
risk_eq = record { beq = λ a b. nat_beq (risk_index a) (risk_index b); beq_iff = risk_beq_iff }

unfoldable pub risk_value : RiskTier → String
risk_value RiskTier.r0 = "R0"
risk_value RiskTier.r1 = "R1"
risk_value RiskTier.r2 = "R2"
risk_value RiskTier.r3 = "R3"
risk_value RiskTier.r4 = "R4"

pub data IndependenceJustification : Type 0 where
  distinct_witness distinct_instrument_or_dataset distinct_official_record distinct_experiment :
      IndependenceJustification
  distinct_primary_observation operator_verified : IndependenceJustification

abbrev pub independence_justification_index : IndependenceJustification → ℕ
independence_justification_index IndependenceJustification.distinct_witness = 0
independence_justification_index IndependenceJustification.distinct_instrument_or_dataset = 1
independence_justification_index IndependenceJustification.distinct_official_record = 2
independence_justification_index IndependenceJustification.distinct_experiment = 3
independence_justification_index IndependenceJustification.distinct_primary_observation = 4
independence_justification_index IndependenceJustification.operator_verified = 5

pub independence_justification_beq_iff :
    (a b : IndependenceJustification)
    → (nat_beq (independence_justification_index a) (independence_justification_index b) ≡ true)
      ↔ (a ≡ b)
independence_justification_beq_iff a b = ground arith

instance abbrev pub independence_justification_eq : Eq IndependenceJustification
independence_justification_eq = record {
  beq = λ a b. nat_beq (independence_justification_index a) (independence_justification_index b);
  beq_iff = independence_justification_beq_iff;
}

unfoldable pub independence_justification_value : IndependenceJustification → String
independence_justification_value IndependenceJustification.distinct_witness = "distinct_witness"
independence_justification_value IndependenceJustification.distinct_instrument_or_dataset =
    "distinct_instrument_or_dataset"
independence_justification_value IndependenceJustification.distinct_official_record =
    "distinct_official_record"
independence_justification_value IndependenceJustification.distinct_experiment =
    "distinct_experiment"
independence_justification_value IndependenceJustification.distinct_primary_observation =
    "distinct_primary_observation"
independence_justification_value IndependenceJustification.operator_verified = "operator_verified"
