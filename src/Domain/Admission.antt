-- ===== src/Domain/Admission.antt =====
-- newz/domain/enums.py, the vocabulary of admission: the named predicates and the refusals.
use new_z.Prelude.{ℕ, ◌≡◌, ◌↔◌, true, Eq, nat_beq, arith}

pub data RefusalReason : Type 0 where
  deny_by_default normative_admits_no_evidence claimant_establishes_attribution_only : RefusalReason
  allegation_is_not_proof inference_is_not_evidence prediction_is_not_evidence : RefusalReason
  filing_is_not_performance wrongdoing_needs_adjudication testimony_is_bounded : RefusalReason
  context_role_is_contextual_only role_lacks_capability unresolved_basis : RefusalReason
  missing_artifact_or_span unverified_quote assertion_not_live missing_risk_state : RefusalReason
  quarantined_r4 missing_policy_version : RefusalReason

abbrev pub refusal_reason_index : RefusalReason → ℕ
refusal_reason_index RefusalReason.deny_by_default = 0
refusal_reason_index RefusalReason.normative_admits_no_evidence = 1
refusal_reason_index RefusalReason.claimant_establishes_attribution_only = 2
refusal_reason_index RefusalReason.allegation_is_not_proof = 3
refusal_reason_index RefusalReason.inference_is_not_evidence = 4
refusal_reason_index RefusalReason.prediction_is_not_evidence = 5
refusal_reason_index RefusalReason.filing_is_not_performance = 6
refusal_reason_index RefusalReason.wrongdoing_needs_adjudication = 7
refusal_reason_index RefusalReason.testimony_is_bounded = 8
refusal_reason_index RefusalReason.context_role_is_contextual_only = 9
refusal_reason_index RefusalReason.role_lacks_capability = 10
refusal_reason_index RefusalReason.unresolved_basis = 11
refusal_reason_index RefusalReason.missing_artifact_or_span = 12
refusal_reason_index RefusalReason.unverified_quote = 13
refusal_reason_index RefusalReason.assertion_not_live = 14
refusal_reason_index RefusalReason.missing_risk_state = 15
refusal_reason_index RefusalReason.quarantined_r4 = 16
refusal_reason_index RefusalReason.missing_policy_version = 17

pub refusal_reason_beq_iff :
    (a b : RefusalReason)
    → (nat_beq (refusal_reason_index a) (refusal_reason_index b) ≡ true) ↔ (a ≡ b)
refusal_reason_beq_iff a b = ground arith

instance abbrev pub refusal_reason_eq : Eq RefusalReason
refusal_reason_eq = record {
  beq = λ a b. nat_beq (refusal_reason_index a) (refusal_reason_index b);
  beq_iff = refusal_reason_beq_iff;
}

pub data AdmissionPredicate : Type 0 where
  assertion_live quote_verified artifact_and_span_present tuple_permitted : AdmissionPredicate
  basis_identity_resolved risk_classified policy_version_recorded : AdmissionPredicate

abbrev pub admission_predicate_index : AdmissionPredicate → ℕ
admission_predicate_index AdmissionPredicate.assertion_live = 0
admission_predicate_index AdmissionPredicate.quote_verified = 1
admission_predicate_index AdmissionPredicate.artifact_and_span_present = 2
admission_predicate_index AdmissionPredicate.tuple_permitted = 3
admission_predicate_index AdmissionPredicate.basis_identity_resolved = 4
admission_predicate_index AdmissionPredicate.risk_classified = 5
admission_predicate_index AdmissionPredicate.policy_version_recorded = 6

pub admission_predicate_beq_iff :
    (a b : AdmissionPredicate)
    → (nat_beq (admission_predicate_index a) (admission_predicate_index b) ≡ true) ↔ (a ≡ b)
admission_predicate_beq_iff a b = ground arith

instance abbrev pub admission_predicate_eq : Eq AdmissionPredicate
admission_predicate_eq = record {
  beq = λ a b. nat_beq (admission_predicate_index a) (admission_predicate_index b);
  beq_iff = admission_predicate_beq_iff;
}
