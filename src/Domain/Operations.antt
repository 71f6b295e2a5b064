-- ===== src/Domain/Operations.antt =====
-- newz/domain/enums.py, the operational vocabulary: reads, operations and their refusals.
use new_z.Prelude.{ℕ, ◌≡◌, ◌↔◌, true, String, Eq, nat_beq, arith}

pub data ReadLane : Type 0 where
  discovery verification correction : ReadLane

abbrev pub read_lane_index : ReadLane → ℕ
read_lane_index ReadLane.discovery = 0
read_lane_index ReadLane.verification = 1
read_lane_index ReadLane.correction = 2

pub read_lane_beq_iff :
    (a b : ReadLane) → (nat_beq (read_lane_index a) (read_lane_index b) ≡ true) ↔ (a ≡ b)
read_lane_beq_iff a b = ground arith

instance abbrev pub read_lane_eq : Eq ReadLane
read_lane_eq = record {
  beq = λ a b. nat_beq (read_lane_index a) (read_lane_index b);
  beq_iff = read_lane_beq_iff;
}

unfoldable pub read_lane_value : ReadLane → String
read_lane_value ReadLane.discovery = "discovery"
read_lane_value ReadLane.verification = "verification"
read_lane_value ReadLane.correction = "correction"

pub data OperationKind : Type 0 where
  fetch parse resolve : OperationKind

abbrev pub operation_kind_index : OperationKind → ℕ
operation_kind_index OperationKind.fetch = 0
operation_kind_index OperationKind.parse = 1
operation_kind_index OperationKind.resolve = 2

pub operation_kind_beq_iff :
    (a b : OperationKind)
    → (nat_beq (operation_kind_index a) (operation_kind_index b) ≡ true) ↔ (a ≡ b)
operation_kind_beq_iff a b = ground arith

instance abbrev pub operation_kind_eq : Eq OperationKind
operation_kind_eq = record {
  beq = λ a b. nat_beq (operation_kind_index a) (operation_kind_index b);
  beq_iff = operation_kind_beq_iff;
}

pub data OperationState : Type 0 where
  reserved leased succeeded failed quarantined cancelled expired : OperationState

abbrev pub operation_state_index : OperationState → ℕ
operation_state_index OperationState.reserved = 0
operation_state_index OperationState.leased = 1
operation_state_index OperationState.succeeded = 2
operation_state_index OperationState.failed = 3
operation_state_index OperationState.quarantined = 4
operation_state_index OperationState.cancelled = 5
operation_state_index OperationState.expired = 6

pub operation_state_beq_iff :
    (a b : OperationState)
    → (nat_beq (operation_state_index a) (operation_state_index b) ≡ true) ↔ (a ≡ b)
operation_state_beq_iff a b = ground arith

instance abbrev pub operation_state_eq : Eq OperationState
operation_state_eq = record {
  beq = λ a b. nat_beq (operation_state_index a) (operation_state_index b);
  beq_iff = operation_state_beq_iff;
}

unfoldable pub operation_state_value : OperationState → String
operation_state_value OperationState.reserved = "reserved"
operation_state_value OperationState.leased = "leased"
operation_state_value OperationState.succeeded = "succeeded"
operation_state_value OperationState.failed = "failed"
operation_state_value OperationState.quarantined = "quarantined"
operation_state_value OperationState.cancelled = "cancelled"
operation_state_value OperationState.expired = "expired"

pub data AttemptOutcome : Type 0 where
  retained refused error : AttemptOutcome

abbrev pub attempt_outcome_index : AttemptOutcome → ℕ
attempt_outcome_index AttemptOutcome.retained = 0
attempt_outcome_index AttemptOutcome.refused = 1
attempt_outcome_index AttemptOutcome.error = 2

pub attempt_outcome_beq_iff :
    (a b : AttemptOutcome)
    → (nat_beq (attempt_outcome_index a) (attempt_outcome_index b) ≡ true) ↔ (a ≡ b)
attempt_outcome_beq_iff a b = ground arith

instance abbrev pub attempt_outcome_eq : Eq AttemptOutcome
attempt_outcome_eq = record {
  beq = λ a b. nat_beq (attempt_outcome_index a) (attempt_outcome_index b);
  beq_iff = attempt_outcome_beq_iff;
}

pub data FetchRefusal : Type 0 where
  scheme_not_allowed url_malformed credentials_in_url port_not_allowed host_not_resolvable :
      FetchRefusal
  non_public_address host_not_in_catalog redirect_limit redirect_scheme_downgrade : FetchRefusal
  redirect_off_policy response_too_large decompression_limit content_type_not_allowed timeout :
      FetchRefusal
  rate_limited budget_exhausted discovery_paused request_ceiling storage_ceiling : FetchRefusal
  retention_prohibited robots_disallowed robots_unreachable source_quarantined : FetchRefusal
  publisher_concentration : FetchRefusal

abbrev pub fetch_refusal_index : FetchRefusal → ℕ
fetch_refusal_index FetchRefusal.scheme_not_allowed = 0
fetch_refusal_index FetchRefusal.url_malformed = 1
fetch_refusal_index FetchRefusal.credentials_in_url = 2
fetch_refusal_index FetchRefusal.port_not_allowed = 3
fetch_refusal_index FetchRefusal.host_not_resolvable = 4
fetch_refusal_index FetchRefusal.non_public_address = 5
fetch_refusal_index FetchRefusal.host_not_in_catalog = 6
fetch_refusal_index FetchRefusal.redirect_limit = 7
fetch_refusal_index FetchRefusal.redirect_scheme_downgrade = 8
fetch_refusal_index FetchRefusal.redirect_off_policy = 9
fetch_refusal_index FetchRefusal.response_too_large = 10
fetch_refusal_index FetchRefusal.decompression_limit = 11
fetch_refusal_index FetchRefusal.content_type_not_allowed = 12
fetch_refusal_index FetchRefusal.timeout = 13
fetch_refusal_index FetchRefusal.rate_limited = 14
fetch_refusal_index FetchRefusal.budget_exhausted = 15
fetch_refusal_index FetchRefusal.discovery_paused = 16
fetch_refusal_index FetchRefusal.request_ceiling = 17
fetch_refusal_index FetchRefusal.storage_ceiling = 18
fetch_refusal_index FetchRefusal.retention_prohibited = 19
fetch_refusal_index FetchRefusal.robots_disallowed = 20
fetch_refusal_index FetchRefusal.robots_unreachable = 21
fetch_refusal_index FetchRefusal.source_quarantined = 22
fetch_refusal_index FetchRefusal.publisher_concentration = 23

pub fetch_refusal_beq_iff :
    (a b : FetchRefusal)
    → (nat_beq (fetch_refusal_index a) (fetch_refusal_index b) ≡ true) ↔ (a ≡ b)
fetch_refusal_beq_iff a b = ground arith

instance abbrev pub fetch_refusal_eq : Eq FetchRefusal
fetch_refusal_eq = record {
  beq = λ a b. nat_beq (fetch_refusal_index a) (fetch_refusal_index b);
  beq_iff = fetch_refusal_beq_iff;
}

-- `FetchRefusal.value`
unfoldable pub fetch_refusal_value : FetchRefusal → String
fetch_refusal_value FetchRefusal.scheme_not_allowed = "scheme_not_allowed"
fetch_refusal_value FetchRefusal.url_malformed = "url_malformed"
fetch_refusal_value FetchRefusal.credentials_in_url = "credentials_in_url"
fetch_refusal_value FetchRefusal.port_not_allowed = "port_not_allowed"
fetch_refusal_value FetchRefusal.host_not_resolvable = "host_not_resolvable"
fetch_refusal_value FetchRefusal.non_public_address = "non_public_address"
fetch_refusal_value FetchRefusal.host_not_in_catalog = "host_not_in_catalog"
fetch_refusal_value FetchRefusal.redirect_limit = "redirect_limit"
fetch_refusal_value FetchRefusal.redirect_scheme_downgrade = "redirect_scheme_downgrade"
fetch_refusal_value FetchRefusal.redirect_off_policy = "redirect_off_policy"
fetch_refusal_value FetchRefusal.response_too_large = "response_too_large"
fetch_refusal_value FetchRefusal.decompression_limit = "decompression_limit"
fetch_refusal_value FetchRefusal.content_type_not_allowed = "content_type_not_allowed"
fetch_refusal_value FetchRefusal.timeout = "timeout"
fetch_refusal_value FetchRefusal.rate_limited = "rate_limited"
fetch_refusal_value FetchRefusal.budget_exhausted = "budget_exhausted"
fetch_refusal_value FetchRefusal.discovery_paused = "discovery_paused"
fetch_refusal_value FetchRefusal.request_ceiling = "request_ceiling"
fetch_refusal_value FetchRefusal.storage_ceiling = "storage_ceiling"
fetch_refusal_value FetchRefusal.retention_prohibited = "retention_prohibited"
fetch_refusal_value FetchRefusal.robots_disallowed = "robots_disallowed"
fetch_refusal_value FetchRefusal.robots_unreachable = "robots_unreachable"
fetch_refusal_value FetchRefusal.source_quarantined = "source_quarantined"
fetch_refusal_value FetchRefusal.publisher_concentration = "publisher_concentration"
