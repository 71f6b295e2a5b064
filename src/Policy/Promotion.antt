-- ===== src/Policy/Promotion.antt =====
-- newz/policy/promotion.py, assessment: the state of a claim from its live, admitted edges and the
-- independent bases beneath them.
pub mod Symmetry
pub mod Outcomes
pub mod Evidence
use Prim.Native.String.{◌++◌ as text_append}
use new_z.Prelude.{
  ℕ, Bool, true, false, not, ◌&&◌, ◌||◌, Option, none, some, List, [], ◌∷◌, ◌++◌, map, String, ◌==◌,
  string_eq, leb, if◌then◌else◌, is_some, is_filled, text_lt, decimal, get, length, contains, every,
  exists, select, sort_by, flat_map,
}
use new_z.Domain.Evidence.{
  SourceRole, ClaimKind, EdgeRelation, AssessmentState, RiskTier, role_eq, claim_kind_eq,
  relation_eq, risk_eq,
}
use new_z.Domain.Work.{TaskState, EvidenceLane, task_state_value, lane_value}
use new_z.Domain.Records.{Assertion, Assessment, Basis, Claim, EdgeEvent, IndependenceClaim, Task}
use new_z.Domain.Version.{code_version}
use new_z.Policy.Rules.{is_countable_relation, strong_provenance_roles, direct_record_roles}
use new_z.Policy.Risk.{maximum}
use new_z.Policy.Independence.{count_independent_bases}
use new_z.Policy.Admission.{evaluate_edge}
use new_z.Policy.LaneStatus.{LaneStatus, lane_statuses}

pub record EvidenceInput : Type 0 where
  pub claim : Claim
  pub edges : List EdgeEvent
  pub assertions : List (String × Assertion)
  pub bases : List (String × Basis)
  pub independence : List IndependenceClaim
  pub tasks : List Task
  pub horizon_reached : Bool

abbrev pub known_risks : List EdgeEvent → List RiskTier
known_risks [] = []
known_risks (e ∷ es) = elim e.risk [ none ↦ known_risks es | some t ↦ t ∷ known_risks es ]

-- The tests of `_effective_risk` on the claim's risk and the edges' known risks.
abbrev pub risk_of : Option RiskTier → List RiskTier → RiskTier
risk_of (some tier) [] = tier
risk_of (some tier) (t ∷ ts) = maximum tier (t ∷ ts)
risk_of none [] = RiskTier.r3
risk_of none (t ∷ ts) = maximum t ts

unfoldable pub effective_risk : Claim → List EdgeEvent → RiskTier
effective_risk claim edges = risk_of claim.risk (known_risks edges)

-- `scope is True`
abbrev pub is_true : Option Bool → Bool
is_true none = false
is_true (some b) = b

unfoldable pub settles_alone : Claim → List EdgeEvent → Bool
settles_alone claim edges =
    contains (ClaimKind.attribution ∷ ClaimKind.document_existence ∷ []) claim.kind
      && is_filled edges
    || exists (λ e. e.role == SourceRole.adjudicator && is_true e.adjudicative_scope_covers_claim)
        edges

-- The roles of the edges whose basis is in the group.
abbrev pub group_roles : List EdgeEvent → List String → List SourceRole
group_roles edges group =
    flat_map (λ b. map (λ e. e.role) (select (λ e. e.basis_id == b) edges)) group

-- How many groups have an edge of one of the roles.
unfoldable pub groups_with : List SourceRole → List EdgeEvent → List (List String) → ℕ
groups_with roles edges groups =
    length (select (λ g. exists (λ r. contains roles r) (group_roles edges g)) groups)

-- The ladder of `_meets_threshold` below its first tests, by the effective risk.
abbrev pub threshold : RiskTier → ℕ → ℕ → Bool × String
threshold RiskTier.r4 strong direct = (false, "r4_never_promotes")
threshold RiskTier.r3 strong direct =
    if leb 1 direct
    then (true, "r3_direct_record_plus_independent_basis")
    else (false, "r3_needs_a_direct_primary_or_adjudicative_basis")
threshold RiskTier.r2 strong direct =
    if leb 2 strong
    then (true, "r2_two_strong_provenance_bases")
    else (false, "r2_needs_two_strong_provenance_bases")
threshold _ strong direct =
    if leb 1 strong
    then (true, "two_independent_bases_one_strong")
    else (false, "needs_a_primary_empirical_or_adjudicative_basis")

unfoldable pub meets_threshold :
    Claim → List EdgeEvent → List (List String) → RiskTier → Bool × String
meets_threshold claim edges groups risk =
    if not (is_filled edges) || not (is_filled groups)
    then (false, "no_countable_basis")
    else if settles_alone claim edges
    then (true, "single_record_exception")
    else if not (leb 2 (length groups))
    then (false, "one_independent_basis")
    else threshold risk (groups_with strong_provenance_roles edges groups)
        (groups_with direct_record_roles edges groups)

-- The edges that count, in the order of their ids: `countable` of the source, both directions.
unfoldable pub countable : EvidenceInput → List EdgeEvent
countable inputs =
    select
      (λ edge.
        is_countable_relation edge.relation
        && (evaluate_edge edge inputs.claim (get inputs.assertions edge.assertion_id)
            (get inputs.bases edge.basis_id)).admitted)
      (sort_by (λ e f. text_lt e.id f.id) inputs.edges)

-- `countable[relation]`
unfoldable pub side : EdgeRelation → EvidenceInput → List EdgeEvent
side relation inputs = select (λ e. e.relation == relation) (countable inputs)

unfoldable pub count_side : EdgeRelation → EvidenceInput → ℕ × List (List String)
count_side relation inputs =
    count_independent_bases (map (λ e. e.basis_id) (side relation inputs)) inputs.bases
      inputs.independence

-- `(s.lane, s.state, s.reason) for s in statuses if s.blocked and s.state is not None`
abbrev pub blocked_of : List LaneStatus → List (EvidenceLane × TaskState × String)
blocked_of [] = []
blocked_of (s ∷ ss) =
    let rest = blocked_of ss in
    elim s.state [
      | none ↦ rest
      | some state ↦ if s.blocked then (s.lane, state, s.reason) ∷ rest else rest
    ]

infixr 66 ◌⧺◌
abbrev pub ◌⧺◌ : String → String → String
s ⧺ t = text_append s t

-- `", ".join(f"{lane.value}:{state.value}" for lane, state, _ in blocked)`
abbrev pub join_names : List (EvidenceLane × TaskState × String) → String
unfolding lane_value task_state_value
join_names [] = ""
join_names ((lane, state, reason) ∷ []) = lane_value lane ⧺ ":" ⧺ task_state_value state
join_names ((lane, state, reason) ∷ rest) =
    lane_value lane ⧺ ":" ⧺ task_state_value state ⧺ ", " ⧺ join_names rest

-- `if n_support and n_contra`, of two numbers.
abbrev pub is_positive : ℕ → Bool
is_positive n = leb 1 n

-- The last branches of `assess`, where no edge counts.
unfoldable pub conclude_empty :
    List LaneStatus → List (EvidenceLane × TaskState × String) → AssessmentState × String
conclude_empty statuses (b ∷ bs) = (
  AssessmentState.reported,
  "a required lane did not search ("
      ⧺ join_names (b ∷ bs)
      ⧺ "); absence is evidence only from a lane that actually looked",
)
conclude_empty statuses [] =
    if is_filled statuses && every (λ s. s.settled_competent) statuses
    then (
      AssessmentState.indeterminate,
      "every required evidence lane searched competently and produced no countable edge in either direction",
    )
    else (AssessmentState.reported, "attributed, with evidence lanes still open")

-- A promotion or its provisional form.
abbrev pub promote : AssessmentState → AssessmentState → Bool × String → AssessmentState × String
promote full provisional (met, why) = if met then (full, why) else (provisional, why)

-- The ladder of `assess`: the state and its explanation, from the edges of each direction and
-- what `count_independent_bases` said of them.
unfoldable pub ladder :
    Claim
    → Bool
    → (supports contradicts : List EdgeEvent) → (support contra : ℕ × List (List String)) → RiskTier
    → List LaneStatus
    → AssessmentState × String
ladder claim horizon_reached supports contradicts support contra risk statuses =
    let (n_support, support_groups) = support in
    let (n_contra, contra_groups) = contra in
    if claim.withdrawn
    then (AssessmentState.withdrawn, "the proposition is no longer maintained")
    else if claim.kind == ClaimKind.normative_proposition
    then (
      AssessmentState.reported,
      "a normative proposition admits no evidence edge and does not promote",
    )
    else if claim.kind == ClaimKind.forecast && not horizon_reached
    then (
      AssessmentState.reported,
      "a forecast holds at reported until its resolution horizon, whatever edges accumulate",
    )
    else if is_positive n_support && is_positive n_contra
    then (
      AssessmentState.contested,
      "countable evidence in both directions: "
          ⧺ decimal n_support
          ⧺ " supporting and "
          ⧺ decimal n_contra
          ⧺ " contradicting independent bases, never netted",
    )
    else if is_positive n_support
    then promote AssessmentState.supported AssessmentState.provisional_support
        (meets_threshold claim supports support_groups risk)
    else if is_positive n_contra
    then promote AssessmentState.refuted AssessmentState.provisional_contradiction
        (meets_threshold claim contradicts contra_groups risk)
    else conclude_empty statuses (blocked_of statuses)

unfoldable pub conclude : EvidenceInput → AssessmentState × String
conclude inputs =
    let supports = side EdgeRelation.supports inputs in
    let contradicts = side EdgeRelation.contradicts inputs in
    ladder inputs.claim inputs.horizon_reached supports contradicts
      (count_side EdgeRelation.supports inputs) (count_side EdgeRelation.contradicts inputs)
      (effective_risk inputs.claim (supports ++ contradicts))
      (lane_statuses inputs.claim inputs.tasks)

unfoldable pub assess : EvidenceInput → String → Assessment
assess inputs policy_version =
    let (state, explanation) = conclude inputs in
    record {
      claim_id = inputs.claim.id;
      state = state;
      supporting_bases = (count_side EdgeRelation.supports inputs).0;
      contradicting_bases = (count_side EdgeRelation.contradicts inputs).0;
      policy_version = policy_version;
      code_version = code_version;
      explanation = explanation;
      blocked_lanes = blocked_of (lane_statuses inputs.claim inputs.tasks);
      countable_edge_ids = map (λ e. e.id) (countable inputs);
    }
