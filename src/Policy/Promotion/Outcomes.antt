-- ===== src/Policy/Promotion/Outcomes.antt =====
-- What each state of an assessment takes.
use new_z.Prelude.{
  ℕ, ◌≡◌, ◌≢◌, ◌↔◌, ◌⊎◌, ◌≤◌, inl, inr, refl, sym, ◌∙◌, Bool, true, false, not, ◌&&◌, List, [], ◌∷◌,
  ◌++◌, map, arith, String, ◌==◌, is_filled, length, every, Bool-cases, contains, eq_refl,
  string_eq,
}
use new_z.Domain.Evidence.{ClaimKind, EdgeRelation, AssessmentState, RiskTier, claim_kind_eq}
use new_z.Domain.Records.{Claim, EdgeEvent}
use new_z.Policy.Rules.{strong_provenance_roles, direct_record_roles}
use new_z.Policy.Independence.{is_justified, sorted_ids, count_independent_bases}
use new_z.Policy.Independence.Counting.{
  count-eq-length, count-nil, count-unjustified, contains-sorted_ids,
}
use new_z.Policy.LaneStatus.{LaneStatus, lane_statuses}
use new_z.Policy.Promotion.{
  EvidenceInput, effective_risk, settles_alone, groups_with, threshold, meets_threshold, side,
  count_side, blocked_of, conclude_empty, ladder, conclude, assess,
}

-- The claim is maintained, is not normative and, if a forecast, is past its horizon.
abbrev pub is_open : Claim → Bool → Bool
is_open claim horizon_reached =
    not claim.withdrawn
    && (not (claim.kind == ClaimKind.normative_proposition)
        && not (claim.kind == ClaimKind.forecast && not horizon_reached))

-- What a tier asks of the groups with a strong and with a direct-record basis.
abbrev pub Suffices : RiskTier → ℕ → ℕ → Type 0
Suffices RiskTier.r4 strong direct = ⊥
Suffices RiskTier.r3 strong direct = 1 ≤ direct
Suffices RiskTier.r2 strong direct = 2 ≤ strong
Suffices _ strong direct = 1 ≤ strong

-- A record settles the claim alone, or two groups stand and the tier's demand is met.
abbrev pub Promotes : Claim → List EdgeEvent → List (List String) → RiskTier → Type 0
Promotes claim edges groups risk =
    (settles_alone claim edges ≡ true)
    ⊎ ((2 ≤ length groups)
        × Suffices risk (groups_with strong_provenance_roles edges groups)
            (groups_with direct_record_roles edges groups))

threshold_iff : (r : RiskTier) (s d : ℕ) → ((threshold r s d).0 ≡ true) ↔ Suffices r s d
threshold_iff RiskTier.r0 s d = ground arith
threshold_iff RiskTier.r1 s d = ground arith
threshold_iff RiskTier.r2 s d = ground arith
threshold_iff RiskTier.r3 s d = ground arith
threshold_iff RiskTier.r4 s d = ground arith

meets_threshold_iff :
    (claim : Claim) (edges : List EdgeEvent) (groups : List (List String)) (risk : RiskTier)
    → is_filled edges ≡ true
    → is_filled groups ≡ true
    → ((meets_threshold claim edges groups risk).0 ≡ true) ↔ Promotes claim edges groups risk
unfolding meets_threshold
meets_threshold_iff claim edges groups risk he hg = ground (
  arith,
  threshold_iff risk (groups_with strong_provenance_roles edges groups)
      (groups_with direct_record_roles edges groups),
)

ladder-supported_iff :
    (claim : Claim) (horizon : Bool) (s c : List EdgeEvent) (ns nc : ℕ × List (List String))
    (risk : RiskTier) (statuses : List LaneStatus)
    → ((ladder claim horizon s c ns nc risk statuses).0 ≡ AssessmentState.supported) ↔ (
        (is_open claim horizon ≡ true)
        × (1 ≤ ns.0)
        × (nc.0 ≡ 0)
        × ((meets_threshold claim s ns.1 risk).0 ≡ true))
unfolding ladder conclude_empty
ladder-supported_iff claim horizon s c ns nc risk statuses = ground arith

ladder-contested_iff :
    (claim : Claim) (horizon : Bool) (s c : List EdgeEvent) (ns nc : ℕ × List (List String))
    (risk : RiskTier) (statuses : List LaneStatus)
    → ((ladder claim horizon s c ns nc risk statuses).0 ≡ AssessmentState.contested)
      ↔ ((is_open claim horizon ≡ true) × (1 ≤ ns.0) × (1 ≤ nc.0))
unfolding ladder conclude_empty
ladder-contested_iff claim horizon s c ns nc risk statuses = ground arith

ladder-indeterminate_iff :
    (claim : Claim) (horizon : Bool) (s c : List EdgeEvent) (ns nc : ℕ × List (List String))
    (risk : RiskTier) (statuses : List LaneStatus)
    → ((ladder claim horizon s c ns nc risk statuses).0 ≡ AssessmentState.indeterminate) ↔ (
        (is_open claim horizon ≡ true)
        × (ns.0 ≡ 0)
        × (nc.0 ≡ 0)
        × (blocked_of statuses ≡ [])
        × (is_filled statuses ≡ true)
        × (every (λ s. s.settled_competent) statuses ≡ true))
unfolding ladder conclude_empty
ladder-indeterminate_iff claim horizon s c ns nc risk statuses = ground arith

-- The effective risk of the claim with the edges that count.
abbrev pub risk_at : EvidenceInput → RiskTier
risk_at i = effective_risk i.claim (side EdgeRelation.supports i ++ side EdgeRelation.contradicts i)

is_filled_of_length : {A : Type 0} (xs : List A) → 1 ≤ length xs → is_filled xs ≡ true
is_filled_of_length [] h = absurd (omega arith)
is_filled_of_length (x ∷ xs) h = refl

groups-filled :
    (r : EdgeRelation) (i : EvidenceInput)
    → 1 ≤ (count_side r i).0
    → is_filled (count_side r i).1 ≡ true
unfolding count_side
groups-filled r i h = is_filled_of_length _ (
    omega (
      arith,
      count-eq-length (map (λ (e : EdgeEvent). e.basis_id) (side r i)) i.bases i.independence,
    ))

pub side-filled :
    (r : EdgeRelation) (i : EvidenceInput) → 1 ≤ (count_side r i).0 → is_filled (side r i) ≡ true
unfolding count_side
side-filled r i = go (side r i)
  where
    go :
        (es : List EdgeEvent)
        → 1
          ≤ (count_independent_bases
              (map (λ (e : EdgeEvent). e.basis_id) es)
              i.bases
              i.independence).0
        → is_filled es ≡ true
    go [] h = absurd (omega (arith, count-nil i.bases i.independence))
    go (e ∷ es) h = refl

module _ (i : EvidenceInput) (v : String) where
  -- A claim is supported exactly if it is maintained, not normative and past any forecast horizon,
  -- some independent basis counts for it and none against, and either one record settles it alone or
  -- two groups of bases stand with what the effective risk demands of them.
  pub assess-supported_iff : ((assess i v).state ≡ AssessmentState.supported) ↔ (
      (is_open i.claim i.horizon_reached ≡ true)
      × (1 ≤ (assess i v).supporting_bases)
      × ((assess i v).contradicting_bases ≡ 0)
      × Promotes i.claim
          (side EdgeRelation.supports i)
          (count_side EdgeRelation.supports i).1
          (risk_at i))
  unfolding assess conclude
  assess-supported_iff =
      let s = EdgeRelation.supports in
      let met = λ (h : 1 ≤ (count_side s i).0).
        meets_threshold_iff i.claim (side s i) (count_side s i).1 (risk_at i) (side-filled s i h)
          (groups-filled s i h) in
      let stated =
        ladder-supported_iff i.claim i.horizon_reached (side s i) (side EdgeRelation.contradicts i)
          (count_side s i) (count_side EdgeRelation.contradicts i) (risk_at i)
          (lane_statuses i.claim i.tasks) in
      (
        λ e. let (o, p, z, m) = stated.0 e in (o, p, z, (met p).0 m),
        λ (o, p, z, m). stated.1 (o, p, z, (met p).1 m),
      )

  -- A claim is contested exactly if it is maintained, not normative and past any forecast horizon,
  -- and an independent basis counts in each direction.
  pub assess-contested_iff : ((assess i v).state ≡ AssessmentState.contested) ↔ (
      (is_open i.claim i.horizon_reached ≡ true)
      × (1 ≤ (assess i v).supporting_bases)
      × (1 ≤ (assess i v).contradicting_bases))
  unfolding assess conclude
  assess-contested_iff =
      ladder-contested_iff i.claim i.horizon_reached (side EdgeRelation.supports i)
        (side EdgeRelation.contradicts i) (count_side EdgeRelation.supports i)
        (count_side EdgeRelation.contradicts i) (risk_at i) (lane_statuses i.claim i.tasks)

  -- A claim is indeterminate exactly if it is maintained, not normative and past any forecast
  -- horizon, no basis counts in either direction, no required lane is blocked, and there is a
  -- required lane and each is settled by a competent search.
  pub assess-indeterminate_iff : ((assess i v).state ≡ AssessmentState.indeterminate) ↔ (
      (is_open i.claim i.horizon_reached ≡ true)
      × ((assess i v).supporting_bases ≡ 0)
      × ((assess i v).contradicting_bases ≡ 0)
      × ((assess i v).blocked_lanes ≡ [])
      × (is_filled (lane_statuses i.claim i.tasks) ≡ true)
      × (every (λ s. s.settled_competent) (lane_statuses i.claim i.tasks) ≡ true))
  unfolding assess conclude
  assess-indeterminate_iff =
      ladder-indeterminate_iff i.claim i.horizon_reached (side EdgeRelation.supports i)
        (side EdgeRelation.contradicts i) (count_side EdgeRelation.supports i)
        (count_side EdgeRelation.contradicts i) (risk_at i) (lane_statuses i.claim i.tasks)

first_of : (xs : List String) → is_filled xs ≡ true → (a : String) × (contains xs a ≡ true)
first_of [] h = cc
first_of (x ∷ xs) h = (x, ground (arith, eq_refl x))

count_empty :
    (basis_ids : List String) (i : EvidenceInput)
    → is_filled (sorted_ids basis_ids i.bases) ≡ false
    → (count_independent_bases basis_ids i.bases i.independence).0 ≡ 0
unfolding count_independent_bases
count_empty basis_ids i h = rw h

count_le_one :
    (basis_ids : List String) (i : EvidenceInput)
    → ((x y : String) → is_justified i.bases i.independence x y ≡ false)
    → (count_independent_bases basis_ids i.bases i.independence).0 ≤ 1
count_le_one basis_ids i h = elim (Bool-cases (is_filled (sorted_ids basis_ids i.bases))) [
  | inl full ↦
      let (a, m) = first_of (sorted_ids basis_ids i.bases) full in
      let inside = sym (contains-sorted_ids basis_ids i.bases a) ∙ m in
      omega (arith, count-unjustified basis_ids i.bases i.independence a inside h)
  | inr empty ↦ omega (arith, count_empty basis_ids i empty)
]

-- However many edges support a claim, it is not promoted while no recorded justification tells any
-- two of its bases apart, unless one record settles it alone.
pub assess-unjustified :
    (i : EvidenceInput) (v : String)
    → ((x y : String) → is_justified i.bases i.independence x y ≡ false)
    → settles_alone i.claim (side EdgeRelation.supports i) ≡ false
    → (assess i v).state ≢ AssessmentState.supported
unfolding count_side
assess-unjustified i v none_justified alone e = elim ((assess-supported_iff i v).0 e).3 [
  | inl settled ↦ cc
  | inr (two, _) ↦
      let ids = map (λ (e : EdgeEvent). e.basis_id) (side EdgeRelation.supports i) in
      absurd (
        omega
          (arith, count-eq-length ids i.bases i.independence, count_le_one ids i none_justified))
]
