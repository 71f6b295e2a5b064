-- ===== src/Policy/Promotion/Symmetry.antt =====
-- The assessment under the exchange of `supports` and `contradicts` on every edge.
use new_z.Prelude.{
  ℕ, ◌≡◌, refl, sym, ap, ◌∙◌, Bool, ◌&&◌, Option, none, some, List, [], ◌∷◌, ◌++◌, map, arith,
  String, ◌==◌, string_eq, if◌then◌else◌, text_lt, get, exists, select, sort_by, is_filled, length,
  contains, select-map, select_congr, sort_by-map, exists-map,
}
use new_z.Domain.Evidence.{
  SourceRole, ClaimKind, AssertionKind, EdgeRelation, AssessmentState, relation_eq, role_eq,
  RiskTier,
}
use new_z.Domain.Records.{Assertion, Basis, Claim, EdgeEvent}
use new_z.Policy.Rules.{
  Cell, role_capability, is_countable_relation, strong_provenance_roles, direct_record_roles,
}
use new_z.Policy.Rules.Table.{in_table}
use new_z.Policy.Matrix.{permits}
use new_z.Policy.Matrix.Laws.{permits-eq-in_table}
use new_z.Policy.Admission.{evaluate_edge, refusal, role_of, kind_of, is_live}
use Prim.Native.Nat.{max}
use new_z.Policy.Risk.{rank}
use new_z.Policy.Risk.Laws.{rank_inj, top, top-cons, top-nil, top-append, rank-maximum-top}
use new_z.Policy.Independence.{count_independent_bases}
use new_z.Policy.LaneStatus.{LaneStatus, lane_statuses}
use new_z.Policy.Promotion.{
  EvidenceInput, known_risks, risk_of, effective_risk, is_true, settles_alone, group_roles,
  groups_with, meets_threshold, countable, side, count_side, ladder, conclude_empty, conclude,
  assess,
}

abbrev pub flip : EdgeRelation → EdgeRelation
flip EdgeRelation.supports = EdgeRelation.contradicts
flip EdgeRelation.contradicts = EdgeRelation.supports
flip EdgeRelation.claimant_says = EdgeRelation.claimant_says
flip EdgeRelation.contextualizes = EdgeRelation.contextualizes

abbrev pub flip_edge : EdgeEvent → EdgeEvent
flip_edge e = record e { relation = flip e.relation }

abbrev pub flip_edges : EvidenceInput → EvidenceInput
flip_edges i = record i { edges = map flip_edge i.edges }

permits-flip :
    (r : SourceRole) (k : ClaimKind) (a : AssertionKind) (e : EdgeRelation)
    → permits r k a (flip e) ≡ permits r k a e
unfolding role_capability is_countable_relation
permits-flip r k a e = permits-eq-in_table r k a (flip e) ∙ go e ∙ sym (permits-eq-in_table r k a e)
  where
    go :
        (e : EdgeRelation)
        → let cell = λ (e : EdgeRelation).
          let c : Cell = record { role = r; claim_kind = k; assertion_kind = a; relation = e } in
          c in
          in_table (cell (flip e)) ≡ in_table (cell e)
    go EdgeRelation.supports = refl
    go EdgeRelation.contradicts = refl
    go EdgeRelation.claimant_says = refl
    go EdgeRelation.contextualizes = refl

-- An edge is admitted under one direction exactly if it is under the other.
admitted-flip :
    (edge : EdgeEvent) (claim : Claim) (assertion : Option Assertion) (basis : Option Basis)
    → (evaluate_edge (flip_edge edge) claim assertion basis).admitted
      ≡ (evaluate_edge edge claim assertion basis).admitted
unfolding evaluate_edge refusal role_of kind_of is_live
admitted-flip edge claim none basis = refl
admitted-flip edge claim (some a) basis =
    ground (arith, permits-flip a.role claim.kind a.kind edge.relation)

is_countable_relation-flip :
    (e : EdgeRelation) → is_countable_relation (flip e) ≡ is_countable_relation e
unfolding is_countable_relation
is_countable_relation-flip e = ground arith

countable-flip : (i : EvidenceInput) → countable (flip_edges i) ≡ map flip_edge (countable i)
unfolding countable
countable-flip i =
    ap (select counts) (sort_by-map (λ e f. text_lt e.id f.id) flip_edge (λ x y. refl) i.edges)
    ∙ select-map counts flip_edge sorted
    ∙ ap (map flip_edge) (select_congr (λ e. counts (flip_edge e)) counts sorted counts-flip)
  where
    sorted : List EdgeEvent
    sorted = sort_by (λ e f. text_lt e.id f.id) i.edges

    counts : EdgeEvent → Bool
    counts e =
        is_countable_relation e.relation
        && (evaluate_edge e i.claim (get i.assertions e.assertion_id)
            (get i.bases e.basis_id)).admitted

    counts-flip : (e : EdgeEvent) → counts (flip_edge e) ≡ counts e
    counts-flip e = ground (
      arith,
      is_countable_relation-flip e.relation,
      admitted-flip e i.claim (get i.assertions e.assertion_id) (get i.bases e.basis_id),
    )

relation-flip : (e f : EdgeRelation) → (flip e == f) ≡ (e == flip f)
relation-flip e f = ground arith

side-flip :
    (r : EdgeRelation) (i : EvidenceInput) → side r (flip_edges i) ≡ map flip_edge (side (flip r) i)
unfolding side
side-flip r i =
    ap (select (λ (e : EdgeEvent). e.relation == r)) (countable-flip i)
    ∙ select-map (λ (e : EdgeEvent). e.relation == r) flip_edge (countable i)
    ∙ ap (map flip_edge) (
        select_congr (λ (e : EdgeEvent). flip e.relation == r)
          (λ (e : EdgeEvent). e.relation == flip r) (countable i) (λ e. relation-flip e.relation r))

basis_ids-flip :
    (es : List EdgeEvent)
    → map (λ (e : EdgeEvent). e.basis_id) (map flip_edge es)
      ≡ map (λ (e : EdgeEvent). e.basis_id) es
basis_ids-flip [] = refl
basis_ids-flip (e ∷ es) = ap (λ l. e.basis_id ∷ l) (basis_ids-flip es)

count_side-flip :
    (r : EdgeRelation) (i : EvidenceInput) → count_side r (flip_edges i) ≡ count_side (flip r) i
unfolding count_side
count_side-flip r i =
    ap (λ ids. count_independent_bases ids i.bases i.independence)
      (ap (map (λ (e : EdgeEvent). e.basis_id)) (side-flip r i) ∙ basis_ids-flip (side (flip r) i))

known_risks-flip : (es : List EdgeEvent) → known_risks (map flip_edge es) ≡ known_risks es
known_risks-flip [] = refl
known_risks-flip (e ∷ es) = ground (arith, known_risks-flip es)

is_filled-flip : (es : List EdgeEvent) → is_filled (map flip_edge es) ≡ is_filled es
is_filled-flip [] = refl
is_filled-flip (e ∷ es) = refl

settles_alone-flip :
    (claim : Claim) (es : List EdgeEvent)
    → settles_alone claim (map flip_edge es) ≡ settles_alone claim es
unfolding settles_alone
settles_alone-flip claim es = rw (
  is_filled-flip es,
  exists-map
      (λ (e : EdgeEvent).
        e.role == SourceRole.adjudicator && is_true e.adjudicative_scope_covers_claim)
      flip_edge es,
)

roles-flip :
    (es : List EdgeEvent) (b : String)
    → map (λ (e : EdgeEvent). e.role) (select (λ e. e.basis_id == b) (map flip_edge es))
      ≡ map (λ (e : EdgeEvent). e.role) (select (λ e. e.basis_id == b) es)
roles-flip [] b = refl
roles-flip (e ∷ es) b = ground (arith, roles-flip es b)

group_roles-flip :
    (es : List EdgeEvent) (g : List String) → group_roles (map flip_edge es) g ≡ group_roles es g
group_roles-flip es [] = refl
group_roles-flip es (b ∷ bs) = cc (roles-flip es b, group_roles-flip es bs)

groups_with-flip :
    (roles : List SourceRole) (es : List EdgeEvent) (groups : List (List String))
    → groups_with roles (map flip_edge es) groups ≡ groups_with roles es groups
unfolding groups_with
groups_with-flip roles es groups = ap length (
    select_congr (λ g. exists (λ r. contains roles r) (group_roles (map flip_edge es) g))
      (λ g. exists (λ r. contains roles r) (group_roles es g)) groups
      (λ g. ap (exists (λ r. contains roles r)) (group_roles-flip es g)))

meets_threshold-flip :
    (claim : Claim) (es : List EdgeEvent) (groups : List (List String)) (risk : RiskTier)
    → meets_threshold claim (map flip_edge es) groups risk ≡ meets_threshold claim es groups risk
unfolding meets_threshold
meets_threshold-flip claim es groups risk = rw (
  is_filled-flip es,
  settles_alone-flip claim es,
  groups_with-flip strong_provenance_roles es groups,
  groups_with-flip direct_record_roles es groups,
)

known_risks-append :
    (es fs : List EdgeEvent) → known_risks (es ++ fs) ≡ known_risks es ++ known_risks fs
known_risks-append [] fs = refl
known_risks-append (e ∷ es) fs = ground (arith, known_risks-append es fs)

-- The rank of the effective risk, by the tiers that the edges know.
abbrev rank_of : Option RiskTier → List RiskTier → ℕ
rank_of (some t) known = max (rank t) (top known)
rank_of none known = if is_filled known then top known else rank RiskTier.r3

rank-risk_of :
    (r : Option RiskTier) (known : List RiskTier) → rank (risk_of r known) ≡ rank_of r known
rank-risk_of (some tier) [] = omega (arith, top-nil)
rank-risk_of (some tier) (t ∷ ts) = rank-maximum-top tier (t ∷ ts)
rank-risk_of none [] = refl
rank-risk_of none (t ∷ ts) = rank-maximum-top t ts ∙ sym (top-cons t ts)

is_filled-append_comm : {A : Type 0} (xs ys : List A) → is_filled (xs ++ ys) ≡ is_filled (ys ++ xs)
is_filled-append_comm [] [] = refl
is_filled-append_comm [] (y ∷ ys) = refl
is_filled-append_comm (x ∷ xs) [] = refl
is_filled-append_comm (x ∷ xs) (y ∷ ys) = refl

top-append_comm : (ts us : List RiskTier) → top (ts ++ us) ≡ top (us ++ ts)
top-append_comm ts us = omega (arith, top-append ts us, top-append us ts)

rank_of-append_comm :
    (r : Option RiskTier) (ts us : List RiskTier) → rank_of r (ts ++ us) ≡ rank_of r (us ++ ts)
rank_of-append_comm (some t) ts us = ap (max (rank t)) (top-append_comm ts us)
rank_of-append_comm none ts us = rw (is_filled-append_comm ts us, top-append_comm ts us)

effective_risk_comm :
    (claim : Claim) (es fs : List EdgeEvent)
    → effective_risk claim (es ++ fs) ≡ effective_risk claim (fs ++ es)
unfolding effective_risk
effective_risk_comm claim es fs = rank_inj _ _ (
    rank-risk_of claim.risk (known_risks (es ++ fs))
    ∙ ap (rank_of claim.risk) (known_risks-append es fs)
    ∙ rank_of-append_comm claim.risk (known_risks es) (known_risks fs)
    ∙ ap (rank_of claim.risk) (sym (known_risks-append fs es))
    ∙ sym (rank-risk_of claim.risk (known_risks (fs ++ es))))

effective_risk-flip :
    (claim : Claim) (es : List EdgeEvent)
    → effective_risk claim (map flip_edge es) ≡ effective_risk claim es
unfolding effective_risk
effective_risk-flip claim es = rw (known_risks-flip es)

-- What an assessment becomes under the exchange.
abbrev pub dual : AssessmentState → AssessmentState
dual AssessmentState.supported = AssessmentState.refuted
dual AssessmentState.refuted = AssessmentState.supported
dual AssessmentState.provisional_support = AssessmentState.provisional_contradiction
dual AssessmentState.provisional_contradiction = AssessmentState.provisional_support
dual AssessmentState.reported = AssessmentState.reported
dual AssessmentState.contested = AssessmentState.contested
dual AssessmentState.indeterminate = AssessmentState.indeterminate
dual AssessmentState.withdrawn = AssessmentState.withdrawn

map-append_flip :
    (es fs : List EdgeEvent) → map flip_edge (es ++ fs) ≡ map flip_edge es ++ map flip_edge fs
map-append_flip [] fs = refl
map-append_flip (e ∷ es) fs = ap (λ l. flip_edge e ∷ l) (map-append_flip es fs)

mixed_risk-flip :
    (claim : Claim) (s c : List EdgeEvent)
    → effective_risk claim (map flip_edge c ++ map flip_edge s) ≡ effective_risk claim (s ++ c)
mixed_risk-flip claim s c =
    ap (effective_risk claim) (sym (map-append_flip c s))
    ∙ effective_risk-flip claim (c ++ s)
    ∙ effective_risk_comm claim c s

ladder-flip :
    (claim : Claim) (horizon : Bool) (s c : List EdgeEvent) (ns nc : ℕ × List (List String))
    (risk : RiskTier) (statuses : List LaneStatus)
    → (ladder claim horizon (map flip_edge c) (map flip_edge s) nc ns risk statuses).0
      ≡ dual (ladder claim horizon s c ns nc risk statuses).0
unfolding ladder conclude_empty
ladder-flip claim horizon s c ns nc risk statuses =
    ground (arith, meets_threshold-flip claim s ns.1 risk, meets_threshold-flip claim c nc.1 risk)

conclude-flip : (i : EvidenceInput) → (conclude (flip_edges i)).0 ≡ dual (conclude i).0
unfolding conclude
conclude-flip i =
    rw
      (
        side-flip EdgeRelation.supports i,
        side-flip EdgeRelation.contradicts i,
        count_side-flip EdgeRelation.supports i,
        count_side-flip EdgeRelation.contradicts i,
        mixed_risk-flip i.claim (side EdgeRelation.supports i) (side EdgeRelation.contradicts i),
      )
      (ladder-flip i.claim i.horizon_reached (side EdgeRelation.supports i)
        (side EdgeRelation.contradicts i) (count_side EdgeRelation.supports i)
        (count_side EdgeRelation.contradicts i)
        (effective_risk i.claim (side EdgeRelation.supports i ++ side EdgeRelation.contradicts i))
        (lane_statuses i.claim i.tasks))

ids-flip :
    (es : List EdgeEvent)
    → map (λ (e : EdgeEvent). e.id) (map flip_edge es) ≡ map (λ (e : EdgeEvent). e.id) es
ids-flip [] = refl
ids-flip (e ∷ es) = ap (λ l. e.id ∷ l) (ids-flip es)

-- Exchanging `supports` and `contradicts` on every edge exchanges the two counts and turns the state
-- into its mirror image (supported and refuted, the provisional states likewise, the others fixed);
-- the blocked lanes and the countable edges stay.
pub assess-flip :
    (i : EvidenceInput) (v : String)
    → ((assess (flip_edges i) v).state ≡ dual (assess i v).state)
      × ((assess (flip_edges i) v).supporting_bases ≡ (assess i v).contradicting_bases)
      × ((assess (flip_edges i) v).contradicting_bases ≡ (assess i v).supporting_bases)
      × ((assess (flip_edges i) v).blocked_lanes ≡ (assess i v).blocked_lanes)
      × ((assess (flip_edges i) v).countable_edge_ids ≡ (assess i v).countable_edge_ids)
unfolding assess
assess-flip i v = (
  conclude-flip i,
  ap (λ (r : ℕ × List (List String)). r.0) (count_side-flip EdgeRelation.supports i),
  ap (λ (r : ℕ × List (List String)). r.0) (count_side-flip EdgeRelation.contradicts i),
  refl,
  ap (map (λ (e : EdgeEvent). e.id)) (countable-flip i) ∙ ids-flip (countable i),
)
