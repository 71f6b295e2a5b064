-- ===== src/Present/Dependencies.antt =====
-- newz/present/dependencies.py: whether what a card cites is still what it was.
pub mod Laws
use Prim.Native.Char.{code}
use new_z.Prelude.{
  ℕ, Bool, true, false, not, ◌&&◌, ◌||◌, Option, none, some, List, [], ◌∷◌, ◌++◌, map, String, ◌==◌,
  string_eq, nat_beq, if◌then◌else◌, text_lt, contains, is_filled, exists, select, sort_by,
  flat_map,
}
use new_z.Domain.Evidence.{
  AssessmentState, assessment_state_eq, assessment_state_value, RiskTier, risk_eq, risk_value,
}
use new_z.Domain.Records.{Assessment, Claim, EdgeEvent}
use new_z.Policy.Promotion.{◌⧺◌}
use new_z.Evidence.Assess.{AssessStore, current_assessment}
use new_z.Present.Cards.{CardRevision, Dependency, CardStore, find_revision}

pub record DependencyFailure : Type 0 where
  pub kind : String
  pub dependency_id : String
  pub reason : String

pub record DependencyReport : Type 0 where
  pub revision_id : String
  pub is_ok : Bool
  pub failures : List DependencyFailure

unfoldable pub find_edge : List EdgeEvent → String → Option EdgeEvent
find_edge [] id = none
find_edge (e ∷ es) id = if e.id == id then some e else find_edge es id

unfoldable pub find_claim : List Claim → String → Option Claim
find_claim [] id = none
find_claim (c ∷ cs) id = if c.id == id then some c else find_claim cs id

-- The first and the last part of `s.partition("@")`.
unfoldable pub before_at : String → String
before_at String.[] = ""
before_at (String.◌∷◌ c s) =
    let rest = before_at s in if nat_beq (code c) b'@' then "" else String.◌∷◌ c rest

unfoldable pub after_at : String → String
after_at String.[] = ""
after_at (String.◌∷◌ c s) = let rest = after_at s in if nat_beq (code c) b'@' then s else rest

abbrev failing : Dependency → String → List DependencyFailure
failing d reason = record { kind = d.kind; dependency_id = d.dependency_id; reason = reason } ∷ []

unfoldable pub edge_failure : Dependency → Option EdgeEvent → List DependencyFailure
edge_failure d none = failing d "edge no longer exists"
edge_failure d (some edge) =
    if not edge.live
    then failing d "edge withdrawn"
    else if not edge.admitted
    then failing d "edge not admitted"
    else []

unfoldable pub claim_failure : Dependency → Option Claim → List DependencyFailure
claim_failure d none = failing d "claim no longer exists"
claim_failure d (some claim) = if claim.withdrawn then failing d "claim withdrawn" else []

unfoldable pub assessment_failure :
    Dependency → AssessmentState → Option Assessment → List DependencyFailure
assessment_failure d state none = failing d "no assessment"
assessment_failure d state (some current) =
    if not (current.policy_version == after_at d.dependency_id)
    then failing d ("assessment now under policy " ⧺ current.policy_version)
    else if not (current.state == state)
    then failing d ("state is now " ⧺ assessment_state_value current.state)
    else []

-- The body of the loop, for a dependency of the row.
unfoldable pub failure_of : CardStore → CardRevision → Dependency → List DependencyFailure
failure_of store row d =
    if d.kind == "edge"
    then edge_failure d (find_edge store.evidence.edges.edge_events d.dependency_id)
    else if d.kind == "claim"
    then claim_failure d (find_claim store.evidence.edges.claims d.dependency_id)
    else if d.kind == "assessment"
    then assessment_failure d row.state
        (current_assessment store.evidence (before_at d.dependency_id))
    else if d.kind == "artifact"
    then (if contains store.artifacts d.dependency_id then [] else failing d "artifact missing")
    else []

-- `risk or "R3"`
abbrev pub risk_or_r3 : Option RiskTier → RiskTier
risk_or_r3 none = RiskTier.r3
risk_or_r3 (some tier) = tier

unfoldable pub risk_failure : CardRevision → Option Claim → List DependencyFailure
risk_failure row none = []
risk_failure row (some claim) =
    if not (risk_or_r3 claim.risk == row.risk)
    then record {
      kind = "risk";
      dependency_id = row.claim_id;
      reason = "risk is now " ⧺ risk_value (risk_or_r3 claim.risk);
    }
      ∷ []
    else []

-- The order of `ORDER BY kind, dependency_id`.
abbrev pub dependency_lt : Dependency → Dependency → Bool
dependency_lt d e =
    text_lt d.kind e.kind || d.kind == e.kind && text_lt d.dependency_id e.dependency_id

unfoldable pub failures_of : CardStore → CardRevision → List DependencyFailure
failures_of store row =
    flat_map (failure_of store row)
      (sort_by dependency_lt (select (λ d. d.card_revision_id == row.id) store.card_dependencies))
    ++ risk_failure row (find_claim store.evidence.edges.claims row.claim_id)

-- None is the KeyError of a revision that is not there.
unfoldable pub validate_dependencies : CardStore → String → Option DependencyReport
validate_dependencies store revision_id = elim (find_revision store.card_revisions revision_id) [
  | none ↦ none
  | some row ↦ some record {
    revision_id = revision_id;
    is_ok = not (is_filled (failures_of store row));
    failures = failures_of store row;
  }
]

-- The join of a dependency with its revision, which is live.
abbrev pub is_live_revision : CardStore → String → Bool
is_live_revision store id = exists (λ r. r.id == id && r.live) store.card_revisions

unfoldable pub dependents_of : CardStore → String → String → List String
dependents_of store kind dependency_id = sort_by text_lt (
    map (λ (d : Dependency). d.card_revision_id)
      (select
        (λ d.
          d.kind == kind
          && (d.dependency_id == dependency_id && is_live_revision store d.card_revision_id))
        store.card_dependencies))

unfoldable pub invalidate_dependents :
    CardStore → (kind dependency_id reason : String) → CardStore × List String
invalidate_dependents store kind dependency_id reason =
    let affected = dependents_of store kind dependency_id in
    if not (is_filled affected) then (store, []) else (
      record store { invalidated = store.invalidated ++ (dependency_id, reason, affected) ∷ [] },
      affected,
    )

unfoldable pub pending_rebuilds : CardStore → List String
pending_rebuilds store = sort_by text_lt (
    map (λ (r : CardRevision). r.id)
      (select (λ r. r.live && is_filled (failures_of store r)) store.card_revisions))
