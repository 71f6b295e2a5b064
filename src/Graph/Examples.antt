-- ===== src/Graph/Examples.antt =====
-- newz/graph/merge.py, runs on two edges of one claim.
use new_z.Prelude.{refl, true, false, none, some, List, [], ◌∷◌, String, text_lt, string_eq}
use new_z.Domain.Evidence.{SourceRole, ClaimKind, AssertionKind, EdgeRelation, RiskTier}
use new_z.Domain.Records.{Claim, EdgeEvent, SupersessionEvent}
use new_z.Graph.Merge.{repoint, in_scope, moves, is_consistent, split}
use new_z.Graph.Merge.Laws.{FollowsAssignment, split-FollowsAssignment}

abbrev edge : String → String → EdgeEvent
edge name claim_id = record {
  id = name;
  assertion_id = "a-1";
  claim_id = claim_id;
  relation = EdgeRelation.supports;
  basis_id = "b-1";
  role = SourceRole.primary_record;
  assertion_kind = AssertionKind.documented_event;
  risk = some RiskTier.r1;
  policy_version = some "1.0.0";
  admitted = true;
  live = true;
  refusal_reason = none;
  attestations = [];
  declared_scope = "";
  topic = "bridge";
  adjudicative_scope_covers_claim = none;
}

abbrev claim : Claim
claim = record {
  id = "c-9";
  kind = ClaimKind.event_or_observation;
  wording = "The bridge fell";
  risk = some RiskTier.r1;
  resolution_horizon = none;
  resolver = none;
  aliases = [];
  withdrawn = false;
}

abbrev edges : List EdgeEvent
edges = edge "e-1" "c-1" ∷ edge "e-2" "c-2" ∷ []

abbrev assignment : List (String × String)
assignment = ("e-1", "c-8") ∷ []

abbrev split_event : SupersessionEvent
split_event = record {
  id = "s-2";
  kind = "split";
  preimage_claim_ids = "c-1" ∷ [];
  successor_claim_ids = "c-8" ∷ [];
  reason = "two events";
}

split-FollowsAssignment_example :
    FollowsAssignment "c-1" assignment edges (repoint (edge "e-1" "c-1") "c-8" "+s" ∷ [])
unfolding split in_scope moves is_consistent repoint text_lt
split-FollowsAssignment_example =
    split-FollowsAssignment "c-1" assignment edges "two events" "s-2" split_event
      (repoint (edge "e-1" "c-1") "c-8" "+s" ∷ []) refl
