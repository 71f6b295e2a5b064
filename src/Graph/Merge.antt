-- ===== src/Graph/Merge.antt =====
-- newz/graph/merge.py: merging claims into one and splitting one into several. An id with its suffix
-- is the concatenation; `assignment` is the dict of edge ids as a list of entries.
pub mod Laws
use Prim.Native.String.{◌++◌ as text_append}
use new_z.Prelude.{
  Bool, true, false, not, Option, none, some, List, [], ◌∷◌, map, String, ◌==◌, string_eq,
  if◌then◌else◌, is_some, is_filled, text_lt, get, contains, select, every, sort_by,
}
use new_z.Domain.Records.{EdgeEvent, SupersessionEvent}
use new_z.Policy.Independence.{distinct}

unfoldable pub repoint : EdgeEvent → String → String → EdgeEvent
repoint edge successor_claim_id suffix = record {
  id = text_append edge.id suffix;
  assertion_id = edge.assertion_id;
  claim_id = successor_claim_id;
  relation = edge.relation;
  basis_id = edge.basis_id;
  role = edge.role;
  assertion_kind = edge.assertion_kind;
  risk = edge.risk;
  policy_version = edge.policy_version;
  admitted = edge.admitted;
  live = edge.live;
  refusal_reason = edge.refusal_reason;
  attestations = edge.attestations;
  declared_scope = edge.declared_scope;
  topic = edge.topic;
  adjudicative_scope_covers_claim = edge.adjudicative_scope_covers_claim;
}

abbrev pub in_order : List EdgeEvent → List EdgeEvent
in_order edges = sort_by (λ e f. text_lt e.id f.id) edges

unfoldable pub merge :
    List String
    → String
    → List EdgeEvent
    → (reason event_id : String) → SupersessionEvent × List EdgeEvent
merge preimage_claim_ids successor_claim_id edges reason event_id =
    let preimages = sort_by text_lt preimage_claim_ids in
    let moved =
      map (λ e. repoint e successor_claim_id "+m")
        (select (λ e. contains preimages e.claim_id) (in_order edges)) in
    (
      record {
        id = event_id;
        kind = "merge";
        preimage_claim_ids = preimages;
        successor_claim_ids = successor_claim_id ∷ [];
        reason = reason;
      },
      moved,
    )

-- The edges of the claim that is split.
unfoldable pub in_scope : String → List EdgeEvent → List EdgeEvent
in_scope preimage_claim_id edges = select (λ e. e.claim_id == preimage_claim_id) (in_order edges)

-- `[repoint(e, assignment[e.id]) for e in in_scope]`: `none` where the assignment lacks an edge.
unfoldable pub moves : List (String × String) → List EdgeEvent → Option (List (String × EdgeEvent))
moves assignment [] = some []
moves assignment (e ∷ es) =
    let rest = moves assignment es in
    elim (get assignment e.id) [
      | none ↦ none
      | some successor ↦ elim rest [
        | none ↦ none
        | some moved ↦ some ((successor, repoint e successor "+s") ∷ moved)
      ]
    ]

-- The loop over `assignment.items()`: an edge id that is seen again with another successor refuses.
unfoldable pub is_consistent : List (String × String) → List (String × String) → Bool
is_consistent seen [] = true
is_consistent seen ((edge_id, successor) ∷ rest) =
    let next = is_consistent ((edge_id, successor) ∷ seen) rest in
    elim (get seen edge_id) [
      | none ↦ next
      | some other ↦ if other == successor then next else false
    ]

-- `none` is SplitRefused.
unfoldable pub split :
    String
    → List (String × String)
    → List EdgeEvent
    → (reason event_id : String) → Option (SupersessionEvent × List EdgeEvent)
split preimage_claim_id assignment edges reason event_id =
    elim (moves assignment (in_scope preimage_claim_id edges)) [
      | none ↦ none
      | some moved ↦
          if is_consistent [] assignment
          then some (
            record {
              id = event_id;
              kind = "split";
              preimage_claim_ids = preimage_claim_id ∷ [];
              successor_claim_ids = sort_by text_lt (distinct (map (λ m. m.0) moved));
              reason = reason;
            },
            map (λ m. m.1) moved,
          )
          else none
    ]
