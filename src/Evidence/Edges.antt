-- ===== src/Evidence/Edges.antt =====
-- newz/evidence/edges.py: an edge is evaluated, and the event is recorded with its attestations. The
-- bases are those that `load_bases` gives.
pub mod Laws
use new_z.Prelude.{
  ℕ, Bool, true, false, not, ◌&&◌, ◌||◌, Option, none, some, List, [], ◌∷◌, ◌++◌, map, String, ◌==◌,
  string_eq, if◌then◌else◌, text_lt, nat_beq, exists, select, sort_by, length, get, is_some,
}
use new_z.Domain.Int.{ℤ}
use new_z.Domain.Evidence.{SourceRole, AssertionKind, EdgeRelation, RiskTier}
use new_z.Domain.Admission.{RefusalReason}
use new_z.Domain.Records.{Span, Assertion, Claim, Basis, PredicateAttestation, EdgeEvent}
use new_z.Domain.Version.{current_policy_version}
use new_z.Policy.Admission.{AdmissionResult, evaluate_edge}

-- A row of the table of assertions.
pub record AssertionRow : Type 0 where
  pub id : String
  pub artifact_id : String
  pub segment_id : String
  pub source_revision_id : String
  pub kind : AssertionKind
  pub quote : String
  pub offset_start : ℤ
  pub offset_end : ℤ
  pub locator : String
  pub live : Bool

-- The tables that are read and written here. `roles` are the roles of the source revisions, an edge
-- event is a row without its attestations, and `outbox` holds the kind, the subject and the reason.
pub record EdgeStore : Type 0 where
  pub assertions : List AssertionRow
  pub roles : List (String × SourceRole)
  pub claims : List Claim
  pub bases : List (String × Basis)
  pub edge_events : List EdgeEvent
  pub predicate_attestations : List (String × PredicateAttestation)
  pub outbox : List (String × String × String)

unfoldable pub find_assertion : List AssertionRow → String → Option AssertionRow
find_assertion [] id = none
find_assertion (row ∷ rows) id = if row.id == id then some row else find_assertion rows id

unfoldable pub load_assertion : EdgeStore → String → Option Assertion
load_assertion store assertion_id = elim (find_assertion store.assertions assertion_id) [
  | none ↦ none
  | some row ↦ elim (get store.roles row.source_revision_id) [
    | none ↦ none
    | some role ↦ some record {
      id = row.id;
      kind = row.kind;
      spans =
          record {
            artifact_id = row.artifact_id;
            segment_id = row.segment_id;
            start = row.offset_start;
            end = row.offset_end;
            quote = row.quote;
            locator = row.locator;
            verified = true;
          }
          ∷ [];
      source_revision_id = row.source_revision_id;
      role = role;
      declared_scope = "";
      live = row.live;
    }
  ]
]

-- Aliases are not read.
unfoldable pub load_claim : List Claim → String → Option Claim
load_claim [] claim_id = none
load_claim (claim ∷ rest) claim_id =
    if claim.id == claim_id then some (record claim { aliases = [] }) else load_claim rest claim_id

-- The arguments of `admit_edge`.
pub record Proposed : Type 0 where
  pub edge_id : String
  pub assertion_id : String
  pub claim_id : String
  pub relation : EdgeRelation
  pub basis_id : String
  pub risk : Option RiskTier
  pub declared_scope : String
  pub topic : String
  pub adjudicative_scope_covers_claim : Option Bool
  pub policy_version : String

-- The edge that is evaluated.
unfoldable pub edge_of : Proposed → Assertion → EdgeEvent
edge_of p assertion = record {
  id = p.edge_id;
  assertion_id = p.assertion_id;
  claim_id = p.claim_id;
  relation = p.relation;
  basis_id = p.basis_id;
  role = assertion.role;
  assertion_kind = assertion.kind;
  risk = p.risk;
  policy_version = some p.policy_version;
  admitted = false;
  live = true;
  refusal_reason = none;
  attestations = [];
  declared_scope = p.declared_scope;
  topic = p.topic;
  adjudicative_scope_covers_claim = p.adjudicative_scope_covers_claim;
}

-- The recorded edge with its result, a KeyError with its key, or the IntegrityError of an edge id
-- that is taken or of a basis that is not in the table.
pub data Admit : Type 0 where
  recorded : EdgeEvent → AdmissionResult → Admit
  key_error : String → Admit
  integrity_error : Admit

-- The row of an edge and its result.
abbrev pub row_of : EdgeEvent → AdmissionResult → EdgeEvent
row_of edge result = record edge { admitted = result.admitted; refusal_reason = result.reason }

-- The inserts.
unfoldable pub record_edge : EdgeStore → EdgeEvent → AdmissionResult → EdgeStore
record_edge store edge result = record store {
  edge_events = store.edge_events ++ row_of edge result ∷ [];
  predicate_attestations =
      store.predicate_attestations ++ map (λ a. (edge.id, a)) result.attestations;
}

unfoldable pub admit_edge : EdgeStore → Proposed → EdgeStore × Admit
admit_edge store p = elim (load_claim store.claims p.claim_id) [
  | none ↦ (store, Admit.key_error p.claim_id)
  | some claim ↦ elim (load_assertion store p.assertion_id) [
    | none ↦ (store, Admit.key_error p.assertion_id)
    | some assertion ↦
        let edge = edge_of p assertion in
        let result = evaluate_edge edge claim (some assertion) (get store.bases p.basis_id) in
        if exists (λ e. e.id == p.edge_id) store.edge_events
          || not (is_some (get store.bases p.basis_id))
        then (store, Admit.integrity_error)
        else (
          record_edge store edge result,
          Admit.recorded (record (row_of edge result) { attestations = result.attestations })
              result,
        )
  ]
]

-- None is the KeyError of an edge that is not live.
unfoldable pub withdraw_edge : EdgeStore → String → String → Option EdgeStore
withdraw_edge store edge_id reason =
    let is_live = (λ (e : EdgeEvent). e.id == edge_id && e.live) in
    let rowcount = length (select is_live store.edge_events) in
    if nat_beq rowcount 1
    then some (record store {
      edge_events =
          map (λ (e : EdgeEvent). if is_live e then record e { live = false } else e)
            store.edge_events;
      outbox = store.outbox ++ ("edge_withdrawn", edge_id, reason) ∷ [];
    })
    else none

-- A loaded edge has no refusal and no attestations.
abbrev pub loaded : EdgeEvent → EdgeEvent
loaded e = record e { refusal_reason = none; attestations = [] }

unfoldable pub load_edges : EdgeStore → String → List EdgeEvent
load_edges store claim_id = map loaded (
    sort_by (λ e f. text_lt e.id f.id)
      (select (λ e. e.claim_id == claim_id && (e.live && e.admitted)) store.edge_events))
