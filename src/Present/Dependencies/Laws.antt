-- ===== src/Present/Dependencies/Laws.antt =====
-- When the dependencies of a revision fail, and what the withdrawal of an edge does to them.
use new_z.Prelude.{
  ◌≡◌, refl, sym, ap, ◌∙◌, arith, Bool, true, false, ◌&&◌, ◌||◌, none, some, List, [], ◌∷◌, map,
  String, ◌==◌, string_eq, nat_beq, if◌then◌else◌, length, is_filled, exists, select, sort_by,
  flat_map, exists-sort_by, exists-select, is_filled-flat_map, is_filled-append, Bool-cases, inl,
  inr,
}
use new_z.Domain.Records.{EdgeEvent}
use new_z.Evidence.Edges.{EdgeStore, withdraw_edge}
use new_z.Present.Cards.{CardRevision, Dependency, CardStore}
use new_z.Present.Dependencies.{
  find_edge, find_claim, edge_failure, failure_of, risk_failure, dependency_lt, failures_of,
}

-- A revision fails exactly if some dependency of it does, or its risk.
failures_of-is_filled :
    (store : CardStore) (row : CardRevision)
    → is_filled (failures_of store row) ≡ (
        exists
          (λ d. d.card_revision_id == row.id && is_filled (failure_of store row d))
          store.card_dependencies
        || is_filled (risk_failure row (find_claim store.evidence.edges.claims row.claim_id)))
unfolding failures_of
failures_of-is_filled store row =
    let mine = λ (d : Dependency). d.card_revision_id == row.id in
    let failed = λ (d : Dependency). is_filled (failure_of store row d) in
    let risk = risk_failure row (find_claim store.evidence.edges.claims row.claim_id) in
    let sorted = sort_by dependency_lt (select mine store.card_dependencies) in
    is_filled-append (flat_map (failure_of store row) sorted) risk
    ∙ ap (λ b. b || is_filled risk)
        (is_filled-flat_map (failure_of store row) sorted
          ∙ exists-sort_by dependency_lt failed (select mine store.card_dependencies)
          ∙ exists-select mine failed store.card_dependencies)

withdrawn-edge_failure :
    (d : Dependency) (edge_id : String) (es : List EdgeEvent)
    → is_filled (
        edge_failure d (
          find_edge
            (map
              (λ (e : EdgeEvent).
                if e.id == edge_id && e.live then record e { live = false } else e)
              es)
            edge_id))
      ≡ true
unfolding edge_failure find_edge
withdrawn-edge_failure d edge_id [] = refl
withdrawn-edge_failure d edge_id (e ∷ es) = ground (arith, withdrawn-edge_failure d edge_id es)

withdraw_edge-edge_events :
    (store store' : EdgeStore) (edge_id reason : String)
    → withdraw_edge store edge_id reason ≡ some store'
    → store'.edge_events
      ≡ map
          (λ (e : EdgeEvent). if e.id == edge_id && e.live then record e { live = false } else e)
          store.edge_events
unfolding withdraw_edge
withdraw_edge-edge_events store store' edge_id reason h =
    elim (Bool-cases (
      nat_beq (length (select (λ (e : EdgeEvent). e.id == edge_id && e.live) store.edge_events))
        1)) [
          | inl one ↦ sym (events_eq (rw (one, withdraw_edge) at h))
          | inr other ↦ none_left (rw (other, withdraw_edge) at h)
        ]
  where
    events_eq : {x : EdgeStore} → some x ≡ some store' → x.edge_events ≡ store'.edge_events
    events_eq k = cc

    none_left : {A : Type 0} → none ≡ some store' → A
    none_left k = cc

-- The store of the cards, after a write to the edges.
abbrev pub with_edges : CardStore → EdgeStore → CardStore
with_edges store edges = record store { evidence = record store.evidence { edges = edges } }

-- A dependency of a revision on an edge.
abbrev pub cites_edge : String → String → Dependency → Bool
cites_edge revision_id edge_id d =
    d.card_revision_id == revision_id && (d.kind == "edge" && d.dependency_id == edge_id)

exists_mono :
    (p q : Dependency → Bool) (ds : List Dependency)
    → ((d : Dependency) → p d ≡ true → q d ≡ true)
    → exists p ds ≡ true
    → exists q ds ≡ true
exists_mono p q [] h k = k
exists_mono p q (d ∷ ds) h k = ground (arith, h d, exists_mono p q ds h)

-- After the withdrawal of an edge that a revision cites, the dependencies of the revision fail.
pub withdraw_edge-failures_of :
    (store : CardStore) (edges' : EdgeStore) (row : CardRevision) (edge_id reason : String)
    → exists (cites_edge row.id edge_id) store.card_dependencies ≡ true
    → withdraw_edge store.evidence.edges edge_id reason ≡ some edges'
    → is_filled (failures_of (with_edges store edges') row) ≡ true
unfolding failure_of
withdraw_edge-failures_of store edges' row edge_id reason cited h =
    let s = with_edges store edges' in
    let some_fails =
      exists_mono (cites_edge row.id edge_id)
        (λ d. d.card_revision_id == row.id && is_filled (failure_of s row d))
        store.card_dependencies one_fails cited in
    failures_of-is_filled s row ∙ rw some_fails refl
  where
    one_fails :
        (d : Dependency)
        → cites_edge row.id edge_id d ≡ true
        → (d.card_revision_id == row.id && is_filled (failure_of (with_edges store edges') row d))
          ≡ true
    one_fails d k = ground (
      arith,
      string_eq.beq_iff d.dependency_id edge_id,
      withdrawn-edge_failure d edge_id store.evidence.edges.edge_events,
      ap (λ es. is_filled (edge_failure d (find_edge es edge_id)))
          (withdraw_edge-edge_events store.evidence.edges edges' edge_id reason h),
    )
