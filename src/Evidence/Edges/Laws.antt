-- ===== src/Evidence/Edges/Laws.antt =====
-- What is loaded after an edge is admitted or withdrawn.
use new_z.Prelude.{
  ◌≡◌, refl, sym, ap, ◌∙◌, arith, Bool, false, not, ◌&&◌, ◌||◌, none, some, [], ◌∷◌, ◌++◌, String,
  ◌==◌, string_eq, if◌then◌else◌, text_lt, nat_beq, exists, select, sort_by, length, get, is_some,
  exists-map, exists-sort_by, exists-append_one, exists_congr, exists-select, if_elim, Bool-cases,
  Option-cases, inl, inr,
}
use mathlib.Core.Path.{subst}
use new_z.Domain.Records.{Assertion, Claim, EdgeEvent}
use new_z.Policy.Admission.{AdmissionResult, evaluate_edge}
use new_z.Evidence.Edges.{
  EdgeStore, Proposed, Admit, load_assertion, load_claim, edge_of, row_of, record_edge, admit_edge,
  withdraw_edge, loaded, load_edges,
}

-- An edge of the claim that counts, and passes a test as it is loaded.
abbrev counts : (EdgeEvent → Bool) → String → EdgeEvent → Bool
counts q claim_id e = (e.claim_id == claim_id && (e.live && e.admitted)) && q (loaded e)

exists-load_edges :
    (q : EdgeEvent → Bool) (store : EdgeStore) (claim_id : String)
    → exists q (load_edges store claim_id) ≡ exists (counts q claim_id) store.edge_events
unfolding load_edges
exists-load_edges q store claim_id =
    let mine = select (λ e. e.claim_id == claim_id && (e.live && e.admitted)) store.edge_events in
    exists-map q loaded (sort_by (λ e f. text_lt e.id f.id) mine)
    ∙ exists-sort_by (λ e f. text_lt e.id f.id) (λ e. q (loaded e)) mine
    ∙ exists-select (λ e. e.claim_id == claim_id && (e.live && e.admitted)) (λ e. q (loaded e))
        store.edge_events

-- The recorded edge is what the evaluation of it made.
abbrev pub IsEvaluated : EdgeStore → Proposed → EdgeEvent → AdmissionResult → Type 0
IsEvaluated store p edge result =
    (claim : Claim) × (assertion : Assertion) × (load_claim store.claims p.claim_id ≡ some claim)
    × (load_assertion store p.assertion_id ≡ some assertion)
    × (result
        ≡ evaluate_edge (edge_of p assertion) claim (some assertion) (get store.bases p.basis_id))
    × (edge ≡ record (row_of (edge_of p assertion) result) { attestations = result.attestations })

-- What admission does to the store.
IsAdmitted : EdgeStore → Proposed → EdgeStore × Admit → Type 0
IsAdmitted store p (store', Admit.key_error key) = store' ≡ store
IsAdmitted store p (store', Admit.integrity_error) = store' ≡ store
IsAdmitted store p (store', Admit.recorded edge result) =
    IsEvaluated store p edge result
    × (store'.edge_events ≡ store.edge_events ++ record edge { attestations = [] } ∷ [])

admit_edge-IsAdmitted : (store : EdgeStore) (p : Proposed) → IsAdmitted store p (admit_edge store p)
unfolding admit_edge IsAdmitted record_edge edge_of
admit_edge-IsAdmitted store p = elim (Option-cases (load_claim store.claims p.claim_id)) [
  | inl missing ↦ back (store, Admit.key_error p.claim_id) (rw (missing, admit_edge) refl) refl
  | inr (claim, there) ↦ elim (Option-cases (load_assertion store p.assertion_id)) [
    | inl missing ↦
        back (store, Admit.key_error p.assertion_id) (rw (there, missing, admit_edge) refl) refl
    | inr (assertion, here) ↦
        let edge = edge_of p assertion in
        let result = evaluate_edge edge claim (some assertion) (get store.bases p.basis_id) in
        elim (Bool-cases (
          exists (λ e. e.id == p.edge_id) store.edge_events
          || not (is_some (get store.bases p.basis_id)))) [
            | inl taken ↦
                back (store, Admit.integrity_error) (rw (there, here, taken, admit_edge) refl) refl
            | inr free ↦
                back
                  (
                    record_edge store edge result,
                    Admit.recorded
                        (record (row_of edge result) { attestations = result.attestations }) result,
                  )
                  (rw (there, here, free, admit_edge) refl)
                  ((claim, assertion, there, here, refl, refl), refl)
          ]
  ]
]
  where
    back :
        (made : EdgeStore × Admit)
        → admit_edge store p ≡ made
        → IsAdmitted store p made
        → IsAdmitted store p (admit_edge store p)
    back made same h = subst (IsAdmitted store p) (sym same) h

-- An edge that is admitted is loaded for its claim exactly if its evaluation admits it, and what else
-- is loaded, for this claim or another, stays: a test holds of some edge that is loaded afterwards
-- if it held of one before, or if it holds of the new edge.
pub admit_edge-load_edges :
    (store : EdgeStore) (p : Proposed) (store' : EdgeStore) (edge : EdgeEvent)
    (result : AdmissionResult)
    → admit_edge store p ≡ (store', Admit.recorded edge result)
    → IsEvaluated store p edge result
      × ((q : EdgeEvent → Bool) (claim_id : String)
          → exists q (load_edges store' claim_id) ≡ (
              exists q (load_edges store claim_id)
              || edge.claim_id == claim_id && (edge.live && edge.admitted) && q (loaded edge)))
unfolding IsAdmitted
admit_edge-load_edges store p store' edge result h =
    let (evaluated, appended) = subst (IsAdmitted store p) h (admit_edge-IsAdmitted store p) in
    (
      evaluated,
      λ q claim_id.
          exists-load_edges q store' claim_id
          ∙ ap (exists (counts q claim_id)) appended
          ∙ exists-append_one (counts q claim_id) store.edge_events
              (record edge { attestations = [] })
          ∙ ap (λ b. b || counts q claim_id edge) (sym (exists-load_edges q store claim_id)),
    )

-- The edge as it stands after the withdrawal.
abbrev withdrawn : String → EdgeEvent → EdgeEvent
withdrawn edge_id e = if e.id == edge_id && e.live then record e { live = false } else e

counts-withdrawn :
    (q : EdgeEvent → Bool) (claim_id edge_id : String) (e : EdgeEvent)
    → counts q claim_id (withdrawn edge_id e)
      ≡ counts (λ x. not (x.id == edge_id) && q x) claim_id e
counts-withdrawn q claim_id edge_id e =
    if_elim (λ x. counts q claim_id x ≡ counts (λ x. not (x.id == edge_id) && q x) claim_id e)
      (e.id == edge_id && e.live) (λ hit. ground (arith, hit)) (λ miss. ground (arith, miss))

-- A withdrawal that returns leaves out the edge, for every claim, and nothing else.
pub withdraw_edge-load_edges :
    (q : EdgeEvent → Bool) (store store' : EdgeStore) (edge_id reason claim_id : String)
    → withdraw_edge store edge_id reason ≡ some store'
    → exists q (load_edges store' claim_id)
      ≡ exists (λ e. not (e.id == edge_id) && q e) (load_edges store claim_id)
unfolding withdraw_edge
withdraw_edge-load_edges q store store' edge_id reason claim_id h =
    elim (Bool-cases (
      nat_beq (length (select (λ (e : EdgeEvent). e.id == edge_id && e.live) store.edge_events))
        1)) [
          | inr other ↦ missing (rw (other, withdraw_edge) at h)
          | inl one ↦
              let same = the_events (rw (one, withdraw_edge) at h) in
              exists-load_edges q store' claim_id
              ∙ ap (exists (counts q claim_id)) (sym same)
              ∙ exists-map (counts q claim_id) (withdrawn edge_id) store.edge_events
              ∙ exists_congr (λ e. counts q claim_id (withdrawn edge_id e))
                  (counts (λ x. not (x.id == edge_id) && q x) claim_id) store.edge_events
                  (counts-withdrawn q claim_id edge_id)
              ∙ sym (exists-load_edges (λ e. not (e.id == edge_id) && q e) store claim_id)
        ]
  where
    missing : {A : Type 0} → none ≡ some store' → A
    missing k = cc

    the_events : {x : EdgeStore} → some x ≡ some store' → x.edge_events ≡ store'.edge_events
    the_events k = cc
