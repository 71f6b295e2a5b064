-- ===== src/Publish/Publication/Contents.antt =====
-- The content of the pages, through any interleaving.
use new_z.Prelude.{◌≡◌, refl, sym, ap, ◌∙◌, ℕ, Option, String, string_eq, inl, inr}
use mathlib.Core.Path.{subst}
use new_z.Present.Cards.{Card, CardStore, find_revision}
use new_z.Publish.Surface.{Surface, serve}
use new_z.Publish.Tables.{Publication, PublishStore}
use new_z.Publish.Clearance.{clear, halt_class, clear_halt}
use new_z.Publish.Publication.{
  publish, confirm_publication, correct, retract, confirm_revocation,
  halt_classes_with_overdue_revocations,
}
use new_z.Publish.Publication.Kept.{
  confirm_publication-Confirms, clear-ClearsOne, confirm_revocation-KeepsAll,
  halt_classes_with_overdue_revocations-KeepsAll,
}
use new_z.Publish.Publication.Publishes.{Publishes, publish-Publishes}
use new_z.Publish.Publication.Revokes.{Revokes, correct-Revokes, retract-Revokes}
use new_z.Publish.Publication.Steps.{State, Step, Reaches}
use new_z.Publish.Publication.Cleared.{find_revision-id, same-StillFound}
use new_z.Publish.Publication.Shown.{
  AreOfRevisions, serve-AreOfRevisions, Shows-AreOfRevisions, StillFound-AreOfRevisions,
}

-- Each page is that of a revision.
abbrev pub ShowsRevisions : State → Type 0
ShowsRevisions u = AreOfRevisions u.store.cards.card_revisions u.surface.pages

same_cards-ShowsRevisions :
    (u : State) (t : PublishStore)
    → t.cards ≡ u.store.cards
    → ShowsRevisions u
    → ShowsRevisions (record u { store = t })
same_cards-ShowsRevisions u t same =
    StillFound-AreOfRevisions u.store.cards.card_revisions t.cards.card_revisions u.surface.pages (
      same-StillFound u.store.cards.card_revisions t.cards.card_revisions
        (ap (λ (c : CardStore). c.card_revisions) same))

Publishes-ShowsRevisions :
    (u : State) (t : PublishStore) (surface : Surface) (result : Option Publication)
    → Publishes u.store u.surface (t, surface, result)
    → ShowsRevisions u
    → ShowsRevisions (record { store = t; surface = surface })
Publishes-ShowsRevisions u t surface result ((cards, _), inl (_, same)) h =
    subst (λ (s : Surface). ShowsRevisions (record { store = t; surface = s })) (sym same)
      (same_cards-ShowsRevisions u t cards h)
Publishes-ShowsRevisions u t surface result
      ((cards, _), inr (row, id, _, _, found, _, _, _, shows, _)) h =
    let rows = u.store.cards.card_revisions in
    let name = find_revision-id rows id row found in
    subst (λ (s : Surface). ShowsRevisions (record { store = t; surface = s })) (sym shows)
      (same_cards-ShowsRevisions
        (record u { surface = serve u.surface row.claim_id row.id row.content_hash row.content }) t
        cards (serve-AreOfRevisions rows u.surface row (ap (find_revision rows) name ∙ found) h))

Revokes-ShowsRevisions :
    (u : State) (t : PublishStore) (surface : Surface) (due : Option String)
    → Revokes u.store u.surface (t, surface, due)
    → ShowsRevisions u
    → ShowsRevisions (record { store = t; surface = surface })
Revokes-ShowsRevisions u t surface due (_, _, still, shows) h =
    StillFound-AreOfRevisions u.store.cards.card_revisions t.cards.card_revisions surface.pages
      still (Shows-AreOfRevisions u.store.cards.card_revisions u.surface surface shows h)

module _ (repr : String → String) (digest : Card → String) (bucket : String → ℕ)
    (local_id : String → String) (from_ledger : String → ℕ) (stamp : ℕ → String) where
  Step-ShowsRevisions :
      {u v : State}
      → Step repr digest bucket local_id from_ledger stamp u v
      → ShowsRevisions u
      → ShowsRevisions v
  unfolding halt_class clear_halt
  Step-ShowsRevisions {u} (Step.clears clock id clearance_id now actor approves e) h =
      let (t, _) =
        clear repr digest bucket local_id from_ledger clock u.store id clearance_id now actor
          approves in
      let (cards, _, _) =
        clear-ClearsOne repr digest bucket local_id from_ledger clock u.store id clearance_id now
          actor approves in
      subst ShowsRevisions (sym e) (same_cards-ShowsRevisions u t cards h)
  Step-ShowsRevisions {u} (Step.publishes publication_id id clearance_id audience e) h =
      let (t, surface, result) =
        publish u.store u.surface publication_id id clearance_id audience in
      subst ShowsRevisions (sym e) (
        Publishes-ShowsRevisions u t surface result
          (publish-Publishes u.store u.surface publication_id id clearance_id audience) h)
  Step-ShowsRevisions {u} (Step.confirms publication_id e) h =
      let (t, _) =
        confirm_publication repr digest bucket local_id u.store u.surface publication_id in
      let ((cards, _), _) =
        confirm_publication-Confirms repr digest bucket local_id u.store u.surface publication_id in
      subst ShowsRevisions (sym e) (same_cards-ShowsRevisions u t cards h)
  Step-ShowsRevisions {u} (Step.corrects revocation_id claim_id id reason now e) h =
      let (t, surface, due) =
        correct stamp u.store u.surface revocation_id claim_id id reason now in
      subst ShowsRevisions (sym e) (
        Revokes-ShowsRevisions u t surface due
          (correct-Revokes stamp u.store u.surface revocation_id claim_id id reason now) h)
  Step-ShowsRevisions {u} (Step.retracts revocation_id claim_id id reason now tombstone_id e) h =
      let (t, surface, due) =
        retract stamp u.store u.surface revocation_id claim_id id reason now tombstone_id in
      subst ShowsRevisions (sym e) (
        Revokes-ShowsRevisions u t surface due
          (retract-Revokes stamp u.store u.surface revocation_id claim_id id reason now
            tombstone_id)
          h)
  Step-ShowsRevisions {u} (Step.confirms_revocation revocation_id now e) h =
      let (t, _) = confirm_revocation stamp u.store u.surface revocation_id now in
      let ((cards, _), _) = confirm_revocation-KeepsAll stamp u.store u.surface revocation_id now in
      subst ShowsRevisions (sym e) (same_cards-ShowsRevisions u t cards h)
  Step-ShowsRevisions {u} (Step.halts output_class reason e) h =
      subst ShowsRevisions (sym e)
        (same_cards-ShowsRevisions u (halt_class u.store output_class reason) refl h)
  Step-ShowsRevisions {u} (Step.halts_overdue now e) h =
      let (t, _) = halt_classes_with_overdue_revocations u.store now in
      let ((cards, _), _) = halt_classes_with_overdue_revocations-KeepsAll u.store now in
      subst ShowsRevisions (sym e) (same_cards-ShowsRevisions u t cards h)
  Step-ShowsRevisions {u} (Step.lifts output_class e) h =
      subst ShowsRevisions (sym e)
        (same_cards-ShowsRevisions u (clear_halt u.store output_class) refl h)
  Step-ShowsRevisions {u} {v} (Step.observes surface cs ps still) h =
      StillFound-AreOfRevisions u.store.cards.card_revisions v.store.cards.card_revisions
        v.surface.pages still
        (Shows-AreOfRevisions u.store.cards.card_revisions u.surface v.surface (inl surface) h)

  pub Reaches-ShowsRevisions :
      {u v : State}
      → Reaches repr digest bucket local_id from_ledger stamp u v
      → ShowsRevisions u
      → ShowsRevisions v
  Reaches-ShowsRevisions Reaches.here h = h
  Reaches-ShowsRevisions (Reaches.next step more) h =
      Reaches-ShowsRevisions more (Step-ShowsRevisions step h)
