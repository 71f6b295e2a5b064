-- ===== src/Publish/Publication/Served.antt =====
-- Nothing is published or served but what was cleared, through any interleaving.
use new_z.Prelude.{
  ℕ, ◌≡◌, ◌⊎◌, refl, sym, ap, ◌∙◌, arith, Bool, true, false, ◌&&◌, Option, some, List, [], ◌∷◌,
  ◌++◌, map, String, ◌==◌, string_eq, if◌then◌else◌, every, exists, every-append_one, inl, inr,
}
use mathlib.Core.Path.{subst}
use new_z.Present.Cards.{Card, CardRevision, find_revision}
use new_z.Publish.Surface.{Page, Surface, stem, serving}
use new_z.Publish.Surface.Laws.{every-get, serve-every}
use new_z.Publish.Tables.{Clearance, Publication, PublishStore}
use new_z.Publish.Clearance.{clear, halt_class, clear_halt}
use new_z.Publish.Publication.{
  find_clearance, publish, confirm_publication, correct, retract, confirm_revocation,
  halt_classes_with_overdue_revocations,
}
use new_z.Publish.Publication.Kept.{
  Confirms, confirm_publication-Confirms, ClearsOne, clear-ClearsOne, confirm_revocation-KeepsAll,
  halt_classes_with_overdue_revocations-KeepsAll,
}
use new_z.Publish.Publication.Publishes.{Publishes, publish-Publishes}
use new_z.Publish.Publication.Revokes.{Revokes, correct-Revokes, retract-Revokes}
use new_z.Publish.Publication.Shown.{IsOfRevision}
use new_z.Publish.Publication.Contents.{ShowsRevisions, Reaches-ShowsRevisions}
use new_z.Publish.Publication.Steps.{State, Step, Reaches}
use new_z.Publish.Publication.Cleared.{
  is_hashed, is_cleared_page, is_cleared_row, Cleared, IsCleared, is_hashed_of, is_hashed-found,
  find_revision-id, find_clearance-passes, Cleared-more, IsCleared-kept, same-StillFound,
  KeepsAll-IsCleared,
}

-- A row whose status moves names the same clearance.
moved-named :
    (cs : List Clearance) (id status : String) (ps : List Publication)
    → every (is_cleared_row cs) ps ≡ true
    → every
        (is_cleared_row cs)
        (map (λ (p : Publication). if p.id == id then record p { status = status } else p) ps)
      ≡ true
moved-named cs id status [] h = refl
moved-named cs id status (p ∷ ps) h =
    rw (same_row (p.id == id)) (ground (arith, h, moved-named cs id status ps))
  where
    same_row :
        (b : Bool)
        → is_cleared_row cs (if b then record p { status = status } else p) ≡ is_cleared_row cs p
    same_row true = refl
    same_row false = refl

Confirms-IsCleared :
    (repr : String → String) (digest : Card → String) (bucket : String → ℕ)
    (local_id : String → String) (u : State) (t : PublishStore)
    → Confirms repr digest bucket local_id u.store t
    → IsCleared u
    → IsCleared (record u { store = t })
Confirms-IsCleared repr digest bucket local_id u t ((cards, cs), inl ps) h =
    KeepsAll-IsCleared u t ((cards, cs), ps) h
Confirms-IsCleared repr digest bucket local_id u t ((cards, cs), inr (id, status, ps))
      (hashed, named, served) =
    (
      (λ i. every (is_hashed ((cards i).card_revisions)) (cs i)) ∙ hashed,
      (λ i. every (is_cleared_row (cs i)) (ps i))
          ∙ moved-named u.store.clearances id status u.store.publications named,
      ap (λ x. every (is_cleared_page x) u.surface.pages) cs ∙ served,
    )

ClearsOne-IsCleared :
    (repr : String → String) (digest : Card → String) (bucket : String → ℕ)
    (local_id : String → String) (from_ledger : String → ℕ) (clock : ℕ) (u : State)
    (t : PublishStore)
    → ClearsOne repr digest bucket local_id from_ledger clock u.store t
    → IsCleared u
    → IsCleared (record u { store = t })
ClearsOne-IsCleared repr digest bucket local_id from_ledger clock u t (cards, ps, inl cs) h =
    KeepsAll-IsCleared u t ((cards, cs), ps) h
ClearsOne-IsCleared repr digest bucket local_id from_ledger clock u t
      (cards, ps, inr (row, id, c, found, mine, hash, cs)) h =
    let rows = u.store.cards.card_revisions in
    let name = find_revision-id rows id row found in
    let here =
      is_hashed_of rows c row (ap (find_revision rows) (mine ∙ name) ∙ found)
      ∙ (string_eq.beq_iff row.content_hash c.content_hash).1 (sym hash) in
    subst
      (λ (x : List CardRevision × List Clearance × List Publication).
        Cleared x.0 x.1 x.2 u.surface.pages)
      (λ i. (sym (ap (λ k. k.card_revisions) cards) i, sym cs i, sym ps i))
      (Cleared-more rows u.store.clearances u.store.publications u.surface.pages c h here)

-- A granted clearance of a revision that is there clears its content.
granted-clears :
    (rows : List CardRevision) (cs : List Clearance) (id clearance_id : String) (row : CardRevision)
    (c : Clearance)
    → every (is_hashed rows) cs ≡ true
    → find_revision rows id ≡ some row
    → find_clearance cs clearance_id ≡ some c
    → c.granted ≡ true
    → c.card_revision_id ≡ id
    → (exists
          (λ x. x.granted && (x.card_revision_id == row.id && x.content_hash == row.content_hash))
          cs
        ≡ true)
      × (exists (λ x. x.id == clearance_id && (x.granted && x.card_revision_id == row.id)) cs
          ≡ true)
granted-clears rows cs id clearance_id row c hashed found there granted mine =
    let (hash, _, name) =
      find_clearance-passes cs clearance_id c (is_hashed rows) (λ x. x.granted) there hashed
        granted in
    let (row', found', same) = is_hashed-found rows c hash in
    let e = some_inj (sym found' ∙ ap (find_revision rows) mine ∙ found) in
    let named =
      (string_eq.beq_iff c.card_revision_id row.id).1
        (mine ∙ sym (find_revision-id rows id row found)) in
    let content = (string_eq.beq_iff c.content_hash row.content_hash).1 (
      sym ((string_eq.beq_iff row'.content_hash c.content_hash).0 same)
      ∙ ap (λ (x : CardRevision). x.content_hash) e) in
    let (_, first, _) =
      find_clearance-passes cs clearance_id c (is_hashed rows)
        (λ x. x.granted && (x.card_revision_id == row.id && x.content_hash == row.content_hash))
        there hashed (rw (granted, named, content) refl) in
    let (_, second, _) =
      find_clearance-passes cs clearance_id c (is_hashed rows)
        (λ x. x.id == clearance_id && (x.granted && x.card_revision_id == row.id)) there hashed
        (rw ((string_eq.beq_iff c.id clearance_id).1 name, granted, named) refl) in
    (first, second)
  where
    some_inj : {x y : CardRevision} → some x ≡ some y → x ≡ y
    some_inj k = cc

Publishes-IsCleared :
    (u : State) (t : PublishStore) (surface : Surface) (result : Option Publication)
    → Publishes u.store u.surface (t, surface, result)
    → IsCleared u
    → IsCleared (record { store = t; surface = surface })
Publishes-IsCleared u t surface result ((cards, cs), inl (ps, same)) h =
    IsCleared-kept u (record { store = t; surface = surface }) cs ps
      (same-StillFound u.store.cards.card_revisions t.cards.card_revisions
        (ap (λ c. c.card_revisions) cards))
      (inl same) h
Publishes-IsCleared u t surface result
      ((cards, cs), inr (row, id, c, clearance_id, found, there, granted, mine, shows, more))
      (hashed, named, served) =
    let rows = u.store.cards.card_revisions in
    let old = u.store.clearances in
    let (page, entry) =
      granted-clears rows old id clearance_id row c hashed found there granted mine in
    (
      (λ i. every (is_hashed ((cards i).card_revisions)) (cs i)) ∙ hashed,
      ap (λ x. every (is_cleared_row x) t.publications) cs
          ∙ listed old clearance_id row named entry more,
      (λ i. every (is_cleared_page (cs i)) ((shows i).pages))
          ∙ serve-every (is_cleared_page old) u.surface row.claim_id row.id row.content_hash
              row.content served page,
    )
  where
    listed :
        (old : List Clearance) (clearance_id : String) (row : CardRevision)
        → every (is_cleared_row old) u.store.publications ≡ true
        → exists (λ x. x.id == clearance_id && (x.granted && x.card_revision_id == row.id)) old
          ≡ true
        → (t.publications ≡ u.store.publications)
          ⊎ ((p : Publication) × (p.clearance_id ≡ clearance_id)
              × (p.card_revision_id ≡ row.id)
              × (t.publications ≡ u.store.publications ++ p ∷ []))
        → every (is_cleared_row old) t.publications ≡ true
    listed old clearance_id row named entry (inl same) =
        ap (every (is_cleared_row old)) same ∙ named
    listed old clearance_id row named entry (inr (p, name, mine, same)) =
        ap (every (is_cleared_row old)) same
        ∙ every-append_one (is_cleared_row old) u.store.publications p
        ∙ rw named (
            (λ i. exists (λ x. x.id == name i && (x.granted && x.card_revision_id == mine i)) old)
            ∙ entry)

Revokes-IsCleared :
    (u : State) (t : PublishStore) (surface : Surface) (due : Option String)
    → Revokes u.store u.surface (t, surface, due)
    → IsCleared u
    → IsCleared (record { store = t; surface = surface })
Revokes-IsCleared u t surface due (cs, ps, still, shows) h =
    IsCleared-kept u (record { store = t; surface = surface }) cs ps still shows h

module _ (repr : String → String) (digest : Card → String) (bucket : String → ℕ)
    (local_id : String → String) (from_ledger : String → ℕ) (stamp : ℕ → String) where
  Step-IsCleared :
      {u v : State}
      → Step repr digest bucket local_id from_ledger stamp u v
      → IsCleared u
      → IsCleared v
  unfolding halt_class clear_halt
  Step-IsCleared {u} (Step.clears clock id clearance_id now actor approves e) h =
      subst IsCleared (sym e) (
        ClearsOne-IsCleared repr digest bucket local_id from_ledger clock u
          (clear repr digest bucket local_id from_ledger clock u.store id clearance_id now actor
            approves).0
          (clear-ClearsOne repr digest bucket local_id from_ledger clock u.store id clearance_id now
            actor approves)
          h)
  Step-IsCleared {u} (Step.publishes publication_id id clearance_id audience e) h =
      let (t, surface, result) =
        publish u.store u.surface publication_id id clearance_id audience in
      subst IsCleared (sym e) (
        Publishes-IsCleared u t surface result
          (publish-Publishes u.store u.surface publication_id id clearance_id audience) h)
  Step-IsCleared {u} (Step.confirms publication_id e) h = subst IsCleared (sym e) (
      Confirms-IsCleared repr digest bucket local_id u
        (confirm_publication repr digest bucket local_id u.store u.surface publication_id).0
        (confirm_publication-Confirms repr digest bucket local_id u.store u.surface publication_id)
        h)
  Step-IsCleared {u} (Step.corrects revocation_id claim_id id reason now e) h =
      let (t, surface, due) =
        correct stamp u.store u.surface revocation_id claim_id id reason now in
      subst IsCleared (sym e) (
        Revokes-IsCleared u t surface due
          (correct-Revokes stamp u.store u.surface revocation_id claim_id id reason now) h)
  Step-IsCleared {u} (Step.retracts revocation_id claim_id id reason now tombstone_id e) h =
      let (t, surface, due) =
        retract stamp u.store u.surface revocation_id claim_id id reason now tombstone_id in
      subst IsCleared (sym e) (
        Revokes-IsCleared u t surface due
          (retract-Revokes stamp u.store u.surface revocation_id claim_id id reason now
            tombstone_id)
          h)
  Step-IsCleared {u} (Step.confirms_revocation revocation_id now e) h = subst IsCleared (sym e) (
      KeepsAll-IsCleared u (confirm_revocation stamp u.store u.surface revocation_id now).0
        (confirm_revocation-KeepsAll stamp u.store u.surface revocation_id now) h)
  Step-IsCleared {u} (Step.halts output_class reason e) h =
      subst IsCleared (sym e)
        (KeepsAll-IsCleared u (halt_class u.store output_class reason) ((refl, refl), refl) h)
  Step-IsCleared {u} (Step.halts_overdue now e) h = subst IsCleared (sym e) (
      KeepsAll-IsCleared u (halt_classes_with_overdue_revocations u.store now).0
        (halt_classes_with_overdue_revocations-KeepsAll u.store now) h)
  Step-IsCleared {u} (Step.lifts output_class e) h =
      subst IsCleared (sym e)
        (KeepsAll-IsCleared u (clear_halt u.store output_class) ((refl, refl), refl) h)
  Step-IsCleared {u} {v} (Step.observes surface cs ps still) h =
      IsCleared-kept u v cs ps still (inl surface) h

  Reaches-IsCleared :
      {u v : State}
      → Reaches repr digest bucket local_id from_ledger stamp u v
      → IsCleared u
      → IsCleared v
  Reaches-IsCleared Reaches.here h = h
  Reaches-IsCleared (Reaches.next step more) h = Reaches-IsCleared more (Step-IsCleared step h)

  -- Through every interleaving of the operations with those of other parts, from a state that holds
  -- only what was cleared and serves only the content of revisions, such as an empty one: a page that
  -- the surface serves for a claim has the id, the hash and the content of a revision of a claim with
  -- the file name of that one, and a granted clearance names that revision with that hash; a recorded
  -- publication names a granted clearance of its revision; and a clearance carries the hash of its
  -- revision.
  pub Reaches-served :
      {u v : State} (claim_id : String) (page : Page)
      → Reaches repr digest bucket local_id from_ledger stamp u v
      → IsCleared u
      → ShowsRevisions u
      → serving v.surface claim_id ≡ some page
      → IsOfRevision v.store.cards.card_revisions (stem claim_id) page
        × (is_cleared_page v.store.clearances (stem claim_id, page) ≡ true)
        × (every (is_cleared_row v.store.clearances) v.store.publications ≡ true)
        × (every (is_hashed v.store.cards.card_revisions) v.store.clearances ≡ true)
  unfolding serving
  Reaches-served {u} {v} claim_id page reached start shows there =
      let (hashed, named, served) = Reaches-IsCleared reached start in
      (
        Reaches-ShowsRevisions repr digest bucket local_id from_ledger stamp reached shows
            (stem claim_id) page there,
        every-get (is_cleared_page v.store.clearances) v.surface.pages (stem claim_id) page served
            there,
        named,
        hashed,
      )
