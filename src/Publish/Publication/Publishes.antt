-- ===== src/Publish/Publication/Publishes.antt =====
-- What publishing leaves in the store and on the surface.
use new_z.Prelude.{
  ◌≡◌, ◌⊎◌, refl, sym, true, Option, none, some, [], ◌∷◌, ◌++◌, String, ◌==◌, string_eq, exists,
  if_elim, Bool-cases, Option-cases, inl, inr,
}
use mathlib.Core.Path.{subst}
use new_z.Domain.Evidence.{risk_eq}
use new_z.Present.Cards.{CardRevision, find_revision}
use new_z.Publish.Surface.{Surface, serve}
use new_z.Publish.Tables.{Clearance, Publication, PublishStore}
use new_z.Publish.Publication.{attempted, find_clearance, attempt, publish}
use new_z.Publish.Publication.Kept.{Keeps}

-- A publication leaves the tables, or appends a row whose clearance was granted for its revision.
-- The surface is as it was, or serves a revision for which a granted clearance is there.
abbrev pub Publishes : PublishStore → Surface → PublishStore × Surface × Option Publication → Type 0
Publishes s surface (t, surface', result) =
    Keeps s t
    × (((t.publications ≡ s.publications) × (surface' ≡ surface))
        ⊎ ((row : CardRevision) × (id : String) × (c : Clearance) × (clearance_id : String)
            × (find_revision s.cards.card_revisions id ≡ some row)
            × (find_clearance s.clearances clearance_id ≡ some c)
            × (c.granted ≡ true)
            × (c.card_revision_id ≡ id)
            × (surface' ≡ serve surface row.claim_id row.id row.content_hash row.content)
            × ((t.publications ≡ s.publications)
                ⊎ ((p : Publication) × (p.clearance_id ≡ clearance_id)
                    × (p.card_revision_id ≡ row.id)
                    × (t.publications ≡ s.publications ++ p ∷ [])))))

pub publish-Publishes :
    (s : PublishStore) (surface : Surface) (publication_id id clearance_id audience : String)
    → Publishes s surface (publish s surface publication_id id clearance_id audience)
unfolding publish attempt
publish-Publishes s surface publication_id id clearance_id audience =
    elim (Option-cases (find_clearance s.clearances clearance_id)) [
      | inl missing ↦ back (s, surface, none) (rw (missing, publish) refl) nothing
      | inr (c, there) ↦ elim (Bool-cases c.granted) [
        | inr refused ↦ back (s, surface, none) (rw (there, publish) (rw refused refl)) nothing
        | inl granted ↦ elim (Bool-cases (c.card_revision_id == id)) [
          | inr other ↦
              back (s, surface, none) (rw (there, publish) (rw (granted, other) refl)) nothing
          | inl mine ↦ elim (Option-cases (find_revision s.cards.card_revisions id)) [
            | inl missing ↦
                back (s, surface, none) (rw (there, publish) (rw (granted, mine, missing) refl))
                  nothing
            | inr (row, found) ↦
                back (attempt s surface row publication_id clearance_id audience)
                  (rw (there, publish) (rw (granted, mine, found) refl))
                  (attempted_row row c found there granted
                    ((string_eq.beq_iff c.card_revision_id id).0 mine))
          ]
        ]
      ]
    ]
  where
    nothing : Publishes s surface (s, surface, none)
    nothing = ((refl, refl), inl (refl, refl))

    attempted_row :
        (row : CardRevision) (c : Clearance)
        → find_revision s.cards.card_revisions id ≡ some row
        → find_clearance s.clearances clearance_id ≡ some c
        → c.granted ≡ true
        → c.card_revision_id ≡ id
        → Publishes s surface (attempt s surface row publication_id clearance_id audience)
    attempted_row row c found there granted mine =
        let served = serve surface row.claim_id row.id row.content_hash row.content in
        let publication : Publication = record {
          id = publication_id;
          card_revision_id = row.id;
          clearance_id = clearance_id;
          audience = audience;
          status = attempted;
        } in
        if_elim (λ made. Publishes s surface made)
          (exists (λ (p : Publication). p.id == publication_id) s.publications)
          (λ _. (
            (refl, refl),
            inr (row, id, c, clearance_id, found, there, granted, mine, refl, inl refl),
          ))
          (λ _. (
            (refl, refl),
            inr (
              row,
              id,
              c,
              clearance_id,
              found,
              there,
              granted,
              mine,
              refl,
              inr (publication, refl, refl, refl),
            ),
          ))

    back :
        (made : PublishStore × Surface × Option Publication)
        → publish s surface publication_id id clearance_id audience ≡ made
        → Publishes s surface made
        → Publishes s surface (publish s surface publication_id id clearance_id audience)
    back made same h = subst (Publishes s surface) (sym same) h
