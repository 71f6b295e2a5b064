-- ===== src/Publish/Publication/Revoked.antt =====
-- What the surface confirms of a retraction.
use new_z.Prelude.{
  ℕ, ◌+◌, ◌*◌, ◌≡◌, refl, sym, ap, ◌∙◌, true, false, none, some, String, ◌==◌, string_eq, is_some,
  is_some-value, exists, Bool-cases, Option-cases, inl, inr,
}
use mathlib.Core.Path.{subst}
use new_z.Policy.Promotion.{◌⧺◌}
use new_z.Present.Dependencies.{find_claim}
use new_z.Present.Cards.{CardRevision, find_revision}
use new_z.Publish.Surface.{Tombstone, Surface, withdraw, in_navigation}
use new_z.Publish.Surface.Laws.{IsFiled, withdraw-gone}
use new_z.Publish.Tables.{TombstoneRow, PublishStore}
use new_z.Publish.Clearance.{confirmed}
use new_z.Publish.Publication.{
  revocation_window_minutes, Result, find_revocation, open_revocation, entomb, retract, is_effected,
  confirm_revocation,
}
use new_z.Publish.Publication.Opened.{
  find_revocation-append, opened_row, Opens, open_revocation-Opens,
}

entomb-revocations :
    (store t : PublishStore) (claim_id card_revision_id reason explanation tombstone_id : String)
    → entomb store claim_id card_revision_id reason explanation tombstone_id ≡ some t
    → t.revocations ≡ store.revocations
unfolding entomb
entomb-revocations store t claim_id card_revision_id reason explanation tombstone_id h =
    elim (Bool-cases (exists (λ (x : TombstoneRow). x.id == tombstone_id) store.tombstones)) [
      | inl taken ↦ none_left (rw (taken, entomb) at h)
      | inr free ↦
          elim (Bool-cases (is_some (find_claim store.cards.evidence.edges.claims claim_id))) [
            | inr unknown ↦ none_left (rw (free, unknown, entomb) at h)
            | inl known ↦ sym (rows_eq (rw (free, known, entomb) at h))
          ]
    ]
  where
    none_left : none ≡ some t → t.revocations ≡ store.revocations
    none_left k = cc

    rows_eq : {x : PublishStore} → some x ≡ some t → x.revocations ≡ t.revocations
    rows_eq k = cc

module _ (stamp : ℕ → String) where
  -- What a retraction that returns has done.
  abbrev Retracts :
      PublishStore
      → Surface
      → (revocation_id claim_id reason : String) → CardRevision
      → ℕ
      → Result String
      → Type 0
  Retracts store surface revocation_id claim_id reason row now (t, surface', none) = Unit
  Retracts store surface revocation_id claim_id reason row now (t, surface', some due) =
      Opens stamp store (opened_row stamp revocation_id "retraction" claim_id row reason now) t
      × (due ≡ stamp (now + revocation_window_minutes * 60))
      × ((tombstone : Tombstone) × (withdraw surface claim_id tombstone ≡ some surface'))

  retract-Retracts :
      (store : PublishStore) (surface : Surface)
      (revocation_id claim_id card_revision_id reason : String) (now : ℕ) (tombstone_id : String)
      (row : CardRevision)
      → find_revision store.cards.card_revisions card_revision_id ≡ some row
      → Retracts store surface revocation_id claim_id reason row now (
          retract stamp store surface revocation_id claim_id card_revision_id reason now
            tombstone_id)
  unfolding retract
  retract-Retracts store surface revocation_id claim_id card_revision_id reason now tombstone_id row
        found =
      let explanation = "This presentation was retracted: " ⧺ reason in
      let tombstone : Tombstone = record {
        claim_id = claim_id;
        card_revision_id = card_revision_id;
        explanation = explanation;
        at = stamp now;
      } in
      elim (Option-cases
        (open_revocation stamp store revocation_id "retraction" claim_id row reason now)) [
          | inl taken ↦ back (store, surface, none) (rw (found, taken, retract) refl) tt
          | inr (opened, done) ↦ elim (Option-cases (withdraw surface claim_id tombstone)) [
            | inl unmade ↦ back (opened, surface, none) (rw (found, done, unmade, retract) refl) tt
            | inr (withdrawn, gone) ↦
                elim (Option-cases
                  (entomb opened claim_id card_revision_id reason explanation tombstone_id)) [
                    | inl taken ↦
                        back (opened, withdrawn, none) (rw (found, done, gone, taken, retract) refl)
                          tt
                    | inr (entombed, buried) ↦
                        let (rows, fresh) =
                          open_revocation-Opens stamp store opened revocation_id "retraction"
                            claim_id reason row now done in
                        back
                          (entombed, withdrawn, some (stamp (now + revocation_window_minutes * 60)))
                          (rw (found, done, gone, buried, retract) refl)
                          (
                            (
                              entomb-revocations opened entombed claim_id card_revision_id reason
                                    explanation tombstone_id buried
                                  ∙ rows,
                              fresh,
                            ),
                            refl,
                            (tombstone, gone),
                          )
                  ]
          ]
        ]
    where
      back :
          (made : Result String)
          → retract stamp store surface revocation_id claim_id card_revision_id reason now
              tombstone_id
            ≡ made
          → Retracts store surface revocation_id claim_id reason row now made
          → Retracts store surface revocation_id claim_id reason row now (
              retract stamp store surface revocation_id claim_id card_revision_id reason now
                tombstone_id)
      back made same h =
          subst (Retracts store surface revocation_id claim_id reason row now) (sym same) h

  retract-effected :
      (store t : PublishStore) (surface surface' : Surface)
      (revocation_id claim_id card_revision_id reason tombstone_id due : String) (now later : ℕ)
      (row : CardRevision)
      → IsFiled surface
      → find_revision store.cards.card_revisions card_revision_id ≡ some row
      → retract stamp store surface revocation_id claim_id card_revision_id reason now tombstone_id
        ≡ (t, surface', some due)
      → (in_navigation surface' claim_id ≡ false)
        × ((confirm_revocation stamp t surface' revocation_id later).1 ≡ some confirmed)
  unfolding confirm_revocation is_effected
  retract-effected store t surface surface' revocation_id claim_id card_revision_id reason
        tombstone_id due now later row filed found h =
      let ((rows, fresh), _, (tombstone, gone)) =
        subst (Retracts store surface revocation_id claim_id reason row now) h (
          retract-Retracts store surface revocation_id claim_id card_revision_id reason now
            tombstone_id row found) in
      let (out, buried) = withdraw-gone surface surface' claim_id tombstone filed gone in
      let opened = opened_row stamp revocation_id "retraction" claim_id row reason now in
      let there =
        ap (λ rs. find_revocation rs revocation_id) rows
        ∙ find_revocation-append store.revocations opened fresh in
      (out, rw (there, confirm_revocation) (rw (out, buried) refl))

  retract-is_some :
      (store : PublishStore) (surface : Surface)
      (revocation_id claim_id card_revision_id reason tombstone_id : String) (now : ℕ)
      (row : CardRevision)
      → find_revision store.cards.card_revisions card_revision_id ≡ some row
      → is_some (find_claim store.cards.evidence.edges.claims claim_id) ≡ true
      → surface.is_made ≡ true
      → exists (λ r. r.id == revocation_id) store.revocations ≡ false
      → exists (λ t. t.id == tombstone_id) store.tombstones ≡ false
      → is_some
          (retract stamp store surface revocation_id claim_id card_revision_id reason now
            tombstone_id).2
        ≡ true
  unfolding retract open_revocation withdraw entomb
  retract-is_some store surface revocation_id claim_id card_revision_id reason tombstone_id now row
        found known made fresh free =
      rw (found, fresh, known, made, free, known, retract) refl

  -- On a surface that has served and whose pages stand under their claims, a retraction of a revision
  -- and a claim that are there, under ids that are free, returns, takes the claim out of navigation,
  -- and is confirmed by the surface that it leaves, whenever that is read.
  pub retract-confirmed :
      (store : PublishStore) (surface : Surface)
      (revocation_id claim_id card_revision_id reason tombstone_id : String) (now later : ℕ)
      (row : CardRevision)
      → IsFiled surface
      → find_revision store.cards.card_revisions card_revision_id ≡ some row
      → is_some (find_claim store.cards.evidence.edges.claims claim_id) ≡ true
      → surface.is_made ≡ true
      → exists (λ r. r.id == revocation_id) store.revocations ≡ false
      → exists (λ t. t.id == tombstone_id) store.tombstones ≡ false
      → let (t, surface', due) =
          retract stamp store surface revocation_id claim_id card_revision_id reason now
            tombstone_id in
        (is_some due ≡ true)
        × (in_navigation surface' claim_id ≡ false)
        × ((confirm_revocation stamp t surface' revocation_id later).1 ≡ some confirmed)
  retract-confirmed store surface revocation_id claim_id card_revision_id reason tombstone_id now
        later row filed found known ready fresh free =
      let made =
        retract stamp store surface revocation_id claim_id card_revision_id reason now
          tombstone_id in
      let returns =
        retract-is_some store surface revocation_id claim_id card_revision_id reason tombstone_id
          now row found known ready fresh free in
      let (due, e) = is_some-value made.2 returns in
      let (out, says_so) =
        retract-effected store made.0 surface made.1 revocation_id claim_id card_revision_id reason
          tombstone_id due now later row filed found (λ i. (made.0, made.1, e i)) in
      (returns, out, says_so)
