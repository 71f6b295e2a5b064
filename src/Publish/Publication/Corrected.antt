-- ===== src/Publish/Publication/Corrected.antt =====
-- What the surface confirms of a correction.
use new_z.Prelude.{
  ℕ, ◌+◌, ◌*◌, ◌≡◌, refl, sym, ap, ◌∙◌, arith, Bool, true, false, ◌||◌, none, some, [], ◌∷◌, ◌++◌,
  String, ◌==◌, string_eq, if◌then◌else◌, is_some, is_some-value, get, put, get-put, exists,
  exists-append_one, eq_refl, Option-cases, inl, inr,
}
use mathlib.Core.Path.{subst}
use new_z.Present.Dependencies.{find_claim}
use new_z.Present.Cards.{CardRevision, find_revision}
use new_z.Publish.Surface.{
  Correction, Page, Surface, stem, attach_correction, serving, corrections_on,
}
use new_z.Publish.Tables.{PublishStore}
use new_z.Publish.Clearance.{confirmed}
use new_z.Publish.Publication.{
  revocation_window_minutes, unconfirmed, Result, find_revocation, open_revocation, correct,
  is_effected, confirm_revocation,
}
use new_z.Publish.Publication.Opened.{
  find_revocation-append, opened_row, Opens, open_revocation-Opens,
}

no_corrections :
    (s : Surface) (claim_id : String)
    → get s.pages (stem claim_id) ≡ none
    → corrections_on s claim_id ≡ []
unfolding corrections_on serving
no_corrections s claim_id h = rw (h, corrections_on) refl

corrections_of :
    (s : Surface) (claim_id : String) (page : Page)
    → get s.pages (stem claim_id) ≡ some page
    → corrections_on s claim_id ≡ page.corrections
unfolding corrections_on serving
corrections_of s claim_id page h = rw (h, corrections_on) refl

module _ (stamp : ℕ → String) where
  -- The notice shows exactly if a page was served.
  attached :
      (surface : Surface) (claim_id revocation_id reason at : String)
      → exists
          (λ n. n.revocation_id == revocation_id)
          (corrections_on
            (attach_correction surface claim_id
              record { revocation_id = revocation_id; reason = reason; at = at })
            claim_id)
        ≡ is_some (serving surface claim_id)
  unfolding attach_correction serving
  attached surface claim_id revocation_id reason at =
      let name = stem claim_id in
      let here = λ (n : Correction). n.revocation_id == revocation_id in
      elim (Option-cases (get surface.pages name)) [
        | inl none_there ↦
            rw (none_there, attach_correction)
              (ap (exists here) (no_corrections surface claim_id none_there))
        | inr (page, there) ↦
            let notice : Correction = record {
              revocation_id = revocation_id;
              reason = reason;
              at = at;
            } in
            let after = record page { corrections = page.corrections ++ notice ∷ [] } in
            let s = record surface { pages = put surface.pages name after } in
            rw (there, attach_correction)
              (ap (exists here) (
                  corrections_of s claim_id after
                    (get-put surface.pages name name after ∙ rw (eq_refl name) refl))
                ∙ exists-append_one here page.corrections notice
                ∙ rw (eq_refl revocation_id) (either (exists here page.corrections)))
      ]
    where
      either : (b : Bool) → (b || true) ≡ true
      either b = ground arith

  abbrev Corrects :
      PublishStore
      → Surface
      → (revocation_id claim_id reason : String) → CardRevision
      → ℕ
      → Result String
      → Type 0
  Corrects store surface revocation_id claim_id reason row now (t, surface', none) = Unit
  Corrects store surface revocation_id claim_id reason row now (t, surface', some due) =
      Opens stamp store (opened_row stamp revocation_id "correction" claim_id row reason now) t
      × (surface'
          ≡ attach_correction surface claim_id
              record { revocation_id = revocation_id; reason = reason; at = stamp now })

  correct-Corrects :
      (store : PublishStore) (surface : Surface)
      (revocation_id claim_id card_revision_id reason : String) (now : ℕ) (row : CardRevision)
      → find_revision store.cards.card_revisions card_revision_id ≡ some row
      → Corrects store surface revocation_id claim_id reason row now
          (correct stamp store surface revocation_id claim_id card_revision_id reason now)
  unfolding correct
  correct-Corrects store surface revocation_id claim_id card_revision_id reason now row found =
      elim (Option-cases
        (open_revocation stamp store revocation_id "correction" claim_id row reason now)) [
          | inl taken ↦ back (store, surface, none) (rw (found, taken, correct) refl) tt
          | inr (opened, done) ↦
              back
                (
                  opened,
                  attach_correction surface claim_id
                      record { revocation_id = revocation_id; reason = reason; at = stamp now },
                  some (stamp (now + revocation_window_minutes * 60)),
                )
                (rw (found, done, correct) refl)
                (
                  open_revocation-Opens stamp store opened revocation_id "correction" claim_id
                      reason row now done,
                  refl,
                )
        ]
    where
      back :
          (made : Result String)
          → correct stamp store surface revocation_id claim_id card_revision_id reason now ≡ made
          → Corrects store surface revocation_id claim_id reason row now made
          → Corrects store surface revocation_id claim_id reason row now
              (correct stamp store surface revocation_id claim_id card_revision_id reason now)
      back made same h =
          subst (Corrects store surface revocation_id claim_id reason row now) (sym same) h

  correct-effected :
      (store t : PublishStore) (surface surface' : Surface)
      (revocation_id claim_id card_revision_id reason due : String) (now later : ℕ)
      (row : CardRevision)
      → find_revision store.cards.card_revisions card_revision_id ≡ some row
      → correct stamp store surface revocation_id claim_id card_revision_id reason now
        ≡ (t, surface', some due)
      → (confirm_revocation stamp t surface' revocation_id later).1
        ≡ some (if is_some (serving surface claim_id) then confirmed else unconfirmed)
  unfolding confirm_revocation is_effected
  correct-effected store t surface surface' revocation_id claim_id card_revision_id reason due now
        later row found h =
      let ((rows, fresh), shown) =
        subst (Corrects store surface revocation_id claim_id reason row now) h (
          correct-Corrects store surface revocation_id claim_id card_revision_id reason now row
            found) in
      let opened = opened_row stamp revocation_id "correction" claim_id row reason now in
      let there =
        ap (λ rs. find_revocation rs revocation_id) rows
        ∙ find_revocation-append store.revocations opened fresh in
      rw (there, confirm_revocation)
        (ap (λ s. some (if is_effected s opened then confirmed else unconfirmed)) shown
          ∙ ap (λ b. some (if b then confirmed else unconfirmed))
              (attached surface claim_id revocation_id reason (stamp now)))

  correct-is_some :
      (store : PublishStore) (surface : Surface)
      (revocation_id claim_id card_revision_id reason : String) (now : ℕ) (row : CardRevision)
      → find_revision store.cards.card_revisions card_revision_id ≡ some row
      → is_some (find_claim store.cards.evidence.edges.claims claim_id) ≡ true
      → exists (λ r. r.id == revocation_id) store.revocations ≡ false
      → is_some (correct stamp store surface revocation_id claim_id card_revision_id reason now).2
        ≡ true
  unfolding correct open_revocation
  correct-is_some store surface revocation_id claim_id card_revision_id reason now row found known
        fresh =
      rw (found, fresh, known, correct) refl

  -- A correction of a revision and a claim that are there, under an id that is free, returns whether or
  -- not the claim is served, and is confirmed by the surface that it leaves exactly if it is.
  pub correct-confirmed :
      (store : PublishStore) (surface : Surface)
      (revocation_id claim_id card_revision_id reason : String) (now later : ℕ) (row : CardRevision)
      → find_revision store.cards.card_revisions card_revision_id ≡ some row
      → is_some (find_claim store.cards.evidence.edges.claims claim_id) ≡ true
      → exists (λ r. r.id == revocation_id) store.revocations ≡ false
      → let (t, surface', due) =
          correct stamp store surface revocation_id claim_id card_revision_id reason now in
        (is_some due ≡ true)
        × ((confirm_revocation stamp t surface' revocation_id later).1
            ≡ some (if is_some (serving surface claim_id) then confirmed else unconfirmed))
  correct-confirmed store surface revocation_id claim_id card_revision_id reason now later row found
        known fresh =
      let made = correct stamp store surface revocation_id claim_id card_revision_id reason now in
      let returns =
        correct-is_some store surface revocation_id claim_id card_revision_id reason now row found
          known fresh in
      let (due, e) = is_some-value made.2 returns in
      (
        returns,
        correct-effected store made.0 surface made.1 revocation_id claim_id card_revision_id reason
            due now later row found (λ i. (made.0, made.1, e i)),
      )
