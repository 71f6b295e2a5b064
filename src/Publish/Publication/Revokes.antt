-- ===== src/Publish/Publication/Revokes.antt =====
-- What a correction and a retraction leave as it was.
use new_z.Prelude.{
  ℕ, ◌+◌, ◌*◌, ◌≡◌, ◌⊎◌, refl, sym, ap, ◌∙◌, arith, false, none, some, List, [], ◌∷◌, map, String,
  ◌==◌, string_eq, if◌then◌else◌, is_some, exists, Bool-cases, Option-cases, inl, inr,
}
use mathlib.Core.Path.{subst}
use new_z.Policy.Promotion.{◌⧺◌}
use new_z.Present.Dependencies.{find_claim}
use new_z.Present.Cards.{CardRevision, find_revision}
use new_z.Publish.Surface.{Correction, Tombstone, Surface, withdraw, attach_correction}
use new_z.Publish.Tables.{Revocation, TombstoneRow, PublishStore}
use new_z.Publish.Publication.{
  revocation_window_minutes, Result, open_revocation, correct, entomb, retract,
}
use new_z.Publish.Publication.Kept.{KeepsAll}

-- Every revision that is found is found later, with its content.
abbrev pub StillFound : List CardRevision → List CardRevision → Type 0
StillFound rows rows' =
    (id : String) (row : CardRevision)
    → find_revision rows id ≡ some row
    → (row' : CardRevision) × (find_revision rows' id ≡ some row')
      × (row'.content_hash ≡ row.content_hash)
      × (row'.content ≡ row.content)
      × (row'.claim_id ≡ row.claim_id)

same-StillFound : (rows rows' : List CardRevision) → rows' ≡ rows → StillFound rows rows'
same-StillFound rows rows' e id row h =
    (row, ap (λ rs. find_revision rs id) e ∙ h, refl, refl, refl)

abbrev retired : String → CardRevision → CardRevision
retired target r = if r.id == target then record r { live = false } else r

retired-id : (target : String) (r : CardRevision) → (retired target r).id ≡ r.id
retired-id target r = ground arith

retired-content :
    (target : String) (r : CardRevision)
    → ((retired target r).content_hash ≡ r.content_hash)
      × ((retired target r).content ≡ r.content)
      × ((retired target r).claim_id ≡ r.claim_id)
retired-content target r = elim (Bool-cases (r.id == target)) [
  | inl same ↦ rw same (refl, refl, refl)
  | inr other ↦ rw other (refl, refl, refl)
]

retired-StillFound :
    (target : String) (rows : List CardRevision) → StillFound rows (map (retired target) rows)
unfolding find_revision
retired-StillFound target [] id row h = cc
retired-StillFound target (r ∷ rows) id row h = elim (Bool-cases (r.id == id)) [
  | inl same ↦
      let (hash, content, claim_id) = retired-content target r in
      let e = some_inj (rw same at h) in
      (
        retired target r,
        rw (ap (λ x. x == id) (retired-id target r) ∙ same) refl,
        hash ∙ ap (λ (x : CardRevision). x.content_hash) e,
        content ∙ ap (λ (x : CardRevision). x.content) e,
        claim_id ∙ ap (λ (x : CardRevision). x.claim_id) e,
      )
  | inr other ↦
      let (row', found, same, content, claim_id) =
        retired-StillFound target rows id row (rw other at h) in
      (row', rw (ap (λ x. x == id) (retired-id target r) ∙ other) found, same, content, claim_id)
]
  where
    some_inj : some r ≡ some row → r ≡ row
    some_inj k = cc

-- The surface is as it was, or one claim was withdrawn or corrected.
abbrev pub Shows : Surface → Surface → Type 0
Shows s t =
    (t ≡ s)
    ⊎ (((claim_id : String) × (tombstone : Tombstone) × (withdraw s claim_id tombstone ≡ some t))
        ⊎ ((claim_id : String) × (notice : Correction) × (t ≡ attach_correction s claim_id notice)))

abbrev pub Revokes : PublishStore → Surface → Result String → Type 0
Revokes s surface (t, surface', due) =
    (t.clearances ≡ s.clearances)
    × (t.publications ≡ s.publications)
    × StillFound s.cards.card_revisions t.cards.card_revisions
    × Shows surface surface'

module _ (stamp : ℕ → String) where
  open_revocation-KeepsAll :
      (s t : PublishStore) (revocation_id kind claim_id : String) (row : CardRevision)
      (reason : String) (now : ℕ)
      → open_revocation stamp s revocation_id kind claim_id row reason now ≡ some t
      → KeepsAll s t
  unfolding open_revocation
  open_revocation-KeepsAll s t revocation_id kind claim_id row reason now h =
      elim (Bool-cases (exists (λ (r : Revocation). r.id == revocation_id) s.revocations)) [
        | inl taken ↦ none_left (rw (taken, open_revocation) at h)
        | inr free ↦
            elim (Bool-cases (is_some (find_claim s.cards.evidence.edges.claims claim_id))) [
              | inr unknown ↦ none_left (rw (free, unknown, open_revocation) at h)
              | inl known ↦ same ((refl, refl), refl) (rw (free, known, open_revocation) at h)
            ]
      ]
    where
      none_left : none ≡ some t → KeepsAll s t
      none_left k = cc

      same : {x : PublishStore} → KeepsAll s x → some x ≡ some t → KeepsAll s t
      same {x} kept k = let e : x ≡ t = cc k in subst (KeepsAll s) e kept

  abbrev Entombs : PublishStore → PublishStore → Type 0
  Entombs s t =
      (t.clearances ≡ s.clearances)
      × (t.publications ≡ s.publications)
      × StillFound s.cards.card_revisions t.cards.card_revisions

  entomb-Entombs :
      (s t : PublishStore) (claim_id id reason explanation tombstone_id : String)
      → entomb s claim_id id reason explanation tombstone_id ≡ some t
      → Entombs s t
  unfolding entomb
  entomb-Entombs s t claim_id id reason explanation tombstone_id h =
      elim (Bool-cases (exists (λ (x : TombstoneRow). x.id == tombstone_id) s.tombstones)) [
        | inl taken ↦ none_left (rw (taken, entomb) at h)
        | inr free ↦
            elim (Bool-cases (is_some (find_claim s.cards.evidence.edges.claims claim_id))) [
              | inr unknown ↦ none_left (rw (free, unknown, entomb) at h)
              | inl known ↦
                  same (refl, refl, retired-StillFound id s.cards.card_revisions)
                    (rw (free, known, entomb) at h)
            ]
      ]
    where
      none_left : none ≡ some t → Entombs s t
      none_left k = cc

      same : {x : PublishStore} → Entombs s x → some x ≡ some t → Entombs s t
      same {x} kept k = let e : x ≡ t = cc k in subst (Entombs s) e kept

  nothing : (s : PublishStore) (surface : Surface) → Revokes s surface (s, surface, none)
  nothing s surface =
      (refl, refl, same-StillFound s.cards.card_revisions s.cards.card_revisions refl, inl refl)

  pub correct-Revokes :
      (s : PublishStore) (surface : Surface) (revocation_id claim_id id reason : String) (now : ℕ)
      → Revokes s surface (correct stamp s surface revocation_id claim_id id reason now)
  unfolding correct
  correct-Revokes s surface revocation_id claim_id id reason now =
      elim (Option-cases (find_revision s.cards.card_revisions id)) [
        | inl missing ↦ back (s, surface, none) (rw (missing, correct) refl) (nothing s surface)
        | inr (row, found) ↦
            elim (Option-cases
              (open_revocation stamp s revocation_id "correction" claim_id row reason now)) [
                | inl taken ↦
                    back (s, surface, none) (rw (found, taken, correct) refl) (nothing s surface)
                | inr (t, done) ↦
                    let ((cards, clearances), publications) =
                      open_revocation-KeepsAll s t revocation_id "correction" claim_id row reason
                        now done in
                    let notice : Correction = record {
                      revocation_id = revocation_id;
                      reason = reason;
                      at = stamp now;
                    } in
                    back
                      (
                        t,
                        attach_correction surface claim_id notice,
                        some (stamp (now + revocation_window_minutes * 60)),
                      )
                      (rw (found, done, correct) refl)
                      (
                        clearances,
                        publications,
                        same-StillFound s.cards.card_revisions t.cards.card_revisions
                            (ap (λ c. c.card_revisions) cards),
                        inr (inr (claim_id, notice, refl)),
                      )
              ]
      ]
    where
      back :
          (made : Result String)
          → correct stamp s surface revocation_id claim_id id reason now ≡ made
          → Revokes s surface made
          → Revokes s surface (correct stamp s surface revocation_id claim_id id reason now)
      back made same h = subst (Revokes s surface) (sym same) h

  pub retract-Revokes :
      (s : PublishStore) (surface : Surface) (revocation_id claim_id id reason : String) (now : ℕ)
      (tombstone_id : String)
      → Revokes s surface
          (retract stamp s surface revocation_id claim_id id reason now tombstone_id)
  unfolding retract
  retract-Revokes s surface revocation_id claim_id id reason now tombstone_id =
      elim (Option-cases (find_revision s.cards.card_revisions id)) [
        | inl missing ↦ back (s, surface, none) (rw (missing, retract) refl) (nothing s surface)
        | inr (row, found) ↦
            elim (Option-cases
              (open_revocation stamp s revocation_id "retraction" claim_id row reason now)) [
                | inl taken ↦
                    back (s, surface, none) (rw (found, taken, retract) refl) (nothing s surface)
                | inr (t, done) ↦
                    let ((cards, clearances), publications) =
                      open_revocation-KeepsAll s t revocation_id "retraction" claim_id row reason
                        now done in
                    let explanation = "This presentation was retracted: " ⧺ reason in
                    let tombstone : Tombstone = record {
                      claim_id = claim_id;
                      card_revision_id = id;
                      explanation = explanation;
                      at = stamp now;
                    } in
                    let still =
                      λ (i : String) (row : CardRevision)
                          (h : find_revision s.cards.card_revisions i ≡ some row).
                        ap (λ c. find_revision c.card_revisions i) cards ∙ h in
                    elim (Option-cases (withdraw surface claim_id tombstone)) [
                      | inl unmade ↦
                          back (t, surface, none) (rw (found, done, unmade, retract) refl)
                            (
                              clearances,
                              publications,
                              same-StillFound s.cards.card_revisions t.cards.card_revisions
                                  (ap (λ c. c.card_revisions) cards),
                              inl refl,
                            )
                      | inr (withdrawn, gone) ↦
                          elim (Option-cases
                            (entomb t claim_id id reason explanation tombstone_id)) [
                              | inl taken ↦
                                  back (t, withdrawn, none)
                                    (rw (found, done, gone, taken, retract) refl)
                                    (
                                      clearances,
                                      publications,
                                      same-StillFound s.cards.card_revisions t.cards.card_revisions
                                          (ap (λ c. c.card_revisions) cards),
                                      inr (inl (claim_id, tombstone, gone)),
                                    )
                              | inr (u, buried) ↦
                                  let (clearances', publications', after) =
                                    entomb-Entombs t u claim_id id reason explanation tombstone_id
                                      buried in
                                  back
                                    (
                                      u,
                                      withdrawn,
                                      some (stamp (now + revocation_window_minutes * 60)),
                                    )
                                    (rw (found, done, gone, buried, retract) refl)
                                    (
                                      clearances' ∙ clearances,
                                      publications' ∙ publications,
                                      λ i row h. after i row (still i row h),
                                      inr (inl (claim_id, tombstone, gone)),
                                    )
                            ]
                    ]
              ]
      ]
    where
      back :
          (made : Result String)
          → retract stamp s surface revocation_id claim_id id reason now tombstone_id ≡ made
          → Revokes s surface made
          → Revokes s surface
              (retract stamp s surface revocation_id claim_id id reason now tombstone_id)
      back made same h = subst (Revokes s surface) (sym same) h
