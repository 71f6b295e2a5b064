-- ===== src/Publish/Publication.antt =====
-- newz/publish/publication.py: publishing, correcting and retracting, each confirmed by reading the
-- surface back. A moment is a number of seconds; `stamp` and `from_ledger` of newz/clock.py are
-- parameters, and so are those of the appraisal.
pub mod Kept
pub mod Publishes
pub mod Revokes
pub mod Shown
pub mod Steps
pub mod Cleared
pub mod Contents
pub mod Served
pub mod Overdue
pub mod Opened
pub mod Revoked
pub mod Corrected
use new_z.Prelude.{
  ℕ, ◌+◌, ◌*◌, Bool, true, false, not, ◌&&◌, ◌||◌, Option, none, some, List, [], ◌∷◌, ◌++◌, map,
  String, ◌==◌, string_eq, if◌then◌else◌, is_some, text_lt, length, exists, select, sort_by,
  nat_beq,
}
use new_z.Policy.Promotion.{◌⧺◌}
use new_z.Evidence.Assess.{distinct}
use new_z.Present.Dependencies.{find_claim}
use new_z.Present.Cards.{Card, CardRevision, CardStore, find_revision}
use new_z.Publish.Surface.{
  Correction, Tombstone, Surface, serve, withdraw, attach_correction, serves_revision,
  in_navigation, has_tombstone, corrections_on,
}
use new_z.Publish.Tables.{
  Clearance, Publication, Revocation, TombstoneRow, Audited, PublishStore, class_of,
}
use new_z.Publish.Appraisal.{appraise, sample_for_review}
use new_z.Publish.Clearance.{confirmed, halt_class, overdue_revocations}

abbrev pub revocation_window_minutes : ℕ
revocation_window_minutes = 15

abbrev pub attempted : String
attempted = "attempted"

abbrev pub unconfirmed : String
unconfirmed = "unconfirmed"

unfoldable pub find_clearance : List Clearance → String → Option Clearance
find_clearance [] id = none
find_clearance (c ∷ rest) id = if c.id == id then some c else find_clearance rest id

unfoldable pub find_publication : List Publication → String → Option Publication
find_publication [] id = none
find_publication (p ∷ rest) id = if p.id == id then some p else find_publication rest id

unfoldable pub find_revocation : List Revocation → String → Option Revocation
find_revocation [] id = none
find_revocation (r ∷ rest) id = if r.id == id then some r else find_revocation rest id

-- What an operation leaves in the store and on the surface, with its result; none is an exception.
abbrev pub Result : Type 0 → Type 0
Result A = PublishStore × Surface × Option A

-- From the surface on: the page is served before the row is written, so an id that is taken leaves
-- the page.
unfoldable pub attempt :
    PublishStore
    → Surface
    → CardRevision
    → (publication_id clearance_id audience : String) → Result Publication
attempt store surface row publication_id clearance_id audience =
    let served = serve surface row.claim_id row.id row.content_hash row.content in
    let publication : Publication = record {
      id = publication_id;
      card_revision_id = row.id;
      clearance_id = clearance_id;
      audience = audience;
      status = attempted;
    } in
    if exists (λ p. p.id == publication_id) store.publications then (store, served, none) else (
      record store { publications = store.publications ++ publication ∷ [] },
      served,
      some publication,
    )

unfoldable pub publish :
    PublishStore
    → Surface
    → (publication_id card_revision_id clearance_id audience : String) → Result Publication
publish store surface publication_id card_revision_id clearance_id audience =
    elim (find_clearance store.clearances clearance_id) [
      | none ↦ (store, surface, none)
      | some clearance ↦
          if not clearance.granted
          then (store, surface, none)
          else if not (clearance.card_revision_id == card_revision_id)
          then (store, surface, none)
          else elim (find_revision store.cards.card_revisions card_revision_id) [
            | none ↦ (store, surface, none)
            | some row ↦ attempt store surface row publication_id clearance_id audience
          ]
    ]

unfoldable pub published_count : PublishStore → String → ℕ
published_count store audience =
    length (select (λ p. p.audience == audience && p.status == confirmed) store.publications)

module _ (repr : String → String) (digest : Card → String) (bucket : String → ℕ)
    (local_id : String → String) where
  -- `_queue_if_sampled`
  unfoldable pub queue_if_sampled : PublishStore → CardRevision → PublishStore
  queue_if_sampled store row =
      let (appraised, appraisal) = appraise repr digest bucket local_id store row in
      if appraisal.sampled
      then (sample_for_review appraised row appraisal.sample_reason ("review:" ⧺ local_id row.id)).0
      else appraised

  -- The update of the status, and the queue of a confirmed one.
  unfoldable pub confirm_read :
      PublishStore → Publication → CardRevision → Bool → PublishStore × Publication
  confirm_read store publication row serving =
      let status = if serving then confirmed else unconfirmed in
      let updated : PublishStore = record store {
        publications =
            map
              (λ (p : Publication).
                if p.id == publication.id then record p { status = status } else p)
              store.publications;
      } in
      (
        if serving then queue_if_sampled updated row else updated,
        record publication { status = status },
      )

  unfoldable pub confirm_publication :
      PublishStore → Surface → String → PublishStore × Option Publication
  confirm_publication store surface publication_id =
      elim (find_publication store.publications publication_id) [
        | none ↦ (store, none)
        | some publication ↦
            elim (find_revision store.cards.card_revisions publication.card_revision_id) [
              | none ↦ (store, none)
              | some row ↦
                  let (store', publication') =
                    confirm_read store publication row
                      (serves_revision surface row.claim_id row.content_hash) in
                  (store', some publication')
            ]
      ]

-- The last transaction of a retraction: none is the IntegrityError of a taken id
-- or of a claim that is not there.
unfoldable pub entomb :
    PublishStore
    → (claim_id card_revision_id reason explanation tombstone_id : String) → Option PublishStore
entomb store claim_id card_revision_id reason explanation tombstone_id =
    let cards = store.cards in
    if exists (λ t. t.id == tombstone_id) store.tombstones
    then none
    else if not (is_some (find_claim cards.evidence.edges.claims claim_id))
    then none
    else some (record store {
      tombstones =
          store.tombstones
          ++ record {
            id = tombstone_id;
            claim_id = claim_id;
            card_revision_id = card_revision_id;
            explanation = explanation;
          }
            ∷ [];
      cards = record cards {
        card_revisions =
            map
              (λ (r : CardRevision).
                if r.id == card_revision_id then record r { live = false } else r)
              cards.card_revisions;
      };
      audit_events =
          store.audit_events
          ++ record {
            actor = "system";
            action = "retract";
            target = card_revision_id;
            reason = reason;
            preimage = claim_id;
            result = tombstone_id;
            channel = "system";
          }
            ∷ [];
    })

-- What the surface shows of the revocation.
unfoldable pub is_effected : Surface → Revocation → Bool
is_effected surface r =
    if r.kind == "retraction"
    then not (in_navigation surface r.claim_id) && has_tombstone surface r.claim_id
    else exists (λ notice. notice.revocation_id == r.id) (corrections_on surface r.claim_id)

module _ (stamp : ℕ → String) where
  -- `_open_revocation`, of a revision that was found; none is the IntegrityError of a taken id
  -- or of a claim that is not there.
  unfoldable pub open_revocation :
      PublishStore
      → (revocation_id kind claim_id : String) → CardRevision
      → (reason : String) → ℕ
      → Option PublishStore
  open_revocation store revocation_id kind claim_id row reason now =
      if exists (λ r. r.id == revocation_id) store.revocations
      then none
      else if not (is_some (find_claim store.cards.evidence.edges.claims claim_id))
      then none
      else some (record store {
        revocations =
            store.revocations
            ++ record {
              id = revocation_id;
              kind = kind;
              claim_id = claim_id;
              card_revision_id = row.id;
              output_class = class_of row;
              reason = reason;
              attempted_at = stamp now;
              due_at = stamp (now + revocation_window_minutes * 60);
              confirmed_at = "";
              status = attempted;
            }
              ∷ [];
      })

  unfoldable pub correct :
      PublishStore
      → Surface
      → (revocation_id claim_id card_revision_id reason : String) → ℕ
      → Result String
  correct store surface revocation_id claim_id card_revision_id reason now =
      elim (find_revision store.cards.card_revisions card_revision_id) [
        | none ↦ (store, surface, none)
        | some row ↦
            elim (open_revocation store revocation_id "correction" claim_id row reason now) [
              | none ↦ (store, surface, none)
              | some opened ↦ (
                opened,
                attach_correction surface claim_id
                    record { revocation_id = revocation_id; reason = reason; at = stamp now },
                some (stamp (now + revocation_window_minutes * 60)),
              )
            ]
      ]

  unfoldable pub retract :
      PublishStore
      → Surface
      → (revocation_id claim_id card_revision_id reason : String) → ℕ
      → (tombstone_id : String) → Result String
  retract store surface revocation_id claim_id card_revision_id reason now tombstone_id =
      elim (find_revision store.cards.card_revisions card_revision_id) [
        | none ↦ (store, surface, none)
        | some row ↦
            elim (open_revocation store revocation_id "retraction" claim_id row reason now) [
              | none ↦ (store, surface, none)
              | some opened ↦
                  let explanation = "This presentation was retracted: " ⧺ reason in
                  let tombstone : Tombstone = record {
                    claim_id = claim_id;
                    card_revision_id = card_revision_id;
                    explanation = explanation;
                    at = stamp now;
                  } in
                  elim (withdraw surface claim_id tombstone) [
                    | none ↦ (opened, surface, none)
                    | some withdrawn ↦
                        elim (entomb opened claim_id card_revision_id reason explanation
                          tombstone_id) [
                            | none ↦ (opened, withdrawn, none)
                            | some entombed ↦ (
                              entombed,
                              withdrawn,
                              some (stamp (now + revocation_window_minutes * 60)),
                            )
                          ]
                  ]
            ]
      ]

  unfoldable pub confirm_revocation :
      PublishStore → Surface → String → ℕ → PublishStore × Option String
  confirm_revocation store surface revocation_id now =
      elim (find_revocation store.revocations revocation_id) [
        | none ↦ (store, none)
        | some r ↦
            let status = if is_effected surface r then confirmed else unconfirmed in
            (
              record store {
                revocations =
                    map
                      (λ (x : Revocation).
                        if x.id == revocation_id
                        then record x { status = status; confirmed_at = stamp now }
                        else x)
                      store.revocations;
              },
              some status,
            )
      ]

-- The loop over the overdue revocations: the store, and the classes that it halted.
unfoldable pub halt_each : PublishStore → List String → PublishStore × List String
halt_each store [] = (store, [])
halt_each store (id ∷ ids) = elim (find_revocation store.revocations id) [
  | none ↦ halt_each store ids
  | some r ↦
      let (store', classes) =
        halt_each
          (halt_class store r.output_class (r.kind ⧺ " " ⧺ id ⧺ " passed its window unconfirmed"))
          ids in
      (store', r.output_class ∷ classes)
]

unfoldable pub halt_classes_with_overdue_revocations :
    PublishStore → String → PublishStore × List String
halt_classes_with_overdue_revocations store now =
    let (store', classes) = halt_each store (overdue_revocations store.revocations now none) in
    (store', distinct (sort_by text_lt classes))
