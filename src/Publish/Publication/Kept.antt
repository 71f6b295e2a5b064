-- ===== src/Publish/Publication/Kept.antt =====
-- What each operation of publication leaves as it was.
use new_z.Prelude.{
  ℕ, ◌≡◌, ◌⊎◌, refl, sym, ap, ◌∙◌, Bool, true, false, not, Option, none, some, List, [], ◌∷◌, ◌++◌,
  map, String, ◌==◌, string_eq, if◌then◌else◌, is_filled, exists, if_elim, Bool-cases, Option-cases,
  inl, inr,
}
use mathlib.Core.Path.{subst}
use new_z.Domain.Evidence.{RiskTier, risk_eq}
use new_z.Domain.Version.{current_policy_version}
use new_z.Policy.Promotion.{◌⧺◌}
use new_z.Evidence.Assess.{reassessment_owed}
use new_z.Present.Cards.{Card, CardRevision, find_revision}
use new_z.Publish.Surface.{Surface, serves_revision}
use new_z.Publish.Tables.{Clearance, Publication, PublishStore, class_of}
use new_z.Publish.Appraisal.{current_risk, appraise, find_pending, sample_for_review}
use new_z.Publish.Clearance.{
  confirmed, Refusal, refusal_conditions, operator_refusals, join_refusals, granted_of, clear,
  halt_class, overdue_revocations,
}
use new_z.Publish.Publication.{
  unconfirmed, find_publication, find_revocation, queue_if_sampled, confirm_read,
  confirm_publication, confirm_revocation, halt_each, halt_classes_with_overdue_revocations,
}

-- The cards and the clearances stay.
abbrev pub Keeps : PublishStore → PublishStore → Type 0
Keeps s t = (t.cards ≡ s.cards) × (t.clearances ≡ s.clearances)

Keeps-trans : (s t u : PublishStore) → Keeps s t → Keeps t u → Keeps s u
Keeps-trans s t u (a, b) (c, d) = (c ∙ a, d ∙ b)

abbrev pub KeepsAll : PublishStore → PublishStore → Type 0
KeepsAll s t = Keeps s t × (t.publications ≡ s.publications)

sample_for_review-KeepsAll :
    (s : PublishStore) (row : CardRevision) (reason id : String)
    → KeepsAll s (sample_for_review s row reason id).0
unfolding sample_for_review
sample_for_review-KeepsAll s row reason id =
    elim (Option-cases (find_pending s.review_queue row.id)) [
      | inl fresh ↦ rw (fresh, sample_for_review) ((refl, refl), refl)
      | inr (q, pending) ↦ rw (pending, sample_for_review) ((refl, refl), refl)
    ]

module _ (repr : String → String) (digest : Card → String) (bucket : String → ℕ)
    (local_id : String → String) where
  queue_if_sampled-KeepsAll :
      (s : PublishStore) (row : CardRevision)
      → KeepsAll s (queue_if_sampled repr digest bucket local_id s row)
  unfolding queue_if_sampled appraise
  queue_if_sampled-KeepsAll s row =
      let (appraised, appraisal) = appraise repr digest bucket local_id s row in
      if_elim (λ t. KeepsAll s t) appraisal.sampled
        (λ _.
          sample_for_review-KeepsAll appraised row appraisal.sample_reason
            ("review:" ⧺ local_id row.id))
        (λ _. ((refl, refl), refl))

  -- A confirmation changes the status of publications at most.
  abbrev pub Confirms : PublishStore → PublishStore → Type 0
  Confirms s t =
      Keeps s t
      × ((t.publications ≡ s.publications)
          ⊎ ((id status : String) × (t.publications
                ≡ map (λ (p : Publication). if p.id == id then record p { status = status } else p)
                    s.publications)))

  confirm_read-Confirms :
      (s : PublishStore) (p : Publication) (row : CardRevision) (serving : Bool)
      → Confirms s (confirm_read repr digest bucket local_id s p row serving).0
  unfolding confirm_read
  confirm_read-Confirms s p row false = ((refl, refl), inr (p.id, unconfirmed, refl))
  confirm_read-Confirms s p row true =
      let updated = record s {
        publications =
            map (λ (x : Publication). if x.id == p.id then record x { status = confirmed } else x)
              s.publications;
      } in
      let (kept, same) = queue_if_sampled-KeepsAll updated row in
      (kept, inr (p.id, confirmed, same))

  pub confirm_publication-Confirms :
      (s : PublishStore) (surface : Surface) (id : String)
      → Confirms s (confirm_publication repr digest bucket local_id s surface id).0
  unfolding confirm_publication
  confirm_publication-Confirms s surface id =
      elim (Option-cases (find_publication s.publications id)) [
        | inl missing ↦ back s (rw (missing, confirm_publication) refl) ((refl, refl), inl refl)
        | inr (p, there) ↦
            elim (Option-cases (find_revision s.cards.card_revisions p.card_revision_id)) [
              | inl missing ↦
                  back s (rw (there, missing, confirm_publication) refl) ((refl, refl), inl refl)
              | inr (row, found) ↦
                  let serving = serves_revision surface row.claim_id row.content_hash in
                  back (confirm_read repr digest bucket local_id s p row serving).0
                    (rw (there, found, confirm_publication) refl)
                    (confirm_read-Confirms s p row serving)
            ]
      ]
    where
      back :
          (t : PublishStore)
          → (confirm_publication repr digest bucket local_id s surface id).0 ≡ t
          → Confirms s t
          → Confirms s (confirm_publication repr digest bucket local_id s surface id).0
      back t same h = subst (Confirms s) (sym same) h

  module _ (from_ledger : String → ℕ) (clock : ℕ) where
    -- A clearance leaves a row for a revision that is there, with its content, or none.
    abbrev pub ClearsOne : PublishStore → PublishStore → Type 0
    ClearsOne s t =
        (t.cards ≡ s.cards)
        × (t.publications ≡ s.publications)
        × ((t.clearances ≡ s.clearances)
            ⊎ ((row : CardRevision) × (id : String) × (c : Clearance) × (find_revision
                    s.cards.card_revisions id
                  ≡ some row)
                × (c.card_revision_id ≡ row.id)
                × (c.content_hash ≡ row.content_hash)
                × (t.clearances ≡ s.clearances ++ c ∷ [])))

    granted-ClearsOne :
        (s t : PublishStore) (row : CardRevision) (id : String) (all : List Refusal)
        (requires : Bool) (clearance_id actor : String)
        → find_revision s.cards.card_revisions id ≡ some row
        → t.cards ≡ s.cards
        → t.clearances ≡ s.clearances
        → t.publications ≡ s.publications
        → ClearsOne s (granted_of t row all requires clearance_id actor).0
    unfolding granted_of
    granted-ClearsOne s t row id all requires clearance_id actor found cards clearances
          publications =
        let last : Clearance = record {
          id = clearance_id;
          card_revision_id = row.id;
          content_hash = row.content_hash;
          output_class = class_of row;
          granted = not (is_filled all);
          refusal_reason = join_refusals all;
          policy_version = current_policy_version;
          operator_actor = actor;
        } in
        (
          cards,
          publications,
          inr (row, id, last, found, refl, refl, ap (λ cs. cs ++ last ∷ []) clearances),
        )

    conditions-KeepsAll :
        (s t : PublishStore) (id now : String) (refusals : List Refusal)
        → refusal_conditions repr digest bucket local_id from_ledger clock s id now
          ≡ some (t, refusals)
        → KeepsAll s t
    unfolding refusal_conditions appraise
    conditions-KeepsAll s t id now refusals h =
        elim (Option-cases (find_revision s.cards.card_revisions id)) [
          | inl missing ↦ none_left (rw (missing, refusal_conditions) at h)
          | inr (row, found) ↦
              elim (Option-cases (reassessment_owed s.cards.evidence row.claim_id)) [
                | inl missing ↦ none_left (rw missing at (rw (found, refusal_conditions) at h))
                | inr (owed, given) ↦
                    same_store (appraise repr digest bucket local_id s row).0 ((refl, refl), refl)
                      (rw given at (rw (found, refusal_conditions) at h))
              ]
        ]
      where
        none_left :
            ◌≡◌ {A = Option (PublishStore × List Refusal)} none (some (t, refusals)) → KeepsAll s t
        none_left k = cc

        same_store :
            (x : PublishStore) {rs : List Refusal}
            → KeepsAll s x
            → ◌≡◌ {A = Option (PublishStore × List Refusal)} (some (x, rs)) (some (t, refusals))
            → KeepsAll s t
        same_store x kept k = let same : x ≡ t = cc k in subst (KeepsAll s) same kept

    pub clear-ClearsOne :
        (s : PublishStore) (id clearance_id now actor approves : String)
        → ClearsOne s
            (clear repr digest bucket local_id from_ledger clock s id clearance_id now actor
              approves).0
    unfolding clear
    clear-ClearsOne s id clearance_id now actor approves =
        elim (Option-cases (find_revision s.cards.card_revisions id)) [
          | inl missing ↦ back s (rw (missing, clear) refl) (refl, refl, inl refl)
          | inr (row, found) ↦
              elim (Option-cases
                (refusal_conditions repr digest bucket local_id from_ledger clock s id now)) [
                  | inl missing ↦ back s (rw (found, missing, clear) refl) (refl, refl, inl refl)
                  | inr ((t, refusals), given) ↦
                      let ((cards, clearances), publications) =
                        conditions-KeepsAll s t id now refusals given in
                      elim (Bool-cases
                        (exists (λ (c : Clearance). c.id == clearance_id) s.clearances)) [
                          | inl taken ↦
                              back t (rw (found, given, taken, clear) refl)
                                (cards, publications, inl clearances)
                          | inr free ↦
                              let requires = current_risk s row.claim_id == RiskTier.r3 in
                              let all = refusals ++ operator_refusals requires row actor approves in
                              let made = granted_of t row all requires clearance_id actor in
                              back made.0 (rw (found, given, free, clear) refl) (
                                granted-ClearsOne s t row id all requires clearance_id actor found
                                  cards clearances publications)
                        ]
                ]
        ]
      where
        back :
            (t : PublishStore)
            → (clear repr digest bucket local_id from_ledger clock s id clearance_id now actor
                approves).0
              ≡ t
            → ClearsOne s t
            → ClearsOne s
                (clear repr digest bucket local_id from_ledger clock s id clearance_id now actor
                  approves).0
        back t same h = subst (ClearsOne s) (sym same) h

-- The revocations move, and nothing else that is read here.
pub confirm_revocation-KeepsAll :
    (stamp : ℕ → String) (s : PublishStore) (surface : Surface) (id : String) (now : ℕ)
    → KeepsAll s (confirm_revocation stamp s surface id now).0
unfolding confirm_revocation
confirm_revocation-KeepsAll stamp s surface id now =
    elim (Option-cases (find_revocation s.revocations id)) [
      | inl missing ↦ rw (missing, confirm_revocation) ((refl, refl), refl)
      | inr (r, there) ↦ rw (there, confirm_revocation) ((refl, refl), refl)
    ]

halt_each-KeepsAll : (s : PublishStore) (ids : List String) → KeepsAll s (halt_each s ids).0
unfolding halt_each halt_class
halt_each-KeepsAll s [] = ((refl, refl), refl)
halt_each-KeepsAll s (id ∷ ids) = elim (Option-cases (find_revocation s.revocations id)) [
  | inl missing ↦ rw (missing, halt_each) (halt_each-KeepsAll s ids)
  | inr (r, there) ↦
      rw (there, halt_each)
        (halt_each-KeepsAll
          (halt_class s r.output_class (r.kind ⧺ " " ⧺ id ⧺ " passed its window unconfirmed")) ids)
]

pub halt_classes_with_overdue_revocations-KeepsAll :
    (s : PublishStore) (now : String) → KeepsAll s (halt_classes_with_overdue_revocations s now).0
unfolding halt_classes_with_overdue_revocations
halt_classes_with_overdue_revocations-KeepsAll s now =
    halt_each-KeepsAll s (overdue_revocations s.revocations now none)
