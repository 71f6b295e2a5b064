-- ===== src/Control/Adversarial/Laws.antt =====
-- When R2 evidence is refused for its sources.
use new_z.Prelude.{
  ℕ, ◌≡◌, refl, ap, ◌∙◌, arith, Bool, true, false, not, ◌&&◌, ◌||◌, List, [], ◌∷◌, String, ◌==◌,
  string_eq, if◌then◌else◌, is_text, is_text-append, is_filled, is_some, text_lt, exists, select,
  sort_by, flat_map, exists-sort_by, exists_congr, exists-flat_map, exists-select,
  is_filled-eq-exists, Bool-cases, inl, inr,
}
use new_z.Domain.Evidence.{RiskTier, risk_eq}
use new_z.Domain.Records.{EdgeEvent}
use new_z.Policy.Promotion.{◌⧺◌}
use new_z.Evidence.Edges.{EdgeStore}
use new_z.Evidence.Assess.{distinct}
use new_z.Control.Adversarial.{
  ClassReview, ReviewStore, class_of_source, is_live, live_review, unreviewed_of, source_of,
  holding_sources, unreviewed_r2_sources, join_sources, r2_admission_refusal,
}

exists-distinct : (p : String → Bool) (xs : List String) → exists p (distinct xs) ≡ exists p xs
unfolding distinct
exists-distinct p [] = refl
exists-distinct p (x ∷ []) = refl
exists-distinct p (x ∷ y ∷ more) = elim (Bool-cases (x == y)) [
  | inl same ↦
      rw same (exists-distinct p (y ∷ more) ∙ twice (p x) (ap p ((string_eq.beq_iff x y).0 same)))
  | inr other ↦ rw other (ap (λ b. p x || b) (exists-distinct p (y ∷ more)))
]
  where
    twice : (b : Bool) → b ≡ p y → (p y || exists p more) ≡ (b || (p y || exists p more))
    twice b h = ground arith

module _ (from_ledger : String → ℕ) where
  -- A class with a review that is neither withdrawn nor expired.
  abbrev pub is_reviewed : ReviewStore → ℕ → String → Bool
  is_reviewed store now source_class =
      is_text source_class
      && exists (λ r. r.source_class == source_class && is_live from_ledger now r) store.reviews

  is_some-live_review :
      (rows : List ClassReview) (source_class : String) (now : ℕ)
      → is_some (live_review from_ledger rows source_class now)
        ≡ exists (λ r. r.source_class == source_class && is_live from_ledger now r) rows
  unfolding live_review
  is_some-live_review [] source_class now = refl
  is_some-live_review (r ∷ rows) source_class now =
      ground (arith, is_some-live_review rows source_class now)

  unreviewed_of-exists :
      (store : ReviewStore) (now : ℕ) (revision : String)
      → exists (λ x. true) (unreviewed_of from_ledger store now revision)
        ≡ not (is_reviewed store now (class_of_source store revision))
  unfolding unreviewed_of
  unreviewed_of-exists store now revision =
      ground (arith, is_some-live_review store.reviews (class_of_source store revision) now)

  -- An edge that holds the claim up, with a source in no reviewed class.
  abbrev pub is_unreviewed : EdgeStore → ReviewStore → String → ℕ → EdgeEvent → Bool
  is_unreviewed edges store claim_id now e =
      (e.claim_id == claim_id && (e.live && e.admitted))
      && exists (λ s. not (is_reviewed store now (class_of_source store s))) (source_of edges e)

  unreviewed-exists :
      (edges : EdgeStore) (store : ReviewStore) (claim_id : String) (now : ℕ)
      → is_filled (unreviewed_r2_sources from_ledger edges store claim_id now)
        ≡ exists (is_unreviewed edges store claim_id now) edges.edge_events
  unfolding unreviewed_r2_sources holding_sources
  unreviewed-exists edges store claim_id now =
      let holds = λ (e : EdgeEvent). e.claim_id == claim_id && (e.live && e.admitted) in
      let bare = λ (s : String). not (is_reviewed store now (class_of_source store s)) in
      let sources = flat_map (source_of edges) (select holds edges.edge_events) in
      is_filled-eq-exists (unreviewed_r2_sources from_ledger edges store claim_id now)
      ∙ exists-flat_map (λ x. true) (unreviewed_of from_ledger store now)
          (holding_sources edges claim_id)
      ∙ exists_congr (λ s. exists (λ x. true) (unreviewed_of from_ledger store now s)) bare
          (holding_sources edges claim_id) (unreviewed_of-exists store now)
      ∙ exists-distinct bare (sort_by text_lt sources)
      ∙ exists-sort_by text_lt bare sources
      ∙ exists-flat_map bare (source_of edges) (select holds edges.edge_events)
      ∙ exists-select holds (λ e. exists bare (source_of edges e)) edges.edge_events

  -- An R2 claim is refused for its sources exactly if some live, admitted edge of it comes from a
  -- source whose class, the first in order that lists it, has no review that is neither withdrawn
  -- nor expired, or that is in no class. No claim of another tier is.
  pub r2_admission_refusal_iff :
      (edges : EdgeStore) (store : ReviewStore) (claim_id : String) (risk : RiskTier) (now : ℕ)
      → is_text (r2_admission_refusal from_ledger edges store claim_id risk now)
        ≡ (risk == RiskTier.r2 && exists (is_unreviewed edges store claim_id now) edges.edge_events)
  unfolding r2_admission_refusal
  r2_admission_refusal_iff edges store claim_id risk now =
      let sources = unreviewed_r2_sources from_ledger edges store claim_id now in
      refused (risk == RiskTier.r2) (is_filled sources) (join_sources sources)
      ∙ ap (λ b. risk == RiskTier.r2 && b) (unreviewed-exists edges store claim_id now)
    where
      refused :
          (tier filled : Bool) (names : String)
          → is_text (
              if not tier
              then ""
              else if not filled
              then ""
              else "R2 evidence may come only from a source class admitted by direct adversarial review: "
                ⧺ names)
            ≡ (tier && filled)
      refused false filled names = refl
      refused true false names = refl
      refused true true names =
          is_text-append
            "R2 evidence may come only from a source class admitted by direct adversarial review: "
            names refl
