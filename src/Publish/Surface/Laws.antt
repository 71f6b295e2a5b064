-- ===== src/Publish/Surface/Laws.antt =====
-- What stays true of the surface, and what the reader sees of a withdrawal.
use new_z.Prelude.{
  ◌≡◌, refl, sym, ap, ◌∙◌, arith, Bool, true, false, not, ◌&&◌, some, List, [], ◌∷◌, ◌++◌, String,
  ◌==◌, string_eq, is_some, text_lt, get, put, get-put, every, exists, select, sort_by, exists-map,
  exists-sort_by, eq_refl, Bool-cases, Option-cases, inl, inr,
}
use new_z.Policy.Promotion.{◌⧺◌}
use new_z.Present.Cards.{Card}
use new_z.Publish.Surface.{
  Correction, Page, Tombstone, Surface, stem, entry_of, reindex, serve, without, withdraw,
  attach_correction, in_navigation, has_tombstone,
}

-- A page stands under the name of its card's claim.
abbrev pub is_filed : String × Page → Bool
is_filed (name, page) = name == stem page.card.claim_id

abbrev pub IsFiled : Surface → Type 0
IsFiled s = every is_filed s.pages ≡ true

every-put :
    (p : String × Page → Bool) (d : List (String × Page)) (k : String) (v : Page)
    → every p d ≡ true
    → p (k, v) ≡ true
    → every p (put d k v) ≡ true
every-put p [] k v h q = ground arith
every-put p ((j, w) ∷ d) k v h q = elim (Bool-cases (j == k)) [
  | inl same ↦
      rw same
        (ap (λ x. p (x, v) && every p d) ((string_eq.beq_iff j k).0 same) ∙ ground (arith, q, h))
  | inr other ↦ rw other (ground (arith, h, every-put p d k v))
]

pub every-get :
    (p : String × Page → Bool) (d : List (String × Page)) (k : String) (v : Page)
    → every p d ≡ true
    → get d k ≡ some v
    → p (k, v) ≡ true
every-get p [] k v h g = cc
every-get p ((j, w) ∷ d) k v h g = elim (Bool-cases (j == k)) [
  | inl same ↦
      ap (λ x. p (x, v)) (sym ((string_eq.beq_iff j k).0 same))
      ∙ ap (λ x. p (j, x)) (sym (some_inj (rw same at g)))
      ∙ ground (arith, h)
  | inr other ↦ every-get p d k v (ground (arith, h)) (rw other at g)
]
  where
    some_inj : some w ≡ some v → w ≡ v
    some_inj k' = cc

every-select :
    (p q : String × Page → Bool) (d : List (String × Page))
    → every p d ≡ true
    → every p (select q d) ≡ true
every-select p q [] h = refl
every-select p q (x ∷ d) h = ground (arith, every-select p q d)

-- A test of every page goes through the operations.
pub serve-every :
    (p : String × Page → Bool) (s : Surface) (claim_id revision_id content_hash : String)
    (body : Card)
    → every p s.pages ≡ true
    → p (
      stem claim_id,
      record {
        revision_id = revision_id;
        content_hash = content_hash;
        card = body;
        corrections = [];
      },
    )
      ≡ true
    → every p (serve s claim_id revision_id content_hash body).pages ≡ true
unfolding serve reindex
serve-every p s claim_id revision_id content_hash body h q =
    every-put p s.pages (stem claim_id) _ h q

-- What a withdrawal that returns leaves.
pub withdraw-made :
    (s t : Surface) (claim_id : String) (tombstone : Tombstone)
    → withdraw s claim_id tombstone ≡ some t
    → reindex (record s {
      pages = without s.pages (stem claim_id);
      tombstones = put s.tombstones (stem claim_id) tombstone;
    })
      ≡ t
unfolding withdraw
withdraw-made s t claim_id tombstone h = elim (Bool-cases s.is_made) [
  | inl made ↦ cc (rw made at h)
  | inr unmade ↦ cc (rw unmade at h)
]

pub withdraw-every :
    (p : String × Page → Bool) (s t : Surface) (claim_id : String) (tombstone : Tombstone)
    → withdraw s claim_id tombstone ≡ some t
    → every p s.pages ≡ true
    → every p t.pages ≡ true
unfolding reindex
withdraw-every p s t claim_id tombstone gone h =
    ap (λ (x : Surface). every p x.pages) (sym (withdraw-made s t claim_id tombstone gone))
    ∙ every-select p (λ x. not (x.0 == stem claim_id)) s.pages h

pub attach_correction-every :
    (p : String × Page → Bool) (s : Surface) (claim_id : String) (notice : Correction)
    → ((name : String) (page : Page)
        → p (name, page) ≡ true
        → p (name, record page { corrections = page.corrections ++ notice ∷ [] }) ≡ true)
    → every p s.pages ≡ true
    → every p (attach_correction s claim_id notice).pages ≡ true
unfolding attach_correction
attach_correction-every p s claim_id notice keeps h =
    elim (Option-cases (get s.pages (stem claim_id))) [
      | inl none_there ↦ rw (none_there, attach_correction) h
      | inr (page, there) ↦
          rw (there, attach_correction)
            (every-put p s.pages (stem claim_id)
              (record page { corrections = page.corrections ++ notice ∷ [] }) h
              (keeps (stem claim_id) page (every-get p s.pages (stem claim_id) page h there)))
    ]

reindex-in_navigation :
    (s : Surface) (claim_id : String)
    → in_navigation (reindex s) claim_id
      ≡ exists (λ (p : String × Page). p.1.card.claim_id == claim_id) s.pages
unfolding in_navigation reindex
reindex-in_navigation s claim_id =
    let before = λ (p q : String × Page). text_lt (p.0 ⧺ ".json") (q.0 ⧺ ".json") in
    exists-map (λ e. e.claim_id == claim_id) entry_of (sort_by before s.pages)
    ∙ exists-sort_by before (λ (p : String × Page). p.1.card.claim_id == claim_id) s.pages

none_of_claim :
    (pages : List (String × Page)) (claim_id : String)
    → every is_filed pages ≡ true
    → exists (λ (p : String × Page). p.1.card.claim_id == claim_id) (without pages (stem claim_id))
      ≡ false
none_of_claim [] claim_id h = refl
none_of_claim ((name, page) ∷ pages) claim_id h =
    let rest = none_of_claim pages claim_id (ground (arith, h)) in
    elim (Bool-cases (name == stem claim_id)) [
      | inl same ↦ rw same rest
      | inr other ↦ rw other (rw (differs other) rest)
    ]
  where
    unfiled :
        page.card.claim_id ≡ claim_id
        → (name == stem claim_id) ≡ false
        → (name == stem page.card.claim_id) ≡ true
        → ⊥
    unfiled e other filed = cc (ap (λ c. name == stem c) e, other, filed)

    differs : (name == stem claim_id) ≡ false → (page.card.claim_id == claim_id) ≡ false
    differs other = elim (Bool-cases (page.card.claim_id == claim_id)) [
      | inr apart ↦ apart
      | inl same ↦ absurd (
          unfiled ((string_eq.beq_iff page.card.claim_id claim_id).0 same) other
            (ground (arith, h)))
    ]

-- After a withdrawal the claim is not in navigation, and has its tombstone.
pub withdraw-gone :
    (s t : Surface) (claim_id : String) (tombstone : Tombstone)
    → IsFiled s
    → withdraw s claim_id tombstone ≡ some t
    → (in_navigation t claim_id ≡ false) × (has_tombstone t claim_id ≡ true)
unfolding has_tombstone reindex
withdraw-gone s t claim_id tombstone h gone = (
  ap (λ x. in_navigation x claim_id) (sym (withdraw-made s t claim_id tombstone gone))
      ∙ reindex-in_navigation
          (record s {
            pages = without s.pages (stem claim_id);
            tombstones = put s.tombstones (stem claim_id) tombstone;
          })
          claim_id
      ∙ none_of_claim s.pages claim_id h,
  ap (λ x. has_tombstone x claim_id) (sym (withdraw-made s t claim_id tombstone gone))
      ∙ ap is_some (get-put s.tombstones (stem claim_id) (stem claim_id) tombstone)
      ∙ rw (eq_refl (stem claim_id)) refl,
)
