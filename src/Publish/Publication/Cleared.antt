-- ===== src/Publish/Publication/Cleared.antt =====
-- What it is for the tables and the surface that all they hold was cleared.
use new_z.Prelude.{
  ◌≡◌, refl, sym, ap, ◌∙◌, arith, Bool, true, false, ◌&&◌, ◌||◌, none, some, List, [], ◌∷◌, ◌++◌,
  String, ◌==◌, string_eq, every, exists, every_mono, every-append_one, exists-append_one,
  Bool-cases, Option-cases, inl, inr,
}
use new_z.Present.Cards.{CardRevision, find_revision}
use new_z.Publish.Surface.{Correction, Page, Surface}
use new_z.Publish.Surface.Laws.{withdraw-every, attach_correction-every}
use new_z.Publish.Tables.{Clearance, Publication, PublishStore}
use new_z.Publish.Publication.{find_clearance}
use new_z.Publish.Publication.Kept.{KeepsAll}
use new_z.Publish.Publication.Revokes.{StillFound, Shows}
use new_z.Publish.Publication.Steps.{State}

-- A clearance carries the hash of the revision that it names.
abbrev pub is_hashed : List CardRevision → Clearance → Bool
is_hashed rows c = elim (find_revision rows c.card_revision_id) [
  | none ↦ false
  | some row ↦ row.content_hash == c.content_hash
]

-- Some granted clearance names the revision and the content of the page.
abbrev pub is_cleared_page : List Clearance → String × Page → Bool
is_cleared_page cs (name, page) =
    exists
      (λ c.
        c.granted
        && (c.card_revision_id == page.revision_id && c.content_hash == page.content_hash))
      cs

-- The clearance that the row names was granted, for its revision.
abbrev pub is_cleared_row : List Clearance → Publication → Bool
is_cleared_row cs p =
    exists (λ c. c.id == p.clearance_id && (c.granted && c.card_revision_id == p.card_revision_id))
      cs

abbrev pub Cleared :
    List CardRevision → List Clearance → List Publication → List (String × Page) → Type 0
Cleared rows cs ps pages =
    (every (is_hashed rows) cs ≡ true)
    × (every (is_cleared_row cs) ps ≡ true)
    × (every (is_cleared_page cs) pages ≡ true)

abbrev pub IsCleared : State → Type 0
IsCleared u =
    Cleared u.store.cards.card_revisions u.store.clearances u.store.publications u.surface.pages

pub is_hashed_of :
    (rows : List CardRevision) (c : Clearance) (row : CardRevision)
    → find_revision rows c.card_revision_id ≡ some row
    → is_hashed rows c ≡ (row.content_hash == c.content_hash)
is_hashed_of rows c row found = rw (found, is_hashed) refl

pub is_hashed-found :
    (rows : List CardRevision) (c : Clearance)
    → is_hashed rows c ≡ true
    → (row : CardRevision) × (find_revision rows c.card_revision_id ≡ some row)
      × ((row.content_hash == c.content_hash) ≡ true)
is_hashed-found rows c h = elim (Option-cases (find_revision rows c.card_revision_id)) [
  | inl missing ↦ absurd (apart (rw (missing, is_hashed) at h))
  | inr (row, found) ↦ (row, found, sym (is_hashed_of rows c row found) ∙ h)
]
  where
    apart : false ≡ true → ⊥
    apart k = cc

still-hashed :
    (rows rows' : List CardRevision) (cs : List Clearance)
    → StillFound rows rows'
    → every (is_hashed rows) cs ≡ true
    → every (is_hashed rows') cs ≡ true
still-hashed rows rows' cs still h = every_mono (is_hashed rows) (is_hashed rows') cs one h
  where
    one : (c : Clearance) → is_hashed rows c ≡ true → is_hashed rows' c ≡ true
    one c k =
        let (row, found, hash) = is_hashed-found rows c k in
        let (row', found', same, _, _) = still c.card_revision_id row found in
        is_hashed_of rows' c row' found' ∙ ap (λ x. x == c.content_hash) same ∙ hash

pub find_revision-id :
    (rows : List CardRevision) (id : String) (row : CardRevision)
    → find_revision rows id ≡ some row
    → row.id ≡ id
unfolding find_revision
find_revision-id [] id row h = cc
find_revision-id (r ∷ rows) id row h = elim (Bool-cases (r.id == id)) [
  | inl same ↦ found (rw same at h) ∙ (string_eq.beq_iff r.id id).0 same
  | inr other ↦ find_revision-id rows id row (rw other at h)
]
  where
    found : some r ≡ some row → row.id ≡ r.id
    found k = cc

-- What was found passes each test that all pass, and shows in each search that it passes.
pub find_clearance-passes :
    (cs : List Clearance) (id : String) (c : Clearance) (p q : Clearance → Bool)
    → find_clearance cs id ≡ some c
    → every p cs ≡ true
    → q c ≡ true
    → (p c ≡ true) × (exists q cs ≡ true) × (c.id ≡ id)
unfolding find_clearance
find_clearance-passes [] id c p q h k l = cc
find_clearance-passes (x ∷ cs) id c p q h k l = elim (Bool-cases (x.id == id)) [
  | inl same ↦
      let e : x ≡ c = some_inj (rw same at h) in
      (
        ap p (sym e) ∙ ground (arith, k),
        rw (ap q e ∙ l) refl,
        ap (λ (y : Clearance). y.id) (sym e) ∙ (string_eq.beq_iff x.id id).0 same,
      )
  | inr other ↦
      let (here, there, name) =
        find_clearance-passes cs id c p q (rw other at h) (ground (arith, k)) l in
      (here, rw there (either (q x)), name)
]
  where
    some_inj : some x ≡ some c → x ≡ c
    some_inj k' = cc

    either : (b : Bool) → (b || true) ≡ true
    either b = ground arith

-- One more clearance, of a revision that is there.
pub Cleared-more :
    (rows : List CardRevision) (cs : List Clearance) (ps : List Publication)
    (pages : List (String × Page)) (c : Clearance)
    → Cleared rows cs ps pages
    → is_hashed rows c ≡ true
    → Cleared rows (cs ++ c ∷ []) ps pages
Cleared-more rows cs ps pages c (hashed, named, served) h = (
  every-append_one (is_hashed rows) cs c ∙ rw (hashed, h) refl,
  every_mono (is_cleared_row cs) (is_cleared_row (cs ++ c ∷ [])) ps
      (λ p k.
        more
          (λ x. x.id == p.clearance_id && (x.granted && x.card_revision_id == p.card_revision_id))
          k)
      named,
  every_mono (is_cleared_page cs) (is_cleared_page (cs ++ c ∷ [])) pages one_page served,
)
  where
    more : (q : Clearance → Bool) → exists q cs ≡ true → exists q (cs ++ c ∷ []) ≡ true
    more q k = exists-append_one q cs c ∙ rw k refl

    one_page :
        (x : String × Page) → is_cleared_page cs x ≡ true → is_cleared_page (cs ++ c ∷ []) x ≡ true
    one_page (name, page) k =
        more
          (λ y.
            y.granted
            && (y.card_revision_id == page.revision_id && y.content_hash == page.content_hash))
          k

Shows-every :
    (p : String × Page → Bool) (s t : Surface)
    → ((notice : Correction) (name : String) (page : Page)
        → p (name, page) ≡ true
        → p (name, record page { corrections = page.corrections ++ notice ∷ [] }) ≡ true)
    → Shows s t
    → every p s.pages ≡ true
    → every p t.pages ≡ true
Shows-every p s t keeps (inl same) h = ap (λ (x : Surface). every p x.pages) same ∙ h
Shows-every p s t keeps (inr (inl (claim_id, tombstone, gone))) h =
    withdraw-every p s t claim_id tombstone gone h
Shows-every p s t keeps (inr (inr (claim_id, notice, more))) h =
    ap (λ (x : Surface). every p x.pages) more
    ∙ attach_correction-every p s claim_id notice (keeps notice) h

-- Where the clearances and the publications stay.
pub IsCleared-kept :
    (u v : State)
    → v.store.clearances ≡ u.store.clearances
    → v.store.publications ≡ u.store.publications
    → StillFound u.store.cards.card_revisions v.store.cards.card_revisions
    → Shows u.surface v.surface
    → IsCleared u
    → IsCleared v
IsCleared-kept u v cs ps still shows (hashed, named, served) = (
  ap (every (is_hashed v.store.cards.card_revisions)) cs
      ∙ still-hashed u.store.cards.card_revisions v.store.cards.card_revisions u.store.clearances
          still hashed,
  (λ i. every (is_cleared_row (cs i)) (ps i)) ∙ named,
  ap (λ x. every (is_cleared_page x) v.surface.pages) cs
      ∙ Shows-every (is_cleared_page u.store.clearances) u.surface v.surface
          (λ notice name page k. k) shows served,
)

pub same-StillFound : (rows rows' : List CardRevision) → rows' ≡ rows → StillFound rows rows'
same-StillFound rows rows' e id row h =
    (row, ap (λ rs. find_revision rs id) e ∙ h, refl, refl, refl)

pub KeepsAll-IsCleared :
    (u : State) (t : PublishStore)
    → KeepsAll u.store t
    → IsCleared u
    → IsCleared (record u { store = t })
KeepsAll-IsCleared u t ((cards, cs), ps) h =
    IsCleared-kept u (record u { store = t }) cs ps
      (same-StillFound u.store.cards.card_revisions t.cards.card_revisions
        (ap (λ c. c.card_revisions) cards))
      (inl refl) h
