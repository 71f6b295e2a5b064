-- ===== src/Publish/Publication/Shown.antt =====
-- What the pages of the surface show: the content of revisions, each under the name of its claim.
use new_z.Prelude.{
  ◌≡◌, refl, sym, ap, ◌∙◌, true, some, List, [], ◌∷◌, ◌++◌, String, ◌==◌, string_eq, get, put,
  get-put, Bool-cases, Option-cases, inl, inr,
}
use new_z.Present.Cards.{CardRevision, find_revision}
use new_z.Publish.Surface.{
  Correction, Page, Tombstone, Surface, stem, reindex, serve, without, withdraw, attach_correction,
}
use new_z.Publish.Surface.Laws.{withdraw-made}
use new_z.Publish.Publication.Revokes.{StillFound, Shows}

-- The page is that of a revision: it has its id, its hash and its content, and stands under the name
-- of its claim.
abbrev pub IsOfRevision : List CardRevision → String → Page → Type 0
IsOfRevision rows name page =
    (row : CardRevision) × (find_revision rows page.revision_id ≡ some row)
    × (row.content_hash ≡ page.content_hash)
    × (row.content ≡ page.card)
    × (stem row.claim_id ≡ name)

abbrev pub AreOfRevisions : List CardRevision → List (String × Page) → Type 0
AreOfRevisions rows pages =
    (name : String) (page : Page) → get pages name ≡ some page → IsOfRevision rows name page

some_inj : {x y : Page} → some x ≡ some y → x ≡ y
some_inj k = cc

put-AreOfRevisions :
    (rows : List CardRevision) (pages : List (String × Page)) (name : String) (page : Page)
    → AreOfRevisions rows pages
    → IsOfRevision rows name page
    → AreOfRevisions rows (put pages name page)
put-AreOfRevisions rows pages name page old (row, found, hash, content, filed) j other h =
    let looked = sym (get-put pages name j page) ∙ h in
    elim (Bool-cases (name == j)) [
      | inr apart ↦ old j other (rw apart at looked)
      | inl same ↦
          let e : page ≡ other = some_inj (rw same at looked) in
          (
            row,
            ap (λ (x : Page). find_revision rows x.revision_id) (sym e) ∙ found,
            hash ∙ ap (λ (x : Page). x.content_hash) e,
            content ∙ ap (λ (x : Page). x.card) e,
            filed ∙ (string_eq.beq_iff name j).0 same,
          )
    ]

get-without :
    (pages : List (String × Page)) (name j : String) (page : Page)
    → get (without pages name) j ≡ some page
    → get pages j ≡ some page
get-without [] name j page h = cc
get-without ((k, p) ∷ pages) name j page h = elim (Bool-cases (k == name)) [
  | inl gone ↦ elim (Bool-cases (k == j)) [
    | inr other ↦ rw other (get-without pages name j page (rw gone at h))
    | inl same ↦ absurd (
        not_left pages
          ((string_eq.beq_iff name j).1
            (sym ((string_eq.beq_iff k name).0 gone) ∙ (string_eq.beq_iff k j).0 same))
          (rw gone at h))
  ]
  | inr stays ↦ elim (Bool-cases (k == j)) [
    | inl same ↦ rw same (rw (stays, same) at h)
    | inr other ↦ rw other (get-without pages name j page (rw (stays, other) at h))
  ]
]
  where
    not_left :
        (ps : List (String × Page)) → (name == j) ≡ true → get (without ps name) j ≡ some page → ⊥
    not_left [] same k = cc
    not_left ((i, q) ∷ ps) same k = elim (Bool-cases (i == name)) [
      | inl gone ↦ not_left ps same (rw gone at k)
      | inr stays ↦
          let e = (string_eq.beq_iff name j).0 same in
          not_left ps same (rw (stays, ap (λ x. i == x) (sym e) ∙ stays) at k)
    ]

-- A page that is served.
pub serve-AreOfRevisions :
    (rows : List CardRevision) (s : Surface) (row : CardRevision)
    → find_revision rows row.id ≡ some row
    → AreOfRevisions rows s.pages
    → AreOfRevisions rows (serve s row.claim_id row.id row.content_hash row.content).pages
unfolding serve reindex
serve-AreOfRevisions rows s row found old =
    put-AreOfRevisions rows s.pages (stem row.claim_id)
      record {
        revision_id = row.id;
        content_hash = row.content_hash;
        card = row.content;
        corrections = [];
      }
      old (row, found, refl, refl, refl)

withdraw-AreOfRevisions :
    (rows : List CardRevision) (s t : Surface) (claim_id : String) (tombstone : Tombstone)
    → withdraw s claim_id tombstone ≡ some t
    → AreOfRevisions rows s.pages
    → AreOfRevisions rows t.pages
unfolding reindex
withdraw-AreOfRevisions rows s t claim_id tombstone gone old name page h = old name page (
    get-without s.pages (stem claim_id) name page
      (ap (λ (x : Surface). get x.pages name) (withdraw-made s t claim_id tombstone gone) ∙ h))

attach_correction-AreOfRevisions :
    (rows : List CardRevision) (s : Surface) (claim_id : String) (notice : Correction)
    → AreOfRevisions rows s.pages
    → AreOfRevisions rows (attach_correction s claim_id notice).pages
unfolding attach_correction
attach_correction-AreOfRevisions rows s claim_id notice old =
    elim (Option-cases (get s.pages (stem claim_id))) [
      | inl unserved ↦ rw (unserved, attach_correction) old
      | inr (page, there) ↦
          rw (there, attach_correction)
            (put-AreOfRevisions rows s.pages (stem claim_id)
              (record page { corrections = page.corrections ++ notice ∷ [] }) old
              (old (stem claim_id) page there))
    ]

pub Shows-AreOfRevisions :
    (rows : List CardRevision) (s t : Surface)
    → Shows s t
    → AreOfRevisions rows s.pages
    → AreOfRevisions rows t.pages
Shows-AreOfRevisions rows s t (inl same) old name page h =
    old name page (ap (λ (x : Surface). get x.pages name) (sym same) ∙ h)
Shows-AreOfRevisions rows s t (inr (inl (claim_id, tombstone, gone))) old name page h =
    withdraw-AreOfRevisions rows s t claim_id tombstone gone old name page h
Shows-AreOfRevisions rows s t (inr (inr (claim_id, notice, more))) old name page h =
    attach_correction-AreOfRevisions rows s claim_id notice old name page
      (ap (λ (x : Surface). get x.pages name) (sym more) ∙ h)

-- The revisions stay as they are, up to what may change of them.
pub StillFound-AreOfRevisions :
    (rows rows' : List CardRevision) (pages : List (String × Page))
    → StillFound rows rows'
    → AreOfRevisions rows pages
    → AreOfRevisions rows' pages
StillFound-AreOfRevisions rows rows' pages still old name page h =
    let (row, found, hash, content, filed) = old name page h in
    let (row', found', hash', content', claim_id') = still page.revision_id row found in
    (row', found', hash' ∙ hash, content' ∙ content, ap stem claim_id' ∙ filed)
