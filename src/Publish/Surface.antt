-- ===== src/Publish/Surface.antt =====
-- newz/publish/surface.py: the local surface as its directory: the pages, the tombstones, and the
-- index that is written from the pages. A file is known by the stem of its name. An identifier has
-- no dot, so the name of a page is never that of a tombstone.
pub mod Laws
use Prim.Native.Char.{code}
use new_z.Prelude.{
  ℕ, Bool, true, false, not, Option, none, some, List, [], ◌∷◌, ◌++◌, map, String, ◌==◌, string_eq,
  nat_beq, if◌then◌else◌, is_some, text_lt, get, put, exists, select, sort_by,
}
use new_z.Domain.Evidence.{AssessmentState, RiskTier}
use new_z.Policy.Promotion.{◌⧺◌}
use new_z.Present.Cards.{Card}

pub record Correction : Type 0 where
  pub revocation_id : String
  pub reason : String
  pub at : String

pub record Page : Type 0 where
  pub revision_id : String
  pub content_hash : String
  pub card : Card
  pub corrections : List Correction

pub record Tombstone : Type 0 where
  pub claim_id : String
  pub card_revision_id : String
  pub explanation : String
  pub at : String

-- An entry of the index.
pub record Entry : Type 0 where
  pub claim_id : String
  pub revision_id : String
  pub state : AssessmentState
  pub risk : RiskTier
  pub wording : String

-- `is_made` says whether the directory of the pages exists: the first page that is served makes it.
pub record Surface : Type 0 where
  pub is_made : Bool
  pub pages : List (String × Page)
  pub tombstones : List (String × Tombstone)
  pub index : List Entry

-- `claim_id.replace(":", "_")`
unfoldable pub stem : String → String
stem String.[] = ""
stem (String.◌∷◌ c s) =
    let rest = stem s in if nat_beq (code c) b':' then "_" ⧺ rest else String.◌∷◌ c rest

abbrev pub entry_of : String × Page → Entry
entry_of (name, page) = record {
  claim_id = page.card.claim_id;
  revision_id = page.revision_id;
  state = page.card.state;
  risk = page.card.risk;
  wording = page.card.wording;
}

-- `_reindex`, in the order of the names of the files.
unfoldable pub reindex : Surface → Surface
reindex s = record s {
  index =
      map entry_of
        (sort_by (λ (p q : String × Page). text_lt (p.0 ⧺ ".json") (q.0 ⧺ ".json")) s.pages);
}

unfoldable pub serve : Surface → (claim_id revision_id content_hash : String) → Card → Surface
serve s claim_id revision_id content_hash body = reindex (record s {
  is_made = true;
  pages = put s.pages (stem claim_id) record {
    revision_id = revision_id;
    content_hash = content_hash;
    card = body;
    corrections = [];
  };
})

-- `path.unlink()`
abbrev pub without : List (String × Page) → String → List (String × Page)
without pages name = select (λ (p : String × Page). not (p.0 == name)) pages

-- None is the FileNotFoundError of a tombstone that is written where the directory is not made.
unfoldable pub withdraw : Surface → String → Tombstone → Option Surface
withdraw s claim_id tombstone =
    if s.is_made
    then some (
        reindex (record s {
          pages = without s.pages (stem claim_id);
          tombstones = put s.tombstones (stem claim_id) tombstone;
        }))
    else none

unfoldable pub attach_correction : Surface → String → Correction → Surface
attach_correction s claim_id notice = elim (get s.pages (stem claim_id)) [
  | none ↦ s
  | some page ↦ record s {
    pages =
        put s.pages (stem claim_id) (record page { corrections = page.corrections ++ notice ∷ [] });
  }
]

unfoldable pub serving : Surface → String → Option Page
serving s claim_id = get s.pages (stem claim_id)

unfoldable pub serves_revision : Surface → String → String → Bool
serves_revision s claim_id content_hash = elim (serving s claim_id) [
  | none ↦ false
  | some page ↦ page.content_hash == content_hash
]

unfoldable pub in_navigation : Surface → String → Bool
in_navigation s claim_id = exists (λ e. e.claim_id == claim_id) s.index

unfoldable pub has_tombstone : Surface → String → Bool
has_tombstone s claim_id = is_some (get s.tombstones (stem claim_id))

unfoldable pub corrections_on : Surface → String → List Correction
corrections_on s claim_id = elim (serving s claim_id) [ none ↦ [] | some page ↦ page.corrections ]
