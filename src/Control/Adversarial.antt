-- ===== src/Control/Adversarial.antt =====
-- newz/control/adversarial.py: the reviews that admit a class of sources to R2, and the sources of a
-- claim that have none. `stamp` and `from_ledger` of newz/clock.py are parameters, over moments that
-- are numbers of seconds, and the time of recording is left out.
pub mod Laws
use Prim.Native.String.{◌++◌ as text_append}
use Prim.Native.Char.{code}
use text.Mathlib.Text.{starts_with}
use new_z.Prelude.{
  ℕ, Bool, true, false, not, ◌&&◌, ◌||◌, Option, none, some, List, [], ◌∷◌, ◌++◌, map, String, ◌==◌,
  string_eq, leb, if◌then◌else◌, is_text, is_filled, text_lt, exists, select, sort_by, flat_map,
}
use new_z.Domain.Evidence.{RiskTier, risk_eq}
use new_z.Domain.Records.{EdgeEvent}
use new_z.Pilot.Modes.{is_space, is_blank}
use new_z.Policy.Promotion.{◌⧺◌}
use new_z.Evidence.Edges.{AssertionRow, EdgeStore, find_assertion}
use new_z.Evidence.Assess.{distinct}

-- The row of a review; an empty `withdrawn_at` is NULL.
pub record ClassReview : Type 0 where
  pub id : String
  pub source_class : String
  pub reviewer : String
  pub trusted_for : String
  pub case_against : String
  pub answer : String
  pub disqualifiers : String
  pub expires_at : String
  pub withdrawn_at : String
  pub withdrawn_reason : String

-- `r2_class_reviews` in the order of insertion, and the pairs of class and source revision of
-- `r2_class_members`.
pub record ReviewStore : Type 0 where
  pub reviews : List ClassReview
  pub members : List (String × String)

-- The messages of ReviewRefused, told apart by their causes, the ValueError of a withdrawal with no
-- reason, and the IntegrityError of an id that is taken.
pub data Review : Type 0 where
  reviewed : ReviewStore → Review
  not_a_person : Review
  missing : List String → Review
  restates : Review
  no_reason : Review
  integrity_error : Review

-- `s.rstrip()` and `s.strip()`
unfoldable pub rstrip : String → String
rstrip String.[] = ""
rstrip (String.◌∷◌ c s) =
    let rest = rstrip s in if is_space (code c) && not (is_text rest) then "" else String.◌∷◌ c rest

unfoldable pub lstrip : String → String
lstrip String.[] = ""
lstrip (String.◌∷◌ c s) = let rest = lstrip s in if is_space (code c) then rest else String.◌∷◌ c s

abbrev pub strip : String → String
strip s = rstrip (lstrip s)

abbrev blank : String → String → List String
blank name value = if is_blank value then name ∷ [] else []

-- The names of the fields that are blank.
unfoldable pub missing_fields : ClassReview → List String
missing_fields r =
    blank "trusted_for" r.trusted_for
    ++ (blank "case_against" r.case_against
        ++ (blank "answer" r.answer ++ blank "disqualifiers" r.disqualifiers))

-- The review is the row that is proposed, its expiry stamped and not withdrawn.
unfoldable pub review_class : ReviewStore → ClassReview → Review
review_class store review =
    let lacking = missing_fields review in
    if not (starts_with review.reviewer "operator:")
    then Review.not_a_person
    else if is_filled lacking
    then Review.missing lacking
    else if strip review.case_against == strip review.answer
    then Review.restates
    else if exists (λ r. r.id == review.id) store.reviews
    then Review.integrity_error
    else Review.reviewed (record store {
      reviews = store.reviews ++ record review { withdrawn_at = ""; withdrawn_reason = "" } ∷ [];
    })

-- `at` is the stamp of the time.
unfoldable pub withdraw_review : ReviewStore → String → String → String → Review
withdraw_review store review_id reason at =
    if is_blank reason
    then Review.no_reason
    else Review.reviewed (record store {
      reviews =
          map
            (λ (r : ClassReview).
              if r.id == review_id
              then record r { withdrawn_at = at; withdrawn_reason = reason }
              else r)
            store.reviews;
    })

-- `INSERT OR IGNORE` of a pair that is the key.
unfoldable pub add_member : ReviewStore → String → String → String → Review
add_member store source_class source_revision_id added_by =
    if not (starts_with added_by "operator:")
    then Review.not_a_person
    else if exists (λ (m : String × String). m.0 == source_class && m.1 == source_revision_id)
        store.members
    then Review.reviewed store
    else Review.reviewed
        (record store { members = store.members ++ (source_class, source_revision_id) ∷ [] })

-- The first of the sorted rows, or an empty text.
abbrev pub first_or_empty : List String → String
first_or_empty [] = ""
first_or_empty (x ∷ xs) = x

unfoldable pub class_of_source : ReviewStore → String → String
class_of_source store source_revision_id = first_or_empty (
    sort_by text_lt (
      map (λ (m : String × String). m.0)
        (select (λ (m : String × String). m.1 == source_revision_id) store.members)))

-- The join: the source of the assertion of an edge.
abbrev pub source_of : EdgeStore → EdgeEvent → List String
source_of edges e = elim (find_assertion edges.assertions e.assertion_id) [
  | none ↦ []
  | some row ↦ row.source_revision_id ∷ []
]

-- The sources that hold the claim up.
unfoldable pub holding_sources : EdgeStore → String → List String
holding_sources edges claim_id = distinct (
    sort_by text_lt (
      flat_map (source_of edges)
        (select (λ e. e.claim_id == claim_id && (e.live && e.admitted)) edges.edge_events)))

-- `"; ".join(xs)`
unfoldable pub join_sources : List String → String
join_sources [] = ""
join_sources (x ∷ []) = x
join_sources (x ∷ y ∷ more) = x ⧺ "; " ⧺ join_sources (y ∷ more)

module _ (from_ledger : String → ℕ) where
  -- `ClassReview.live`
  unfoldable pub is_live : ℕ → ClassReview → Bool
  is_live now review = not (is_text review.withdrawn_at) && leb now (from_ledger review.expires_at)

  -- The newest row of the class that is live.
  unfoldable pub live_review : List ClassReview → String → ℕ → Option ClassReview
  live_review [] source_class now = none
  live_review (r ∷ rs) source_class now = elim (live_review rs source_class now) [
    | some later ↦ some later
    | none ↦ if r.source_class == source_class && is_live now r then some r else none
  ]

  -- The body of the loop, for a source revision.
  unfoldable pub unreviewed_of : ReviewStore → ℕ → String → List String
  unreviewed_of store now revision =
      let source_class = class_of_source store revision in
      if not (is_text source_class)
      then (revision ⧺ " (in no reviewed class)") ∷ []
      else elim (live_review store.reviews source_class now) [
        | none ↦ (revision ⧺ " (class " ⧺ source_class ⧺ " has no live review)") ∷ []
        | some review ↦ []
      ]

  unfoldable pub unreviewed_r2_sources : EdgeStore → ReviewStore → String → ℕ → List String
  unreviewed_r2_sources edges store claim_id now =
      flat_map (unreviewed_of store now) (holding_sources edges claim_id)

  unfoldable pub r2_admission_refusal : EdgeStore → ReviewStore → String → RiskTier → ℕ → String
  r2_admission_refusal edges store claim_id risk now =
      let unreviewed = unreviewed_r2_sources edges store claim_id now in
      if not (risk == RiskTier.r2)
      then ""
      else if not (is_filled unreviewed)
      then ""
      else "R2 evidence may come only from a source class admitted by direct adversarial review: "
        ⧺ join_sources unreviewed
