-- ===== src/Publish/Appraisal.antt =====
-- newz/publish/appraisal.py: the four dimensions that a machine decides, the two that a person does,
-- and the queue of reviews. The digest of a card without the time of its assessment, the bucket of
-- a revision in the sample (a hash), and the print of a quotation are parameters.
pub mod Judged
use new_z.Prelude.{
  ℕ, ◌*◌, Bool, true, false, not, ◌&&◌, ◌||◌, Option, none, some, List, [], ◌∷◌, ◌++◌, map, String,
  ◌==◌, string_eq, ltb, if◌then◌else◌, is_text, is_filled, is_some, text_lt, decimal, length, every,
  exists, select, sort_by,
}
use new_z.Prelude.Search.{find_text}
use new_z.Domain.Evidence.{RiskTier, risk_eq, risk_value}
use new_z.Domain.Records.{Span, EdgeEvent}
use new_z.Policy.Promotion.{◌⧺◌}
use new_z.Parse.Registry.{Segment}
use new_z.Parse.Spans.{verify_span}
use new_z.Evidence.Edges.{AssertionRow}
use new_z.Evidence.Assess.{distinct}
use new_z.Present.Cards.{Card, CardItem, CardRevision, find_revision}
use new_z.Present.Dependencies.{DependencyFailure, failures_of, find_claim, risk_or_r3}
use new_z.Publish.Tables.{
  AppraisalDimension, dimension_value, is_judgment, AppraisalRow, QueueRow, PublishStore, class_of,
}

abbrev pub review_debt_ceiling : ℕ
review_debt_ceiling = 10

pub record DimensionResult : Type 0 where
  pub dimension : AppraisalDimension
  pub passed : Bool
  pub detail : String

pub record Appraisal : Type 0 where
  pub card_revision_id : String
  pub machine : List DimensionResult
  pub passed : Bool
  pub sampled : Bool
  pub sample_reason : String

abbrev result : AppraisalDimension → Bool → String → DimensionResult
result dimension passed detail = record { dimension = dimension; passed = passed; detail = detail }

unfoldable pub join_failures : List DependencyFailure → String
join_failures [] = ""
join_failures (f ∷ []) = f.kind ⧺ " " ⧺ f.dependency_id ⧺ ": " ⧺ f.reason
join_failures (f ∷ g ∷ more) =
    f.kind ⧺ " " ⧺ f.dependency_id ⧺ ": " ⧺ f.reason ⧺ "; " ⧺ join_failures (g ∷ more)

unfoldable pub find_quoted : List AssertionRow → CardItem → Option AssertionRow
find_quoted [] item = none
find_quoted (a ∷ rest) item =
    if a.artifact_id == item.artifact_id && a.quote == item.quote
    then some a
    else find_quoted rest item

abbrev pub segments_for : PublishStore → String → List Segment
segments_for store artifact_id =
    sort_by (λ s t. ltb s.ordinal t.ordinal)
      (select (λ s. s.artifact_id == artifact_id) store.segments)

abbrev pub span_of : AssertionRow → Span
span_of a = record {
  artifact_id = a.artifact_id;
  segment_id = a.segment_id;
  start = a.offset_start;
  end = a.offset_end;
  quote = a.quote;
  locator = a.locator;
  verified = false;
}

abbrev pub assertions_of : PublishStore → List AssertionRow
assertions_of store = store.cards.evidence.edges.assertions

module _ (repr : String → String) where
  -- The loop over the items: what is wrong with the first that fails.
  unfoldable pub quote_failure : PublishStore → List CardItem → Option String
  quote_failure store [] = none
  quote_failure store (item ∷ rest) = elim (find_quoted (assertions_of store) item) [
    | none ↦ some ("no assertion holds " ⧺ repr item.quote)
    | some a ↦
        if not (verify_span (span_of a) (segments_for store a.artifact_id)).verified
        then some ("span no longer verifies: " ⧺ item.edge_id)
        else quote_failure store rest
  ]

  -- `_accuracy`
  unfoldable pub accuracy : PublishStore → CardRevision → DimensionResult
  accuracy store row =
      let failures = failures_of store.cards row in
      let card = row.content in
      if is_filled failures
      then result AppraisalDimension.accuracy false (join_failures failures)
      else elim (quote_failure store (card.supporting ++ (card.contradicting ++ card.context))) [
        | some why ↦ result AppraisalDimension.accuracy false why
        | none ↦ result AppraisalDimension.accuracy true "every quotation verifies"
      ]

-- The names that live edges of the claim carry.
unfoldable pub names_in : PublishStore → String → List String
names_in store claim_id = distinct (
    sort_by text_lt (
      map (λ (n : String × String). n.1)
        (select
          (λ (n : String × String).
            exists (λ (e : EdgeEvent). e.assertion_id == n.0 && (e.claim_id == claim_id && e.live))
              store.cards.evidence.edges.edge_events)
          store.named)))

-- `_privacy`
unfoldable pub privacy : PublishStore → Card → DimensionResult
privacy store card =
    let named = names_in store card.claim_id in
    if card.risk == RiskTier.r4
    then result AppraisalDimension.privacy false "R4 is never reproduced"
    else if is_filled named && card.risk == RiskTier.r3
    then result AppraisalDimension.privacy false
        "an R3 card naming a party requires operator approval of the exact revision"
    else result AppraisalDimension.privacy true
        (decimal (length named) ⧺ " named entities at " ⧺ risk_value card.risk)

-- The risk of a claim; one that cannot be read behaves as R3.
unfoldable pub current_risk : PublishStore → String → RiskTier
current_risk store claim_id = elim (find_claim store.cards.evidence.edges.claims claim_id) [
  | none ↦ RiskTier.r3
  | some claim ↦ risk_or_r3 claim.risk
]

-- `_risk`
unfoldable pub risk : PublishStore → Card → DimensionResult
risk store card =
    let current = current_risk store card.claim_id in
    if not (current == card.risk)
    then result AppraisalDimension.risk false
        ("rendered at " ⧺ risk_value card.risk ⧺ ", now " ⧺ risk_value current)
    else if current == RiskTier.r4
    then result AppraisalDimension.risk false "R4 is never published"
    else result AppraisalDimension.risk true ("effective risk " ⧺ risk_value current)

module _ (digest : Card → String) where
  -- `_rendering`
  unfoldable pub rendering : CardRevision → DimensionResult
  rendering row =
      if not (digest row.content == row.content_hash)
      then result AppraisalDimension.rendering false "content does not match its hash"
      else if not row.live
      then result AppraisalDimension.rendering false "revision superseded"
      else result AppraisalDimension.rendering true "dependencies resolve"

-- `origin["quote"] and origin["quote"] not in card["wording"]`, of the first origin.
unfoldable pub is_rewritten : List (String × String) → Card → Bool
is_rewritten [] card = false
is_rewritten ((claim_id, quote) ∷ rest) card =
    if claim_id == card.claim_id
    then is_text quote && not (is_some (find_text card.wording quote))
    else is_rewritten rest card

-- `_sample_reason`, where `bucket` is the number of the revision below a hundred.
unfoldable pub sample_reason : PublishStore → ℕ → Card → String
sample_reason store bucket card =
    let support = length card.supporting in
    let against = length card.contradicting in
    if card.risk == RiskTier.r2
    then "every R2 output is reviewed"
    else if is_rewritten store.origins card
    then "the claimant's formulation was rewritten rather than quoted"
    else if ltb 0 support && ltb 0 against && ltb (against * 2) support
    then "the counterevidence is materially shorter than the support"
    else if ltb bucket 25
    then "sampled at 25%"
    else ""

-- `INSERT OR REPLACE` and `INSERT OR IGNORE`, under the two keys of the table.
abbrev pub clashes : AppraisalRow → AppraisalRow → Bool
clashes row other =
    other.id == row.id
    || other.card_revision_id == row.card_revision_id && other.dimension == row.dimension

unfoldable pub replace_row : List AppraisalRow → AppraisalRow → List AppraisalRow
replace_row rows row = select (λ r. not (clashes row r)) rows ++ row ∷ []

unfoldable pub keep_row : List AppraisalRow → AppraisalRow → List AppraisalRow
keep_row rows row = if exists (clashes row) rows then rows else rows ++ row ∷ []

module _ (repr : String → String) (digest : Card → String) (bucket : String → ℕ)
    (local_id : String → String) where
  abbrev pub machine_row : String → DimensionResult → AppraisalRow
  machine_row revision_id r = record {
    id = "appraisal:" ⧺ local_id revision_id ⧺ "-" ⧺ dimension_value r.dimension;
    card_revision_id = revision_id;
    dimension = dimension_value r.dimension;
    decided_by = "machine";
    passed = some r.passed;
    detail = r.detail;
    reviewer = "";
  }

  abbrev pub person_row : String → AppraisalDimension → AppraisalRow
  person_row revision_id dimension = record {
    id = "appraisal:" ⧺ local_id revision_id ⧺ "-" ⧺ dimension_value dimension;
    card_revision_id = revision_id;
    dimension = dimension_value dimension;
    decided_by = "person";
    passed = none;
    detail = "awaiting review";
    reviewer = "";
  }

  -- The loops over the results and over the dimensions of judgment.
  abbrev pub write_results : List AppraisalRow → String → List DimensionResult → List AppraisalRow
  write_results rows revision_id [] = rows
  write_results rows revision_id (r ∷ rest) =
      write_results (replace_row rows (machine_row revision_id r)) revision_id rest

  abbrev pub write_outstanding : List AppraisalRow → String → List AppraisalRow
  write_outstanding rows revision_id =
      keep_row (keep_row rows (person_row revision_id AppraisalDimension.fair_representation))
        (person_row revision_id AppraisalDimension.material_omission)

  unfoldable pub machine_results : PublishStore → CardRevision → List DimensionResult
  machine_results store row =
      accuracy repr store row
      ∷ privacy store row.content
      ∷ risk store row.content
      ∷ rendering digest row
      ∷ []

  unfoldable pub appraisal_of : PublishStore → CardRevision → Appraisal
  appraisal_of store row =
      let results = machine_results store row in
      let passed = every (λ (r : DimensionResult). r.passed) results in
      let reason = if passed then sample_reason store (bucket row.id) row.content else "" in
      record {
        card_revision_id = row.id;
        machine = results;
        passed = passed;
        sampled = is_text reason;
        sample_reason = reason;
      }

  -- Of a revision that was found.
  unfoldable pub appraise : PublishStore → CardRevision → PublishStore × Appraisal
  appraise store row = (
    record store {
      appraisals =
          write_outstanding (write_results store.appraisals row.id (machine_results store row))
            row.id;
    },
    appraisal_of store row,
  )

unfoldable pub find_pending : List QueueRow → String → Option QueueRow
find_pending [] revision_id = none
find_pending (q ∷ rest) revision_id =
    if q.card_revision_id == revision_id && q.state == "pending"
    then some q
    else find_pending rest revision_id

-- The id of the entry in the queue.
unfoldable pub sample_for_review :
    PublishStore → CardRevision → (reason queue_id : String) → PublishStore × String
sample_for_review store row reason queue_id = elim (find_pending store.review_queue row.id) [
  | some pending ↦ (store, pending.id)
  | none ↦ (
    record store {
      review_queue =
          if exists (λ q. q.id == queue_id) store.review_queue
          then store.review_queue
          else store.review_queue
            ++ record {
              id = queue_id;
              card_revision_id = row.id;
              output_class = class_of row;
              sampled_reason = reason;
              state = "pending";
              finding = "";
              reviewer = "";
            }
              ∷ [];
    },
    queue_id,
  )
]

-- None is a ValueError.
unfoldable pub record_judgment :
    PublishStore
    → (card_revision_id : String) → AppraisalDimension
    → Bool
    → (reviewer finding : String) → Option PublishStore
record_judgment store card_revision_id dimension passed reviewer finding =
    if not (is_judgment dimension)
    then none
    else if not (is_text reviewer)
    then none
    else some (record store {
      appraisals =
          map
            (λ (a : AppraisalRow).
              if a.card_revision_id == card_revision_id && a.dimension == dimension_value dimension
              then record a { passed = some passed; reviewer = reviewer; detail = finding }
              else a)
            store.appraisals;
      review_queue =
          map
            (λ (q : QueueRow).
              if q.card_revision_id == card_revision_id && q.state == "pending"
              then record q { state = "reviewed"; reviewer = reviewer; finding = finding }
              else q)
            store.review_queue;
    })

unfoldable pub review_debt : PublishStore → String → ℕ
review_debt store output_class =
    length (select (λ q. q.output_class == output_class && q.state == "pending") store.review_queue)

unfoldable pub debt_exceeded : PublishStore → String → Bool
debt_exceeded store output_class = ltb review_debt_ceiling (review_debt store output_class)

unfoldable pub class_needing_reappraisal : PublishStore → CardRevision → List String
class_needing_reappraisal store row = sort_by text_lt (
    map (λ (r : CardRevision). r.id)
      (select (λ r. r.live && class_of r == class_of row) store.cards.card_revisions))
