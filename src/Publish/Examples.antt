-- ===== src/Publish/Examples.antt =====
-- newz/publish, one card that is cleared, published, corrected and retracted.
use new_z.Prelude.{
  ℕ, ◌≡◌, refl, true, false, not, ◌&&◌, ◌||◌, Option, none, some, List, [], ◌∷◌, ◌++◌, String, ◌==◌,
  string_eq, if◌then◌else◌, is_text, is_some, is_filled, decimal, exists, every, inl,
}
use new_z.Domain.Evidence.{
  SourceRole, AssertionKind, EdgeRelation, AssessmentState, ClaimKind, RiskTier, risk_eq,
  risk_value,
}
use new_z.Domain.Records.{Assessment, Claim, EdgeEvent}
use new_z.Domain.Version.{code_version, current_policy_version}
use new_z.Evidence.Edges.{EdgeStore, withdraw_edge, load_claim, load_edges}
use new_z.Evidence.Assess.{
  AssessStore, inputs_of, evidence_input, last_row, find_row, load_tasks, load_assertions,
  load_each, distinct, same_texts, disagreement, owed_by, reassessment_owed,
}
use new_z.Policy.Promotion.{assess, conclude, ladder, count_side, side, countable, conclude_empty}
use new_z.Policy.Independence.{count_independent_bases, sorted_ids}
use new_z.Policy.LaneStatus.{lane_statuses, lane_status}
use new_z.Policy.Lanes.{required}
use new_z.Control.Adversarial.{holding_sources, unreviewed_r2_sources, r2_admission_refusal}
use new_z.Present.Cards.{Card, CardRevision, CardStore, find_revision}
use new_z.Publish.Surface.{Page, Surface, stem, reindex, serve, serving, in_navigation}
use new_z.Publish.Tables.{AppraisalRow, PublishStore, class_of}
use new_z.Publish.Clearance.{
  Refusal, ClearanceResult, refusals_of, operator_refusals, granted_of, clear, class_halted,
  unconfirmed_retraction, overdue_revocations, confirmed, is_overdue,
}
use new_z.Publish.Clearance.Grants.{conditions_found}
use new_z.Publish.Clearance.Refuses.{clear-named_r3, clear-withdrawn}
use new_z.Present.Dependencies.Laws.{with_edges}
use new_z.Present.Dependencies.{find_claim, failures_of, risk_failure}
use new_z.Publish.Appraisal.{
  accuracy, quote_failure, privacy, names_in, risk, rendering, machine_results, debt_exceeded,
  review_debt, current_risk, appraise,
}
use new_z.Publish.Appraisal.Judged
use new_z.Publish.Publication.{
  attempted, unconfirmed, find_clearance, attempt, publish, open_revocation, entomb, retract,
  correct, confirm_revocation, halt_classes_with_overdue_revocations,
}
use new_z.Publish.Publication.Cleared.{is_cleared_page, is_cleared_row, is_hashed}
use new_z.Publish.Publication.Steps.{State, Step, Reaches}
use new_z.Publish.Publication.Shown.{IsOfRevision}
use new_z.Publish.Publication.Contents.{ShowsRevisions}
use new_z.Publish.Publication.Served.{Reaches-served}
use new_z.Publish.Publication.Revoked.{retract-confirmed}
use new_z.Publish.Publication.Corrected.{correct-confirmed}
use new_z.Publish.Publication.Overdue.{halt_classes_with_overdue_revocations_iff}

abbrev claim : Claim
claim = record {
  id = "claim:1";
  kind = ClaimKind.attribution;
  wording = "The bridge fell";
  risk = some RiskTier.r1;
  resolution_horizon = none;
  resolver = none;
  aliases = [];
  withdrawn = false;
}

abbrev card : Card
card = record {
  claim_id = "claim:1";
  wording = "The bridge fell";
  state = AssessmentState.reported;
  risk = RiskTier.r1;
  supporting = [];
  contradicting = [];
  context = [];
  rest = "";
}

abbrev row : CardRevision
row = record {
  id = "card:1";
  claim_id = "claim:1";
  content = card;
  content_hash = "hash";
  risk = RiskTier.r1;
  state = AssessmentState.reported;
  live = true;
}

abbrev held : Assessment
held = record {
  claim_id = "claim:1";
  state = AssessmentState.reported;
  supporting_bases = 0;
  contradicting_bases = 0;
  policy_version = current_policy_version;
  code_version = code_version;
  explanation = "attributed, with evidence lanes still open";
  blocked_lanes = [];
  countable_edge_ids = [];
}

abbrev evidence : AssessStore
evidence = record {
  edges = record {
    assertions = [];
    roles = [];
    claims = claim ∷ [];
    bases = [];
    edge_events = [];
    predicate_attestations = [];
    outbox = [];
  };
  independence = [];
  tasks = [];
  assessments = record { id = "as-1"; assessment = held; horizon_reached = false } ∷ [];
  changes = [];
}

abbrev cards : CardStore
cards = record {
  evidence = evidence;
  artifacts = [];
  card_revisions = row ∷ [];
  card_dependencies = [];
  invalidated = [];
}

abbrev store : PublishStore
store = record {
  cards = cards;
  reviews = record { reviews = []; members = [] };
  segments = [];
  named = [];
  origins = [];
  appraisals = [];
  review_queue = [];
  clearances = [];
  publications = [];
  revocations = [];
  tombstones = [];
  class_halts = [];
  reach_settings = [];
  audit_events = [];
}

abbrev surface : Surface
surface = record { is_made = false; pages = []; tombstones = []; index = [] }

abbrev repr : String → String
repr s = s

abbrev digest : Card → String
digest c = "hash"

abbrev bucket : String → ℕ
bucket id = 40

abbrev local_id : String → String
local_id id = "1"

abbrev from_ledger : String → ℕ
from_ledger t = 0

abbrev stamp : ℕ → String
stamp n = decimal n

owed_nothing : reassessment_owed evidence "claim:1" ≡ some ""
unfolding reassessment_owed owed_by evidence_input last_row find_row inputs_of load_claim load_edges
    load_tasks load_assertions load_each distinct same_texts disagreement assess conclude ladder
    count_side count_independent_bases sorted_ids side countable conclude_empty lane_statuses
    required lane_status
owed_nothing = refl

abbrev granted : ClearanceResult
granted = record {
  card_revision_id = "card:1";
  granted = true;
  clearance_id = "clearance:1";
  refusals = [];
  output_class = "claim_card:R1";
  requires_operator = false;
}

abbrev appraised : PublishStore
appraised = (appraise repr digest bucket local_id store row).0

abbrev cleared : PublishStore
cleared = (granted_of appraised row [] false "clearance:1" "").0

refused_nothing : refusals_of repr digest bucket local_id from_ledger 0 store row "" "" ≡ []
unfolding refusals_of find_claim current_risk r2_admission_refusal machine_results accuracy
    failures_of risk_failure quote_failure privacy names_in distinct risk rendering debt_exceeded
    review_debt class_halted unconfirmed_retraction overdue_revocations class_of risk_value
    unreviewed_r2_sources holding_sources
refused_nothing = refl

-- The clearance of the card is granted.
cleared-granted :
    clear repr digest bucket local_id from_ledger 0 store "card:1" "clearance:1" "" "" ""
    ≡ (cleared, some granted)
unfolding clear find_revision granted_of operator_refusals current_risk find_claim class_of
    risk_value
cleared-granted =
    rw
      (
        conditions_found repr digest bucket local_id from_ledger 0 store "card:1" "" "" row refl
            owed_nothing,
        refused_nothing,
        clear,
      )
      refl

-- The store after the clearance, and what publishing leaves.
abbrev before : State
before = record { store = cleared; surface = surface }

abbrev published : State
published = record {
  store = (publish cleared surface "pub:1" "card:1" "clearance:1" "local").0;
  surface = (publish cleared surface "pub:1" "card:1" "clearance:1" "local").1;
}

abbrev page : Page
page = record { revision_id = "card:1"; content_hash = "hash"; card = card; corrections = [] }

before-ShowsRevisions : ShowsRevisions before
before-ShowsRevisions name page h = cc

Reaches-served_example :
    IsOfRevision published.store.cards.card_revisions (stem "claim:1") page
    × (is_cleared_page published.store.clearances (stem "claim:1", page) ≡ true)
    × (every (is_cleared_row published.store.clearances) published.store.publications ≡ true)
    × (every (is_hashed published.store.cards.card_revisions) published.store.clearances ≡ true)
unfolding granted_of appraise find_revision publish attempt find_clearance serve serving reindex
    stem
Reaches-served_example =
    Reaches-served repr digest bucket local_id from_ledger stamp {u = before} {v = published}
      "claim:1" page
      (Reaches.next (Step.publishes "pub:1" "card:1" "clearance:1" "local" refl) Reaches.here)
      (refl, refl, refl) before-ShowsRevisions refl

abbrev served : Surface
served = serve surface "claim:1" "card:1" "hash" card

abbrev retracted : PublishStore × Surface × Option String
retracted = retract stamp store served "rev:1" "claim:1" "card:1" "wrong" 0 "tomb:1"

retract-confirmed_example :
    (is_some retracted.2 ≡ true)
    × (in_navigation retracted.1 "claim:1" ≡ false)
    × ((confirm_revocation stamp retracted.0 retracted.1 "rev:1" 60).1 ≡ some confirmed)
unfolding retract open_revocation entomb find_revision serve reindex stem find_claim
retract-confirmed_example =
    retract-confirmed stamp store served "rev:1" "claim:1" "card:1" "wrong" "tomb:1" 0 60 row refl
      refl refl refl refl refl

abbrev corrected : PublishStore × Surface × Option String
corrected = correct stamp store surface "rev:1" "claim:1" "card:1" "wrong" 0

correct-confirmed_example :
    (is_some corrected.2 ≡ true)
    × ((confirm_revocation stamp corrected.0 corrected.1 "rev:1" 60).1
        ≡ some (if is_some (serving surface "claim:1") then confirmed else unconfirmed))
unfolding correct open_revocation find_revision find_claim
correct-confirmed_example =
    correct-confirmed stamp store surface "rev:1" "claim:1" "card:1" "wrong" 0 60 row refl refl refl

abbrev late : PublishStore
late = record store {
  revocations =
      record {
        id = "rev:1";
        kind = "correction";
        claim_id = "claim:1";
        card_revision_id = "card:1";
        output_class = "claim_card:R1";
        reason = "wrong";
        attempted_at = "2026-01-01 00:00:00";
        due_at = "2026-01-01 00:15:00";
        confirmed_at = "";
        status = attempted;
      }
      ∷ [];
}

halt_classes_with_overdue_revocations_iff_example :
    is_text (
      class_halted
        (halt_classes_with_overdue_revocations late "2026-01-01 00:20:00").0.class_halts
        "claim_card:R1")
    ≡ (is_text (class_halted [] "claim_card:R1")
        || exists
            (λ r. is_overdue "2026-01-01 00:20:00" r && r.output_class == "claim_card:R1")
            late.revocations)
halt_classes_with_overdue_revocations_iff_example =
    halt_classes_with_overdue_revocations_iff late "2026-01-01 00:20:00" "claim_card:R1" (refl, tt)

abbrev awaiting : AppraisalRow
awaiting = record {
  id = "appraisal:1-fair_representation";
  card_revision_id = "card:1";
  dimension = "fair_representation";
  decided_by = "person";
  passed = none;
  detail = "awaiting review";
  reviewer = "";
}

abbrev outstanding : PublishStore
outstanding = record store { appraisals = awaiting ∷ [] }

abbrev judged : PublishStore
judged = record outstanding {
  appraisals =
      record awaiting { passed = some true; reviewer = "operator:dean"; detail = "fair" } ∷ [];
}

-- A store whose claim was never assessed, with one live edge that the card cites.
abbrev edge : EdgeEvent
edge = record {
  id = "e-1";
  assertion_id = "a-1";
  claim_id = "claim:1";
  relation = EdgeRelation.supports;
  basis_id = "b-1";
  role = SourceRole.primary_record;
  assertion_kind = AssertionKind.documented_event;
  risk = some RiskTier.r3;
  policy_version = some current_policy_version;
  admitted = true;
  live = true;
  refusal_reason = none;
  attestations = [];
  declared_scope = "";
  topic = "";
  adjudicative_scope_covers_claim = none;
}

abbrev unassessed : AssessStore
unassessed = record evidence {
  edges = record {
    assertions = [];
    roles = [];
    claims = record claim { risk = some RiskTier.r3 } ∷ [];
    bases = [];
    edge_events = edge ∷ [];
    predicate_attestations = [];
    outbox = [];
  };
  assessments = [];
}

abbrev r3_row : CardRevision
r3_row = record row { content = record card { risk = RiskTier.r3 }; risk = RiskTier.r3 }

abbrev r3_store : PublishStore
r3_store = record store {
  cards = record {
    evidence = unassessed;
    artifacts = [];
    card_revisions = r3_row ∷ [];
    card_dependencies =
        record { card_revision_id = "card:1"; kind = "edge"; dependency_id = "e-1" } ∷ [];
    invalidated = [];
  };
  named = ("a-1", "A. Person") ∷ [];
}

-- What `clear` makes of a claim without an assessment, approved by an operator.
abbrev refusals_in : PublishStore → List Refusal
refusals_in s =
    refusals_of repr digest bucket local_id from_ledger 0 s r3_row ""
      "no assessment has been derived"
    ++ operator_refusals (current_risk s "claim:1" == RiskTier.r3) r3_row "operator:dean" "hash"

abbrev refused : PublishStore → ClearanceResult
refused s = record {
  card_revision_id = "card:1";
  granted = not (is_filled (refusals_in s));
  clearance_id = "clearance:1";
  refusals = refusals_in s;
  output_class = class_of r3_row;
  requires_operator = current_risk s "claim:1" == RiskTier.r3;
}

abbrev refused_store : PublishStore → PublishStore
refused_store s =
    (granted_of (appraise repr digest bucket local_id s r3_row).0 r3_row (refusals_in s)
      (current_risk s "claim:1" == RiskTier.r3) "clearance:1" "operator:dean").0

r3_refused :
    clear repr digest bucket local_id from_ledger 0 r3_store "card:1" "clearance:1" ""
      "operator:dean" "hash"
    ≡ (refused_store r3_store, some (refused r3_store))
unfolding clear find_revision granted_of reassessment_owed last_row
r3_refused =
    rw
      (
        conditions_found repr digest bucket local_id from_ledger 0 r3_store "card:1" ""
            "no assessment has been derived" r3_row refl refl,
        clear,
      )
      refl

clear-named_r3_example : (refused r3_store).granted ≡ false
unfolding names_in distinct find_revision
clear-named_r3_example =
    clear-named_r3 repr digest bucket local_id from_ledger 0 r3_store (refused_store r3_store)
      "card:1" "clearance:1" "" "operator:dean" "hash" r3_row (refused r3_store) refl refl refl
      r3_refused

abbrev edges_left : EdgeStore
edges_left = record unassessed.edges {
  edge_events = record edge { live = false } ∷ [];
  outbox = ("edge_withdrawn", "e-1", "retracted") ∷ [];
}

abbrev left_store : PublishStore
left_store = record r3_store { cards = with_edges r3_store.cards edges_left }

left_refused :
    clear repr digest bucket local_id from_ledger 0 left_store "card:1" "clearance:1" ""
      "operator:dean" "hash"
    ≡ (refused_store left_store, some (refused left_store))
unfolding clear find_revision granted_of reassessment_owed last_row
left_refused =
    rw
      (
        conditions_found repr digest bucket local_id from_ledger 0 left_store "card:1" ""
            "no assessment has been derived" r3_row refl refl,
        clear,
      )
      refl

clear-withdrawn_example : (refused left_store).granted ≡ false
unfolding withdraw_edge find_revision
clear-withdrawn_example =
    clear-withdrawn repr digest bucket local_id from_ledger 0 r3_store (refused_store left_store)
      edges_left "e-1" "retracted" "card:1" "clearance:1" "" "operator:dean" "hash" r3_row
      (refused left_store) (inl refl) refl refl left_refused
