-- ===== src/Publish/Clearance.antt =====
-- newz/publish/clearance.py: every reason why a revision may not publish, the clearance of an exact
-- revision, the halts of a class and the reach of an audience. The clock of newz/clock.py is a
-- parameter, and so are those of the appraisal.
pub mod Laws
pub mod Grants
pub mod Refuses
use new_z.Prelude.{
  ℕ, Bool, true, false, not, ◌&&◌, ◌||◌, Option, none, some, List, [], ◌∷◌, ◌++◌, map, String, ◌==◌,
  string_eq, if◌then◌else◌, is_text, is_filled, text_lt, decimal, length, exists, select, sort_by,
  flat_map,
}
use new_z.Domain.Evidence.{RiskTier, risk_eq}
use new_z.Domain.Records.{Claim}
use new_z.Domain.Version.{current_policy_version}
use new_z.Policy.Promotion.{◌⧺◌}
use new_z.Evidence.Assess.{reassessment_owed}
use new_z.Control.Adversarial.{r2_admission_refusal}
use new_z.Present.Cards.{Card, CardRevision, find_revision}
use new_z.Present.Dependencies.{find_claim, risk_or_r3}
use new_z.Publish.Tables.{
  dimension_value, Clearance, Revocation, ClassHalt, Reach, PublishStore, class_of,
}
use new_z.Publish.Appraisal.{
  DimensionResult, Appraisal, current_risk, machine_results, appraise, debt_exceeded,
}

pub record Refusal : Type 0 where
  pub condition : String
  pub detail : String

pub record ClearanceResult : Type 0 where
  pub card_revision_id : String
  pub granted : Bool
  pub clearance_id : String
  pub refusals : List Refusal
  pub output_class : String
  pub requires_operator : Bool

-- The reason of the halt, or an empty text.
unfoldable pub class_halted : List ClassHalt → String → String
class_halted [] output_class = ""
class_halted (h ∷ rest) output_class =
    if h.output_class == output_class && not h.cleared
    then h.reason
    else class_halted rest output_class

-- `INSERT OR REPLACE`, under the class.
unfoldable pub halt_class : PublishStore → String → String → PublishStore
halt_class store output_class reason = record store {
  class_halts =
      select (λ h. not (h.output_class == output_class)) store.class_halts
      ++ record { output_class = output_class; reason = reason; cleared = false } ∷ [];
}

unfoldable pub clear_halt : PublishStore → String → PublishStore
clear_halt store output_class = record store {
  class_halts =
      map
        (λ (h : ClassHalt).
          if h.output_class == output_class && not h.cleared
          then record h { cleared = true }
          else h)
        store.class_halts;
}

abbrev pub confirmed : String
confirmed = "confirmed"

-- `overdue_revocations` of newz/publish/publication.py for a class, or for every one.
abbrev pub is_overdue : String → Revocation → Bool
is_overdue now r = not (r.status == confirmed) && not (text_lt now r.due_at)

unfoldable pub overdue_revocations : List Revocation → String → Option String → List String
overdue_revocations rows now none =
    sort_by text_lt (map (λ (r : Revocation). r.id) (select (is_overdue now) rows))
overdue_revocations rows now (some output_class) =
    if is_text output_class
    then sort_by text_lt (
        map (λ (r : Revocation). r.id)
          (select (λ r. is_overdue now r && r.output_class == output_class) rows))
    else sort_by text_lt (map (λ (r : Revocation). r.id) (select (is_overdue now) rows))

-- The ids of the retractions of the claim that are not confirmed.
abbrev pub open_retractions : List Revocation → String → List String
open_retractions rows claim_id = sort_by text_lt (
    map (λ (r : Revocation). r.id)
      (select
        (λ r. r.claim_id == claim_id && (r.kind == "retraction" && not (r.status == confirmed)))
        rows))

abbrev pub name_first : List String → String
name_first [] = ""
name_first (id ∷ ids) = "retraction " ⧺ id ⧺ " is not confirmed"

unfoldable pub unconfirmed_retraction : List Revocation → String → String
unconfirmed_retraction rows claim_id = name_first (open_retractions rows claim_id)

-- `if reason: refusals.append(...)`
abbrev pub refuse_if : Bool → String → String → List Refusal
refuse_if test condition detail =
    if test then record { condition = condition; detail = detail } ∷ [] else []

-- `claim is None or claim["risk"] is None`
abbrev pub is_unread : Option Claim → Bool
is_unread none = true
is_unread (some claim) = elim claim.risk [ none ↦ true | some tier ↦ false ]

abbrev pub failed_dimension : DimensionResult → List Refusal
failed_dimension r =
    refuse_if (not r.passed) ("machine_appraisal_failed:" ⧺ dimension_value r.dimension) r.detail

-- `f"{r.condition}: {r.detail}"`, joined by "; "
unfoldable pub join_refusals : List Refusal → String
join_refusals [] = ""
join_refusals (r ∷ []) = r.condition ⧺ ": " ⧺ r.detail
join_refusals (r ∷ s ∷ more) = r.condition ⧺ ": " ⧺ r.detail ⧺ "; " ⧺ join_refusals (s ∷ more)

-- What R3 asks of the operator.
unfoldable pub operator_refusals : Bool → CardRevision → String → String → List Refusal
operator_refusals false row actor approves = []
operator_refusals true row actor approves =
    if not (is_text actor)
    then record {
      condition = "operator_approval_required";
      detail = "R3 publishes only on an operator's approval";
    }
      ∷ []
    else refuse_if (not (approves == row.content_hash)) "approval_names_a_different_revision"
        "an approval carries only for the exact content it named"

-- The insert, and the result.
unfoldable pub granted_of :
    PublishStore
    → CardRevision
    → List Refusal
    → Bool
    → (clearance_id actor : String) → PublishStore × Option ClearanceResult
granted_of store row refusals requires_operator clearance_id actor = (
  record store {
    clearances =
        store.clearances
        ++ record {
          id = clearance_id;
          card_revision_id = row.id;
          content_hash = row.content_hash;
          output_class = class_of row;
          granted = not (is_filled refusals);
          refusal_reason = join_refusals refusals;
          policy_version = current_policy_version;
          operator_actor = actor;
        }
          ∷ [];
  },
  some record {
    card_revision_id = row.id;
    granted = not (is_filled refusals);
    clearance_id = clearance_id;
    refusals = refusals;
    output_class = class_of row;
    requires_operator = requires_operator;
  },
)

-- `from_ledger(now) if now else datetime.now()`
abbrev pub moment : (from_ledger : String → ℕ) → ℕ → String → ℕ
moment from_ledger clock now = if is_text now then from_ledger now else clock

module _ (repr : String → String) (digest : Card → String) (bucket : String → ℕ)
    (local_id : String → String) (from_ledger : String → ℕ) (clock : ℕ) where
  -- The refusals, where `owed` says what the reassessment owes, and `appraised` is the store that
  -- the appraisal leaves.
  unfoldable pub refusals_of : PublishStore → CardRevision → String → String → List Refusal
  refusals_of store row now owed =
      let tier = current_risk store row.claim_id in
      let unadmitted =
        r2_admission_refusal from_ledger store.cards.evidence.edges store.reviews row.claim_id tier
          (moment from_ledger clock now) in
      let halted = class_halted store.class_halts (class_of row) in
      let overdue = overdue_revocations store.revocations now (some (class_of row)) in
      let pending = unconfirmed_retraction store.revocations row.claim_id in
      refuse_if (is_unread (find_claim store.cards.evidence.edges.claims row.claim_id))
        "risk_state_missing" "unreadable risk behaves as R3"
      ++ (refuse_if (tier == RiskTier.r4) "content_is_r4" "R4 is never published"
          ++ (refuse_if (is_text unadmitted) "r2_source_class_unreviewed" unadmitted
              ++ (refuse_if (is_text owed) "assessment_no_longer_follows" owed
                  ++ (flat_map failed_dimension
                        (machine_results repr digest bucket local_id store row)
                      ++ (refuse_if (debt_exceeded store (class_of row))
                            "review_debt_ceiling_exceeded" ("unreviewed output in " ⧺ class_of row)
                          ++ (refuse_if (is_text halted) "class_halted" halted
                              ++ (refuse_if (is_text now && is_filled overdue) "revocation_overdue"
                                    (decimal (length overdue) ⧺ " unconfirmed past its window")
                                  ++ refuse_if (is_text pending) "prior_retraction_unconfirmed"
                                      pending)))))))

  -- The store keeps the rows of the appraisal. None is a KeyError: of the revision, or of a claim
  -- with an assessment that is not there.
  unfoldable pub refusal_conditions :
      PublishStore → String → String → Option (PublishStore × List Refusal)
  refusal_conditions store card_revision_id now =
      elim (find_revision store.cards.card_revisions card_revision_id) [
        | none ↦ none
        | some row ↦ elim (reassessment_owed store.cards.evidence row.claim_id) [
          | none ↦ none
          | some owed ↦
              some
                ((appraise repr digest bucket local_id store row).0, refusals_of store row now owed)
        ]
      ]

  -- No result is a KeyError, as above, or the IntegrityError of a clearance id that is taken: the
  -- rows of the appraisal stay then.
  unfoldable pub clear :
      PublishStore
      → (card_revision_id clearance_id now actor approves : String)
      → PublishStore × Option ClearanceResult
  clear store card_revision_id clearance_id now actor approves =
      elim (find_revision store.cards.card_revisions card_revision_id) [
        | none ↦ (store, none)
        | some row ↦ elim (refusal_conditions store card_revision_id now) [
          | none ↦ (store, none)
          | some (appraised, refusals) ↦
              let requires_operator = current_risk store row.claim_id == RiskTier.r3 in
              if exists (λ c. c.id == clearance_id) store.clearances
              then (appraised, none)
              else granted_of appraised row
                  (refusals ++ operator_refusals requires_operator row actor approves)
                  requires_operator clearance_id actor
        ]
      ]

-- `reach_enabled`: an audience with no row is enabled only if it is the local one.
unfoldable pub reach_enabled : List Reach → String → Bool
reach_enabled [] audience = audience == "local"
reach_enabled (r ∷ rest) audience =
    if r.audience == audience then r.enabled else reach_enabled rest audience

-- None is the ValueError.
unfoldable pub set_reach :
    PublishStore → (audience : String) → Bool → (actor reason scope : String) → Option PublishStore
set_reach store audience enabled actor reason scope =
    if enabled && (not (is_text actor) || not (is_text reason) || not (is_text scope))
    then none
    else some (record store {
      reach_settings =
          select (λ r. not (r.audience == audience)) store.reach_settings
          ++ record {
            audience = audience;
            enabled = enabled;
            scope = scope;
            changed_by = if is_text actor then actor else "system";
            reason = if is_text reason then reason else "locked down";
          }
            ∷ [];
    })
