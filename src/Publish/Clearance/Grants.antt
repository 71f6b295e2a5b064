-- ===== src/Publish/Clearance/Grants.antt =====
-- What a clearance grants, and what it leaves in the store.
use new_z.Prelude.{
  ℕ, ◌≡◌, refl, sym, ap, ◌∙◌, arith, Bool, true, false, not, ◌&&◌, ◌||◌, Option, none, some, [],
  ◌∷◌, ◌++◌, String, ◌==◌, string_eq, is_text, is_filled, exists, is_filled-append, Bool-cases,
  Option-cases, inl, inr,
}
use mathlib.Core.Path.{subst}
use new_z.Domain.Evidence.{RiskTier, risk_eq}
use new_z.Domain.Version.{current_policy_version}
use new_z.Evidence.Assess.{reassessment_owed}
use new_z.Present.Cards.{Card, CardRevision, find_revision}
use new_z.Publish.Tables.{Clearance, PublishStore, class_of}
use new_z.Publish.Appraisal.{current_risk, appraise}
use new_z.Publish.Clearance.{
  ClearanceResult, join_refusals, moment, refusals_of, refusal_conditions, operator_refusals,
  granted_of, clear,
}
use new_z.Publish.Clearance.Laws.{is_refused_by_store, fails_machine, refusals_of-is_filled}

-- A reason is given.
abbrev pub says : Option String → Bool
says none = false
says (some reason) = is_text reason

module _ (repr : String → String) (digest : Card → String) (bucket : String → ℕ)
    (local_id : String → String) (from_ledger : String → ℕ) (clock : ℕ) where
  -- What the reassessment of the claim says.
  abbrev pub owes : PublishStore → CardRevision → Bool
  owes store row = says (reassessment_owed store.cards.evidence row.claim_id)

  -- What R3 asks for.
  abbrev pub is_approved : PublishStore → CardRevision → String → String → Bool
  is_approved store row actor approves =
      not (current_risk store row.claim_id == RiskTier.r3)
      || is_text actor && approves == row.content_hash

  operator_refusals-is_filled :
      (requires : Bool) (row : CardRevision) (actor approves : String)
      → is_filled (operator_refusals requires row actor approves)
        ≡ not (not requires || is_text actor && approves == row.content_hash)
  unfolding operator_refusals
  operator_refusals-is_filled false row actor approves = refl
  operator_refusals-is_filled true row actor approves = ground arith

  -- Every condition of a clearance, with what the operator did.
  abbrev pub is_clear : PublishStore → CardRevision → (now actor approves : String) → Bool
  is_clear store row now actor approves =
      not (is_refused_by_store from_ledger (moment from_ledger clock now) store row now)
      && (not (owes store row)
          && (not (fails_machine repr digest bucket local_id from_ledger clock store row)
              && is_approved store row actor approves))

  -- The row that a clearance leaves.
  abbrev pub clearance_of :
      CardRevision → (clearance_id actor : String) → ClearanceResult → Clearance
  clearance_of row clearance_id actor result = record {
    id = clearance_id;
    card_revision_id = row.id;
    content_hash = row.content_hash;
    output_class = class_of row;
    granted = result.granted;
    refusal_reason = join_refusals result.refusals;
    policy_version = current_policy_version;
    operator_actor = actor;
  }

  -- What `clear` leaves and returns.
  abbrev pub Clears :
      PublishStore
      → CardRevision
      → (clearance_id now actor approves : String) → PublishStore × Option ClearanceResult
      → Type 0
  Clears store row clearance_id now actor approves (s', none) = s'.clearances ≡ store.clearances
  Clears store row clearance_id now actor approves (s', some result) =
      (result.granted ≡ is_clear store row now actor approves)
      × (s'.clearances ≡ store.clearances ++ clearance_of row clearance_id actor result ∷ [])
      × (exists (λ c. c.id == clearance_id) store.clearances ≡ false)

  all_clear :
      (store : PublishStore) (row : CardRevision) (now actor approves owed : String)
      → reassessment_owed store.cards.evidence row.claim_id ≡ some owed
      → not (
          is_filled (
            refusals_of repr digest bucket local_id from_ledger clock store row now owed
            ++ operator_refusals
                (current_risk store row.claim_id == RiskTier.r3)
                row
                actor
                approves))
        ≡ is_clear store row now actor approves
  all_clear store row now actor approves owed h =
      let at = moment from_ledger clock now in
      let r3 = current_risk store row.claim_id == RiskTier.r3 in
      ap not (
        is_filled-append
          (refusals_of repr digest bucket local_id from_ledger clock store row now owed)
          (operator_refusals r3 row actor approves)
        ∙ (λ i.
            refusals_of-is_filled repr digest bucket local_id from_ledger clock store row now owed i
            || operator_refusals-is_filled r3 row actor approves i))
      ∙ de_morgan (is_refused_by_store from_ledger at store row now) (is_text owed)
          (fails_machine repr digest bucket local_id from_ledger clock store row)
          (is_approved store row actor approves)
      ∙ ap
          (λ o.
            not (is_refused_by_store from_ledger at store row now)
            && (not (says o)
                && (not (fails_machine repr digest bucket local_id from_ledger clock store row)
                    && is_approved store row actor approves)))
          (sym h)
    where
      de_morgan :
          (a o m p : Bool) → not ((a || (o || m)) || not p) ≡ (not a && (not o && (not m && p)))
      de_morgan a o m p = ground arith

  pub conditions_missing :
      (store : PublishStore) (id now : String) (row : CardRevision)
      → find_revision store.cards.card_revisions id ≡ some row
      → reassessment_owed store.cards.evidence row.claim_id ≡ none
      → refusal_conditions repr digest bucket local_id from_ledger clock store id now ≡ none
  unfolding refusal_conditions
  conditions_missing store id now row found missing =
      rw (found, refusal_conditions) (rw missing refl)

  pub conditions_found :
      (store : PublishStore) (id now owed : String) (row : CardRevision)
      → find_revision store.cards.card_revisions id ≡ some row
      → reassessment_owed store.cards.evidence row.claim_id ≡ some owed
      → refusal_conditions repr digest bucket local_id from_ledger clock store id now
        ≡ some (
          (appraise repr digest bucket local_id store row).0,
          refusals_of repr digest bucket local_id from_ledger clock store row now owed,
        )
  unfolding refusal_conditions
  conditions_found store id now owed row found says_so =
      rw (found, refusal_conditions) (rw says_so refl)

  clear-Clears :
      (store : PublishStore) (id clearance_id now actor approves : String) (row : CardRevision)
      → find_revision store.cards.card_revisions id ≡ some row
      → Clears store row clearance_id now actor approves (
          clear repr digest bucket local_id from_ledger clock store id clearance_id now actor
            approves)
  unfolding clear granted_of appraise
  clear-Clears store id clearance_id now actor approves row found =
      elim (Option-cases (reassessment_owed store.cards.evidence row.claim_id)) [
        | inl missing ↦
            back (store, none)
              (rw (found, conditions_missing store id now row found missing, clear) refl) refl
        | inr (owed, says_so) ↦
            elim (Bool-cases (exists (λ (c : Clearance). c.id == clearance_id) store.clearances)) [
              | inl taken ↦
                  back ((appraise repr digest bucket local_id store row).0, none)
                    (rw (found, conditions_found store id now owed row found says_so, taken, clear)
                      refl)
                    refl
              | inr free ↦
                  back
                    (granted_of (appraise repr digest bucket local_id store row).0 row
                      (refusals_of repr digest bucket local_id from_ledger clock store row now owed
                        ++ operator_refusals (current_risk store row.claim_id == RiskTier.r3) row
                            actor approves)
                      (current_risk store row.claim_id == RiskTier.r3) clearance_id actor)
                    (rw (found, conditions_found store id now owed row found says_so, free, clear)
                      refl)
                    (all_clear store row now actor approves owed says_so, refl, free)
            ]
      ]
    where
      back :
          (made : PublishStore × Option ClearanceResult)
          → clear repr digest bucket local_id from_ledger clock store id clearance_id now actor
              approves
            ≡ made
          → Clears store row clearance_id now actor approves made
          → Clears store row clearance_id now actor approves (
              clear repr digest bucket local_id from_ledger clock store id clearance_id now actor
                approves)
      back made same h = subst (Clears store row clearance_id now actor approves) (sym same) h

  pub clear-granted :
      (store s' : PublishStore) (id clearance_id now actor approves : String) (row : CardRevision)
      (result : ClearanceResult)
      → find_revision store.cards.card_revisions id ≡ some row
      → clear repr digest bucket local_id from_ledger clock store id clearance_id now actor approves
        ≡ (s', some result)
      → (result.granted ≡ is_clear store row now actor approves)
        × (s'.clearances ≡ store.clearances ++ clearance_of row clearance_id actor result ∷ [])
        × (exists (λ c. c.id == clearance_id) store.clearances ≡ false)
  clear-granted store s' id clearance_id now actor approves row result found h =
      subst (Clears store row clearance_id now actor approves) h
        (clear-Clears store id clearance_id now actor approves row found)
