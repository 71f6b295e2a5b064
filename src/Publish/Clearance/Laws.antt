-- ===== src/Publish/Clearance/Laws.antt =====
-- When some condition refuses a revision.
use new_z.Prelude.{
  ℕ, ◌≡◌, refl, ap, ◌∙◌, arith, Bool, true, false, not, ◌&&◌, ◌||◌, some, List, [], ◌∷◌, ◌++◌, map,
  String, ◌==◌, string_eq, decimal, is_text, is_text-append, is_filled, text_lt, length, exists,
  select, sort_by, flat_map, exists-select, is_filled-eq-exists, is_filled-append,
  is_filled-flat_map, is_filled-sort_by, exists_congr,
}
use new_z.Domain.Evidence.{RiskTier, risk_eq, risk_value}
use new_z.Policy.Promotion.{◌⧺◌}
use new_z.Control.Adversarial.{r2_admission_refusal}
use new_z.Control.Adversarial.Laws.{is_unreviewed, r2_admission_refusal_iff}
use new_z.Present.Cards.{Card, CardRevision}
use new_z.Present.Dependencies.{find_claim}
use new_z.Publish.Tables.{dimension_value, Revocation, PublishStore, class_of}
use new_z.Publish.Appraisal.{DimensionResult, current_risk, machine_results, debt_exceeded}
use new_z.Publish.Clearance.{
  Refusal, class_halted, confirmed, is_overdue, overdue_revocations, name_first,
  unconfirmed_retraction, refuse_if, is_unread, failed_dimension, moment, refusals_of,
}

refuse_if-is_filled :
    (b : Bool) (condition detail : String) → is_filled (refuse_if b condition detail) ≡ b
refuse_if-is_filled true condition detail = refl
refuse_if-is_filled false condition detail = refl

is_filled-map {ℓ κ} :
    {A : Type ℓ} {B : Type κ} (f : A → B) (xs : List A) → is_filled (map f xs) ≡ is_filled xs
is_filled-map f [] = refl
is_filled-map f (x ∷ xs) = refl

-- The ids that are listed, sorted, are some exactly if a row passes the test.
listed :
    (p : Revocation → Bool) (rows : List Revocation)
    → is_filled (sort_by text_lt (map (λ (r : Revocation). r.id) (select p rows))) ≡ exists p rows
listed p rows =
    is_filled-sort_by text_lt (map (λ (r : Revocation). r.id) (select p rows))
    ∙ is_filled-map (λ (r : Revocation). r.id) (select p rows)
    ∙ is_filled-eq-exists (select p rows)
    ∙ exists-select p (λ r. true) rows
    ∙ exists_congr (λ r. p r && true) p rows (λ r. ground arith)

overdue-is_filled :
    (rows : List Revocation) (now output_class : String)
    → is_text output_class ≡ true
    → is_filled (overdue_revocations rows now (some output_class))
      ≡ exists (λ r. is_overdue now r && r.output_class == output_class) rows
unfolding overdue_revocations
overdue-is_filled rows now output_class h =
    rw h (listed (λ r. is_overdue now r && r.output_class == output_class) rows)

-- A retraction of the claim that is not confirmed.
abbrev pub is_open_retraction : String → Revocation → Bool
is_open_retraction claim_id r =
    r.claim_id == claim_id && (r.kind == "retraction" && not (r.status == confirmed))

pending-is_text :
    (rows : List Revocation) (claim_id : String)
    → is_text (unconfirmed_retraction rows claim_id) ≡ exists (is_open_retraction claim_id) rows
unfolding unconfirmed_retraction
pending-is_text rows claim_id =
    named
      (sort_by text_lt (map (λ (r : Revocation). r.id) (select (is_open_retraction claim_id) rows)))
    ∙ listed (is_open_retraction claim_id) rows
  where
    named : (ids : List String) → is_text (name_first ids) ≡ is_filled ids
    named [] = refl
    named (id ∷ ids) = is_text-append "retraction " (id ⧺ " is not confirmed") refl

class_of-is_text : (row : CardRevision) → is_text (class_of row) ≡ true
unfolding class_of
class_of-is_text row = is_text-append "claim_card:" (risk_value row.risk) refl

refuse_if-append :
    (b : Bool) (condition detail : String) (rest : List Refusal)
    → is_filled (refuse_if b condition detail ++ rest) ≡ (b || is_filled rest)
refuse_if-append true condition detail rest = refl
refuse_if-append false condition detail rest = refl

machine-is_filled :
    (results : List DimensionResult) (rest : List Refusal)
    → is_filled (flat_map failed_dimension results ++ rest)
      ≡ (exists (λ (r : DimensionResult). not r.passed) results || is_filled rest)
machine-is_filled results rest =
    is_filled-append (flat_map failed_dimension results) rest
    ∙ ap (λ b. b || is_filled rest)
        (is_filled-flat_map failed_dimension results
          ∙ exists_congr (λ r. is_filled (failed_dimension r)) (λ r. not r.passed) results
              (λ r.
                refuse_if-is_filled (not r.passed)
                  ("machine_appraisal_failed:" ⧺ dimension_value r.dimension) r.detail))

-- The conditions of the store first.
regroup :
    (a b c o m d h v p : Bool)
    → (a || (b || (c || (o || (m || (d || (h || (v || p))))))))
      ≡ ((a || (b || (c || (d || (h || (v || p)))))) || (o || m))
regroup a b c o m d h v p = ground arith

-- The refusals are some exactly if a condition holds.
all_refusals :
    (a b c o d h v p : Bool) (results : List DimensionResult) (t3 t4 t5 t6 t7 t8 : String)
    → is_filled (
        refuse_if a "risk_state_missing" "unreadable risk behaves as R3"
        ++ (refuse_if b "content_is_r4" "R4 is never published"
            ++ (refuse_if c "r2_source_class_unreviewed" t3
                ++ (refuse_if o "assessment_no_longer_follows" t4
                    ++ (flat_map failed_dimension results
                        ++ (refuse_if d "review_debt_ceiling_exceeded" t5
                            ++ (refuse_if h "class_halted" t6
                                ++ (refuse_if v "revocation_overdue" t7
                                    ++ refuse_if p "prior_retraction_unconfirmed" t8))))))))
      ≡ ((a || (b || (c || (d || (h || (v || p)))))) || (o || exists (λ r. not r.passed) results))
all_refusals a b c o d h v p results t3 t4 t5 t6 t7 t8 =
    simp (refuse_if-append, machine-is_filled, refuse_if-is_filled)
      (regroup a b c o (exists (λ (r : DimensionResult). not r.passed) results) d h v p)

-- The conditions, each by what it says of the store.
abbrev pub is_refused_by_store :
    (from_ledger : String → ℕ) → ℕ → PublishStore → CardRevision → String → Bool
is_refused_by_store from_ledger at store row now =
    let edges = store.cards.evidence.edges in
    is_unread (find_claim edges.claims row.claim_id)
    || (current_risk store row.claim_id == RiskTier.r4
        || (current_risk store row.claim_id == RiskTier.r2
              && exists (is_unreviewed from_ledger edges store.reviews row.claim_id at)
                  edges.edge_events
            || (debt_exceeded store (class_of row)
                || (is_text (class_halted store.class_halts (class_of row))
                    || (is_text now
                          && exists (λ r. is_overdue now r && r.output_class == class_of row)
                              store.revocations
                        || exists (is_open_retraction row.claim_id) store.revocations)))))

module _ (repr : String → String) (digest : Card → String) (bucket : String → ℕ)
    (local_id : String → String) (from_ledger : String → ℕ) (clock : ℕ) where
  -- Some dimension that a machine decides does not pass.
  abbrev pub fails_machine : PublishStore → CardRevision → Bool
  fails_machine store row =
      exists (λ (r : DimensionResult). not r.passed)
        (machine_results repr digest bucket local_id store row)

  pub refusals_of-is_filled :
      (store : PublishStore) (row : CardRevision) (now owed : String)
      → is_filled (refusals_of repr digest bucket local_id from_ledger clock store row now owed) ≡ (
          is_refused_by_store from_ledger (moment from_ledger clock now) store row now
          || (is_text owed || fails_machine store row))
  unfolding refusals_of
  refusals_of-is_filled store row now owed =
      let claim_id = row.claim_id in
      let edges = store.cards.evidence.edges in
      let tier = current_risk store claim_id in
      let at = moment from_ledger clock now in
      let unread = is_unread (find_claim edges.claims claim_id) in
      let r2 = r2_admission_refusal from_ledger edges store.reviews claim_id tier at in
      let debt = debt_exceeded store (class_of row) in
      let halt = class_halted store.class_halts (class_of row) in
      let late = overdue_revocations store.revocations now (some (class_of row)) in
      let open_one = unconfirmed_retraction store.revocations claim_id in
      let results = machine_results repr digest bucket local_id store row in
      let admission = r2_admission_refusal_iff from_ledger edges store.reviews claim_id tier at in
      let lateness =
        overdue-is_filled store.revocations now (class_of row) (class_of-is_text row) in
      let retraction = pending-is_text store.revocations claim_id in
      all_refusals unread (tier == RiskTier.r4) (is_text r2) (is_text owed) debt (is_text halt)
        (is_text now && is_filled late) (is_text open_one) results r2 owed
        ("unreviewed output in " ⧺ class_of row) halt
        (decimal (length late) ⧺ " unconfirmed past its window") open_one
      ∙ (λ i.
          (unread
            || (tier == RiskTier.r4
                || (admission i
                    || (debt || (is_text halt || (is_text now && lateness i || retraction i))))))
          || (is_text owed || fails_machine store row))
