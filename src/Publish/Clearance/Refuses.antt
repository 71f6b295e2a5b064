-- ===== src/Publish/Clearance/Refuses.antt =====
-- What a clearance refuses.
use new_z.Prelude.{
  ℕ, ◌≡◌, ◌≢◌, ◌⊎◌, refl, ap, ◌∙◌, arith, Bool, true, false, not, ◌&&◌, ◌||◌, Option, none, some,
  String, string_eq, is_text, is_filled, contains, exists, Option-cases, inl, inr,
}
use new_z.Domain.Evidence.{RiskTier, risk_eq}
use new_z.Domain.Records.{Assessment}
use new_z.Evidence.Edges.{EdgeStore, withdraw_edge}
use new_z.Evidence.Assess.{AssessStore, current_assessment, reassessment_owed}
use new_z.Evidence.Assess.Owed.{IsKeyed, withdraw_edge-reassessment_owed}
use new_z.Present.Cards.{Card, CardRevision, find_revision}
use new_z.Present.Dependencies.{failures_of}
use new_z.Present.Dependencies.Laws.{with_edges, cites_edge, withdraw_edge-failures_of}
use new_z.Publish.Tables.{PublishStore}
use new_z.Publish.Appraisal.{names_in, accuracy, privacy, risk, rendering, machine_results}
use new_z.Publish.Clearance.{ClearanceResult, moment, clear}
use new_z.Publish.Clearance.Laws.{is_refused_by_store, fails_machine}
use new_z.Publish.Clearance.Grants.{says, owes, is_clear, clear-granted, conditions_missing}

is_text_of_ne : (s : String) → s ≢ "" → is_text s ≡ true
is_text_of_ne String.[] h = absurd (h refl)
is_text_of_ne (String.◌∷◌ c s) h = refl

named_r3-privacy :
    (store : PublishStore) (card : Card)
    → card.risk ≡ RiskTier.r3
    → is_filled (names_in store card.claim_id) ≡ true
    → (privacy store card).passed ≡ false
unfolding privacy
named_r3-privacy store card high named = ground (arith, high, named)

-- The current assessment of the claim counts the edge.
abbrev pub RestsOn : AssessStore → String → String → Type 0
RestsOn store claim_id edge_id =
    (held : Assessment) × IsKeyed store.assessments
    × (current_assessment store claim_id ≡ some held)
    × (contains held.countable_edge_ids edge_id ≡ true)

module _ (repr : String → String) (digest : Card → String) (bucket : String → ℕ)
    (local_id : String → String) (from_ledger : String → ℕ) (clock : ℕ) where
  fails_machine-is_clear :
      (store : PublishStore) (row : CardRevision) (now actor approves : String)
      → fails_machine repr digest bucket local_id from_ledger clock store row ≡ true
      → is_clear repr digest bucket local_id from_ledger clock store row now actor approves ≡ false
  fails_machine-is_clear store row now actor approves h = rw h (
      last_two (is_refused_by_store from_ledger (moment from_ledger clock now) store row now)
        (owes repr digest bucket local_id from_ledger clock store row))
    where
      last_two : (a o : Bool) → (not a && (not o && false)) ≡ false
      last_two a o = ground arith

  privacy-fails :
      (store : PublishStore) (row : CardRevision)
      → (privacy store row.content).passed ≡ false
      → fails_machine repr digest bucket local_id from_ledger clock store row ≡ true
  unfolding machine_results
  privacy-fails store row h = rw h (
      middle (accuracy repr store row).passed
        (not (risk store row.content).passed || (not (rendering digest row).passed || false)))
    where
      middle : (a b : Bool) → (not a || (true || b)) ≡ true
      middle a b = ground arith

  accuracy-fails :
      (store : PublishStore) (row : CardRevision)
      → is_filled (failures_of store.cards row) ≡ true
      → fails_machine repr digest bucket local_id from_ledger clock store row ≡ true
  unfolding machine_results accuracy
  accuracy-fails store row h = rw h refl

  owes-is_clear :
      (store : PublishStore) (row : CardRevision) (now actor approves : String)
      → owes repr digest bucket local_id from_ledger clock store row ≡ true
      → is_clear repr digest bucket local_id from_ledger clock store row now actor approves ≡ false
  owes-is_clear store row now actor approves h =
      rw h (last_one (is_refused_by_store from_ledger (moment from_ledger clock now) store row now))
    where
      last_one : (a : Bool) → (not a && false) ≡ false
      last_one a = ground arith

  -- What returned has read what the reassessment owes repr digest bucket local_id from_ledger clock.
  returned-owed :
      (store s' : PublishStore) (id clearance_id now actor approves : String) (row : CardRevision)
      (result : ClearanceResult)
      → find_revision store.cards.card_revisions id ≡ some row
      → clear repr digest bucket local_id from_ledger clock store id clearance_id now actor approves
        ≡ (s', some result)
      → (owed : String) × (reassessment_owed store.cards.evidence row.claim_id ≡ some owed)
  unfolding clear
  returned-owed store s' id clearance_id now actor approves row result found h =
      elim (Option-cases (reassessment_owed store.cards.evidence row.claim_id)) [
        | inr (owed, given) ↦ (owed, given)
        | inl missing ↦ absurd (
            raised (
              rw
                (
                  found,
                  conditions_missing repr digest bucket local_id from_ledger clock store id now row
                      found missing,
                  clear,
                )
                at h))
      ]
    where
      raised :
          {t : PublishStore}
          → ◌≡◌ {A = PublishStore × Option ClearanceResult} (t, none) (s', some result)
          → ⊥
      raised k = cc (ap (λ (x : PublishStore × Option ClearanceResult). x.1) k)

  -- An R3 card that names a party is never cleared, whatever an operator approves.
  pub clear-named_r3 :
      (store s' : PublishStore) (id clearance_id now actor approves : String) (row : CardRevision)
      (result : ClearanceResult)
      → row.content.risk ≡ RiskTier.r3
      → is_filled (names_in store row.content.claim_id) ≡ true
      → find_revision store.cards.card_revisions id ≡ some row
      → clear repr digest bucket local_id from_ledger clock store id clearance_id now actor approves
        ≡ (s', some result)
      → result.granted ≡ false
  clear-named_r3 store s' id clearance_id now actor approves row result high named found h =
      let (granted, _, _) =
        clear-granted repr digest bucket local_id from_ledger clock store s' id clearance_id now
          actor approves row result found h in
      granted
      ∙ fails_machine-is_clear store row now actor approves
          (privacy-fails store row (named_r3-privacy store row.content high named))

  -- After an edge is withdrawn, a revision that cites it is not cleared, nor, where no two
  -- assessments share an id, any revision of a claim whose current assessment rests on it.
  pub clear-withdrawn :
      (store s' : PublishStore) (edges' : EdgeStore)
      (edge_id reason id clearance_id now actor approves : String) (row : CardRevision)
      (result : ClearanceResult)
      → (exists (cites_edge row.id edge_id) store.cards.card_dependencies ≡ true)
        ⊎ RestsOn store.cards.evidence row.claim_id edge_id
      → withdraw_edge store.cards.evidence.edges edge_id reason ≡ some edges'
      → find_revision store.cards.card_revisions id ≡ some row
      → clear repr digest bucket local_id from_ledger clock
          (record store { cards = with_edges store.cards edges' })
          id
          clearance_id
          now
          actor
          approves
        ≡ (s', some result)
      → result.granted ≡ false
  clear-withdrawn store s' edges' edge_id reason id clearance_id now actor approves row result why
        gone found h =
      let after : PublishStore = record store { cards = with_edges store.cards edges' } in
      let (granted, _, _) =
        clear-granted repr digest bucket local_id from_ledger clock after s' id clearance_id now
          actor approves row result found h in
      granted ∙ elim why [
        | inl cited ↦ fails_machine-is_clear after row now actor approves (
            accuracy-fails after row
              (withdraw_edge-failures_of store.cards edges' row edge_id reason cited gone))
        | inr (held, keyed, current, rests) ↦
            let (owed, given) =
              returned-owed after s' id clearance_id now actor approves row result found h in
            owes-is_clear after row now actor approves (
              ap says given
              ∙ is_text_of_ne owed (λ e.
                withdraw_edge-reassessment_owed store.cards.evidence edges' row.claim_id edge_id
                  reason held keyed current rests gone (given ∙ ap some e)))
      ]
