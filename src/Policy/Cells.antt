-- ===== src/Policy/Cells.antt =====
-- newz/policy/matrix.py, `all_cells`: every cell in its fixed order, and the rule that what holds
-- of every listed cell holds of every cell.
use new_z.Prelude.{◌≡◌, Bool, true, List, [], ◌∷◌, arith, every, flat_map, every-flat_map}
use new_z.Domain.Evidence.{SourceRole, ClaimKind, AssertionKind, EdgeRelation}
use new_z.Policy.Rules.{Cell}

abbrev pub roles : List SourceRole
roles =
    SourceRole.claimant ∷ SourceRole.firsthand_witness ∷ SourceRole.primary_record
    ∷ SourceRole.empirical_study ∷ SourceRole.adjudicator ∷ SourceRole.skeptical_investigation
    ∷ SourceRole.historical_context ∷ SourceRole.general_context ∷ []

abbrev pub claim_kinds : List ClaimKind
claim_kinds =
    ClaimKind.attribution ∷ ClaimKind.document_existence ∷ ClaimKind.event_or_observation
    ∷ ClaimKind.measurement_or_association ∷ ClaimKind.causal_or_mechanistic
    ∷ ClaimKind.capability_or_performance ∷ ClaimKind.identity_or_wrongdoing_allegation
    ∷ ClaimKind.forecast ∷ ClaimKind.normative_proposition ∷ []

abbrev pub assertion_kinds : List AssertionKind
assertion_kinds =
    AssertionKind.observation ∷ AssertionKind.testimony ∷ AssertionKind.allegation
    ∷ AssertionKind.measurement ∷ AssertionKind.documented_event ∷ AssertionKind.inference
    ∷ AssertionKind.prediction ∷ []

abbrev pub relations : List EdgeRelation
relations =
    EdgeRelation.claimant_says ∷ EdgeRelation.supports ∷ EdgeRelation.contradicts
    ∷ EdgeRelation.contextualizes ∷ []

abbrev cell : SourceRole → ClaimKind → AssertionKind → EdgeRelation → Cell
cell r k a e = record { role = r; claim_kind = k; assertion_kind = a; relation = e }

-- The four nested loops, the innermost first.
abbrev by_relation : SourceRole → ClaimKind → AssertionKind → List Cell
by_relation r k a = flat_map (λ e. cell r k a e ∷ []) relations

abbrev by_assertion : SourceRole → ClaimKind → List Cell
by_assertion r k = flat_map (by_relation r k) assertion_kinds

abbrev by_kind : SourceRole → List Cell
by_kind r = flat_map (by_assertion r) claim_kinds

unfoldable pub all_cells : List Cell
all_cells = flat_map by_kind roles

every-roles : (p : SourceRole → Bool) → every p roles ≡ true → (r : SourceRole) → p r ≡ true
every-roles p h SourceRole.claimant = ground arith
every-roles p h _ = ground arith

every-claim_kinds :
    (p : ClaimKind → Bool) → every p claim_kinds ≡ true → (k : ClaimKind) → p k ≡ true
every-claim_kinds p h ClaimKind.attribution = ground arith
every-claim_kinds p h _ = ground arith

every-assertion_kinds :
    (p : AssertionKind → Bool) → every p assertion_kinds ≡ true → (a : AssertionKind) → p a ≡ true
every-assertion_kinds p h AssertionKind.observation = ground arith
every-assertion_kinds p h _ = ground arith

every-relations :
    (p : EdgeRelation → Bool) → every p relations ≡ true → (e : EdgeRelation) → p e ≡ true
every-relations p h EdgeRelation.claimant_says = ground arith
every-relations p h _ = ground arith

every-single : (p : Cell → Bool) (c : Cell) → every p (c ∷ []) ≡ true → p c ≡ true
every-single p c h = ground arith

-- A test that every listed cell passes is passed by every cell.
pub every-all_cells : (p : Cell → Bool) → every p all_cells ≡ true → (c : Cell) → p c ≡ true
unfolding all_cells
every-all_cells p h c = every-single p c (
    every-relations (λ x. every p (cell r k a x ∷ []))
      (every-flat_map p (λ e. cell r k a e ∷ []) relations
        (every-assertion_kinds (λ x. every p (by_relation r k x))
          (every-flat_map p (by_relation r k) assertion_kinds (
            every-claim_kinds (λ x. every p (by_assertion r x))
              (every-flat_map p (by_assertion r) claim_kinds
                (every-roles (λ x. every p (by_kind x)) (every-flat_map p by_kind roles h) r))
              k))
          a))
      e)
  where
    open c use {role as r, claim_kind as k, assertion_kind as a, relation as e}
