-- ===== src/Policy/Rules/Laws.antt =====
-- The order of the rules, the symmetry of support and refutation, and the stated refusals.
use new_z.Prelude.{
  ◌≡◌, refl, Bool, true, not, ◌&&◌, ◌||◌, none, some, List, [], ◌∷◌, ◌++◌, arith, ◌==◌, contains,
  every, Option-cases, inl, inr, ap,
}
use new_z.Domain.Evidence.{
  SourceRole, ClaimKind, AssertionKind, EdgeRelation, role_eq, claim_kind_eq, assertion_kind_eq,
  relation_eq,
}
use new_z.Policy.Rules.{
  Cell, Verdict, Rule, rules, decide_by, decide, is_countable_relation, direct_record_roles,
  context_only_roles,
}
use new_z.Policy.Cells.{all_cells, every-all_cells}

-- No rule of the list says anything of the cell.
abbrev pub Silent : Cell → List Rule → Type 0
Silent c [] = Unit
Silent c (r ∷ rs) = (r.applies c ≡ none) × Silent c rs

-- A verdict of `rs` is that of one of its rules, and no rule before it spoke.
pub record IsFirst (c : Cell) (rs : List Rule) (v : Verdict) : Type 0 where
  pub before : List Rule
  pub rule : Rule
  pub after : List Rule
  pub split : rs ≡ before ++ rule ∷ after
  pub silent : Silent c before
  pub speaks : rule.applies c ≡ some v

IsFirst-cons :
    {c : Cell} {rs : List Rule} {v : Verdict} (r : Rule)
    → r.applies c ≡ none
    → IsFirst c rs v
    → IsFirst c (r ∷ rs) v
IsFirst-cons r quiet f = record {
  before = r ∷ f.before;
  rule = f.rule;
  after = f.after;
  split = ap (λ l. r ∷ l) f.split;
  silent = (quiet, f.silent);
  speaks = f.speaks;
}

decide_by-IsFirst :
    (rs : List Rule) (c : Cell) {v : Verdict} → decide_by rs c ≡ some v → IsFirst c rs v
unfolding decide_by
decide_by-IsFirst [] c h = cc
decide_by-IsFirst (r ∷ rs) c {v} h = elim (Option-cases (r.applies c)) [
  | inl e ↦ IsFirst-cons r e (decide_by-IsFirst rs c (ground arith))
  | inr (w, e) ↦ record {
    before = [];
    rule = r;
    after = rs;
    split = refl;
    silent = tt;
    speaks = ground arith;
  }
]

-- The verdict on a cell is that of the first rule, in the order of the list, that applies to it.
decide-IsFirst : (c : Cell) {v : Verdict} → decide c ≡ some v → IsFirst c rules v
unfolding decide
decide-IsFirst c h = decide_by-IsFirst rules c h

-- Support and refutation are judged alike: a cell gets the same verdict, the same rule and the same
-- reason under `supports` as under `contradicts`.
decide-symmetric :
    (c : Cell)
    → decide (record c { relation = EdgeRelation.supports })
      ≡ decide (record c { relation = EdgeRelation.contradicts })
unfolding decide
decide-symmetric c = refl

abbrev implies : Bool → Bool → Bool
implies a b = not a || b

-- SPEC.md sections 5.1, 7.1 and 7.3, as conditions that a countable edge has to meet.
abbrev pub obeys_spec : Cell → Bool
obeys_spec c =
    not (c.claim_kind == ClaimKind.normative_proposition)
    && (not (c.assertion_kind == AssertionKind.inference)
        && (not (c.assertion_kind == AssertionKind.prediction)
            && (implies (c.assertion_kind == AssertionKind.allegation)
                  (c.claim_kind == ClaimKind.attribution)
                && (implies (c.role == SourceRole.claimant) (c.claim_kind == ClaimKind.attribution)
                    && (not (contains context_only_roles c.role)
                        && (implies (c.claim_kind == ClaimKind.capability_or_performance)
                              (c.assertion_kind == AssertionKind.measurement)
                            && (implies
                                  (c.claim_kind == ClaimKind.identity_or_wrongdoing_allegation)
                                  (contains direct_record_roles c.role
                                    && c.assertion_kind == AssertionKind.documented_event)
                                && implies (c.assertion_kind == AssertionKind.testimony) (
                                    contains
                                      (ClaimKind.attribution ∷ ClaimKind.event_or_observation ∷ [])
                                      c.claim_kind))))))))

obeys_check : Cell → Bool
obeys_check c = elim (decide c) [
  | none ↦ true
  | some v ↦ implies (v.admitted && is_countable_relation c.relation) (obeys_spec c)
]

obeys_check_all : every obeys_check all_cells ≡ true
unfolding obeys_check all_cells decide is_countable_relation
obeys_check_all = refl

implies-elim : (a b : Bool) → implies a b ≡ true → a ≡ true → b ≡ true
implies-elim a b h k = ground arith

-- A cell that is admitted under a relation that counts obeys every refusal that the specification
-- states: nothing normative, no inference, no prediction, no allegation or claimant source but for
-- an attribution, no context role, performance by measurement only, wrongdoing by a documented
-- event of a direct record only, and testimony for attributions and events only.
pub decide-obeys_spec :
    (c : Cell) {v : Verdict}
    → decide c ≡ some v
    → v.admitted ≡ true
    → is_countable_relation c.relation ≡ true
    → obeys_spec c ≡ true
unfolding obeys_check
decide-obeys_spec c {v} h a r =
    implies-elim (v.admitted && is_countable_relation c.relation) (obeys_spec c)
      (rw (h, obeys_check) at (every-all_cells obeys_check obeys_check_all c)) (rw (a, r))
