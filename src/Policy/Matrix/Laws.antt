-- ===== src/Policy/Matrix/Laws.antt =====
-- What a look-up in the matrix returns.
use new_z.Prelude.{
  ◌≡◌, refl, ◌∙◌, true, none, some, List, arith, string_eq, is_some, get, every, contains,
  Option-cases, inl, inr, get-traverse, every-contains_self,
}
use new_z.Domain.Evidence.{SourceRole, ClaimKind, AssertionKind, EdgeRelation}
use new_z.Policy.Rules.{Cell, Verdict, Rule, decide}
use new_z.Policy.Rules.Table.{in_table, decide-eq-in_table}
use new_z.Policy.Cells.{all_cells, every-all_cells}
use new_z.Policy.Matrix.{MatrixEntry, cell_eq, by_id, entry_of, matrix, lookup, permits}

abbrev cell : SourceRole → ClaimKind → AssertionKind → EdgeRelation → Cell
cell r k a e = record { role = r; claim_kind = k; assertion_kind = a; relation = e }

every-entry_of : every (λ c. is_some (entry_of c)) all_cells ≡ true
unfolding entry_of all_cells decide by_id
every-entry_of = refl

-- The matrix is built, and holds at each listed cell what the loop computed for it.
matrix_built :
    (entries : List (Cell × MatrixEntry)) × (matrix ≡ some entries)
    × ((c : Cell) → contains all_cells c ≡ true → get entries c ≡ entry_of c)
unfolding matrix
matrix_built = get-traverse entry_of all_cells every-entry_of

contains-all_cells : (c : Cell) → contains all_cells c ≡ true
contains-all_cells = every-all_cells (λ x. contains all_cells x) (every-contains_self all_cells)

lookup-eq-entry_of :
    (r : SourceRole) (k : ClaimKind) (a : AssertionKind) (e : EdgeRelation)
    → lookup r k a e ≡ entry_of (cell r k a e)
unfolding lookup
lookup-eq-entry_of r k a e =
    let (entries, built, at) = matrix_built in
    rw (built, lookup) (at (cell r k a e) (contains-all_cells (cell r k a e)))

-- The entry restates a verdict, with the decision that its rule rests on.
pub record Restates (c : Cell) (entry : MatrixEntry) : Type 0 where
  pub verdict : Verdict
  pub decided : decide c ≡ some verdict
  pub same_cell : entry.cell ≡ c
  pub same_admitted : entry.admitted ≡ verdict.admitted
  pub same_rule : entry.rule_id ≡ verdict.rule_id
  pub same_reason : entry.reason ≡ verdict.reason
  pub rule : Rule
  pub known_rule : get by_id verdict.rule_id ≡ some rule
  pub same_decision : entry.decision_id ≡ rule.decision_id

entry_of-Restates :
    (c : Cell)
    → is_some (entry_of c) ≡ true
    → (entry : MatrixEntry) × (entry_of c ≡ some entry) × Restates c entry
unfolding entry_of
entry_of-Restates c h = elim (Option-cases (decide c)) [
  | inl e ↦ absurd (no_verdict e)
  | inr (v, e) ↦ elim (Option-cases (get by_id v.rule_id)) [
    | inl e' ↦ absurd (no_rule v e e')
    | inr (rule, e') ↦ (
      record {
        cell = c;
        admitted = v.admitted;
        rule_id = v.rule_id;
        reason = v.reason;
        decision_id = rule.decision_id;
      },
      ground arith,
      record {
        verdict = v;
        decided = e;
        same_cell = refl;
        same_admitted = refl;
        same_rule = refl;
        same_reason = refl;
        rule = rule;
        known_rule = e';
        same_decision = refl;
      },
    )
  ]
]
  where
    no_verdict : decide c ≡ none → ⊥
    no_verdict e = ground arith

    no_rule : (v : Verdict) → decide c ≡ some v → get by_id v.rule_id ≡ none → ⊥
    no_rule v e e' = ground arith

-- Every look-up in the matrix finds an entry, and the entry restates the verdict of the rules on
-- that cell: admission, rule and reason, with the decision of that rule.
pub lookup-Restates :
    (r : SourceRole) (k : ClaimKind) (a : AssertionKind) (e : EdgeRelation)
    → (entry : MatrixEntry) × (lookup r k a e ≡ some entry) × Restates (cell r k a e) entry
lookup-Restates r k a e =
    let c = cell r k a e in
    let (entry, made, restates) =
      entry_of-Restates c (every-all_cells (λ x. is_some (entry_of x)) every-entry_of c) in
    (entry, lookup-eq-entry_of r k a e ∙ made, restates)

-- An edge is permitted exactly when the role capability table lists it or its relation does not
-- count.
pub permits-eq-in_table :
    (r : SourceRole) (k : ClaimKind) (a : AssertionKind) (e : EdgeRelation)
    → permits r k a e ≡ in_table (cell r k a e)
unfolding permits
permits-eq-in_table r k a e =
    let (entry, found, restates) = lookup-Restates r k a e in
    let (v, decided, same, _) = decide-eq-in_table (cell r k a e) in
    rw (found, permits) (restates.same_admitted ∙ ground (arith, restates.decided) ∙ same)
