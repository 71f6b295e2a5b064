-- ===== src/Policy/Matrix.antt =====
-- newz/policy/matrix.py: the materialised matrix. Its keys are the distinct cells of `all_cells`,
-- so the dict that the loop fills holds one entry for each, in their order.
pub mod Laws
use new_z.Prelude.{
  ◌≡◌, refl, sym, ap, ◌∙◌, Bool, true, false, ◌&&◌, Option, none, some, List, [], ◌∷◌, String,
  arith, Eq, ◌==◌, if◌then◌else◌, string_eq, get, keyed, traverse, every, ◌↔◌, Bool-cases, &&_iff,
  Option-cases, inl, inr, map,
}
use new_z.Domain.Evidence.{
  SourceRole, ClaimKind, AssertionKind, EdgeRelation, role_eq, claim_kind_eq, assertion_kind_eq,
  relation_eq,
}
use new_z.Domain.Admission.{RefusalReason}
use new_z.Policy.Rules.{Cell, Verdict, Rule, rules, decide}
use new_z.Policy.Cells.{all_cells, every-all_cells}

pub record MatrixEntry : Type 0 where
  pub cell : Cell
  pub admitted : Bool
  pub rule_id : String
  pub reason : Option RefusalReason
  pub decision_id : Option String

abbrev cell_beq : Cell → Cell → Bool
cell_beq a b =
    a.role == b.role
    && (a.claim_kind == b.claim_kind
        && (a.assertion_kind == b.assertion_kind && a.relation == b.relation))

cell_path :
    (a b : Cell)
    → a.role ≡ b.role
    → a.claim_kind ≡ b.claim_kind
    → a.assertion_kind ≡ b.assertion_kind
    → a.relation ≡ b.relation
    → a ≡ b
cell_path a b p q r s =
    λ i. record { role = p i; claim_kind = q i; assertion_kind = r i; relation = s i }

pub cell_beq_iff : (a b : Cell) → (cell_beq a b ≡ true) ↔ (a ≡ b)
cell_beq_iff a b = (
  λ h.
      let (p, h') = (&&_iff _ _).0 h in
      let (q, h'') = (&&_iff _ _).0 h' in
      let (r, s) = (&&_iff _ _).0 h'' in
      cell_path a b ((role_eq.beq_iff _ _).0 p) ((claim_kind_eq.beq_iff _ _).0 q)
        ((assertion_kind_eq.beq_iff _ _).0 r) ((relation_eq.beq_iff _ _).0 s),
  λ e. rw (
    (role_eq.beq_iff a.role b.role).1 (ap (λ c. c.role) e),
    (claim_kind_eq.beq_iff a.claim_kind b.claim_kind).1 (ap (λ c. c.claim_kind) e),
    (assertion_kind_eq.beq_iff a.assertion_kind b.assertion_kind).1 (ap (λ c. c.assertion_kind) e),
    (relation_eq.beq_iff a.relation b.relation).1 (ap (λ c. c.relation) e),
  ),
)

instance abbrev pub cell_eq : Eq Cell
cell_eq = record { beq = λ a b. cell_beq a b; beq_iff = cell_beq_iff }

-- `BY_ID`.
unfoldable pub by_id : List (String × Rule)
unfolding rules
by_id = map (λ r. (r.id, r)) rules

-- The body of the loop of `CapabilityMatrix`: `none` is an error in `decide` or a rule id that
-- `BY_ID` lacks.
unfoldable pub entry_of : Cell → Option MatrixEntry
entry_of cell = elim (decide cell) [
  | none ↦ none
  | some verdict ↦ elim (get by_id verdict.rule_id) [
    | none ↦ none
    | some rule ↦ some (record {
      cell = cell;
      admitted = verdict.admitted;
      rule_id = verdict.rule_id;
      reason = verdict.reason;
      decision_id = rule.decision_id;
    })
  ]
]

unfoldable pub matrix : Option (List (Cell × MatrixEntry))
matrix = traverse (λ c. keyed c (entry_of c)) all_cells

-- `none` is a matrix that was not built or a cell that it lacks.
unfoldable pub lookup : SourceRole → ClaimKind → AssertionKind → EdgeRelation → Option MatrixEntry
lookup role claim_kind assertion_kind relation =
    let cell : Cell = record {
      role = role;
      claim_kind = claim_kind;
      assertion_kind = assertion_kind;
      relation = relation;
    } in
    elim matrix [ none ↦ none | some entries ↦ get entries cell ]

-- Where `lookup` raises, no admission is given.
unfoldable pub permits : SourceRole → ClaimKind → AssertionKind → EdgeRelation → Bool
permits role claim_kind assertion_kind relation =
    elim (lookup role claim_kind assertion_kind relation) [
      | none ↦ false
      | some entry ↦ entry.admitted
    ]
