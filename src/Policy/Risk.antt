-- ===== src/Policy/Risk.antt =====
-- newz/policy/risk.py: the risk classifier and the monotonic revision of a tier.
pub mod Laws
use new_z.Prelude.{
  ℕ, suc, Bool, true, false, Option, none, some, List, [], ◌∷◌, String, ◌==◌, ltb, leb,
  if◌then◌else◌, is_text, text_lt, get, sort_by,
}
use mathlib.Core.List.{foldl}
use new_z.Domain.Evidence.{RiskTier, risk_eq}
use new_z.Domain.Records.{OperatorAction}

abbrev pub risk_order : List RiskTier
risk_order = RiskTier.r0 ∷ RiskTier.r1 ∷ RiskTier.r2 ∷ RiskTier.r3 ∷ RiskTier.r4 ∷ []

-- `{tier: i for i, tier in enumerate(RISK_ORDER)}`
abbrev pub enumerate : ℕ → List RiskTier → List (RiskTier × ℕ)
enumerate i [] = []
enumerate i (t ∷ ts) = (t, i) ∷ enumerate (suc i) ts

-- Every tier is listed in the order, so the look-up never misses.
unfoldable pub rank : RiskTier → ℕ
rank tier = elim (get (enumerate 0 risk_order) tier) [ none ↦ 0 | some i ↦ i ]

-- `max(tiers, key=rank)` of one tier or more: the first of those with the highest rank.
unfoldable pub maximum : RiskTier → List RiskTier → RiskTier
maximum tier tiers = foldl (λ best t. if ltb (rank best) (rank t) then t else best) tier tiers

pub record RiskInputs : Type 0 where
  pub source : Option RiskTier
  pub claim : Option RiskTier
  pub named_entity : Option RiskTier
  pub domain : Option RiskTier
  pub intended_output : Option RiskTier

pub record RiskResult : Type 0 where
  pub effective : RiskTier
  pub publication_blocked : Bool
  pub missing_inputs : List String
  pub reason : String

-- The names of the loop of `classify` and the values that `getattr` reads.
abbrev pub fields : RiskInputs → List (String × Option RiskTier)
fields inputs =
    ("source", inputs.source)
    ∷ ("claim", inputs.claim)
    ∷ ("named_entity", inputs.named_entity)
    ∷ ("domain", inputs.domain)
    ∷ ("intended_output", inputs.intended_output)
    ∷ []

abbrev pub present : List (String × Option RiskTier) → List RiskTier
present [] = []
present ((name, none) ∷ rest) = present rest
present ((name, some tier) ∷ rest) = tier ∷ present rest

abbrev pub missing : List (String × Option RiskTier) → List String
missing [] = []
missing ((name, none) ∷ rest) = name ∷ missing rest
missing ((name, some tier) ∷ rest) = missing rest

-- The tail of `classify`, once the loop is over. No input missing and none present does not occur:
-- there are five of them.
abbrev pub classify_by : List RiskTier → List String → RiskResult
classify_by tiers (name ∷ names) = record {
  effective = maximum RiskTier.r3 tiers;
  publication_blocked = true;
  missing_inputs = sort_by text_lt (name ∷ names);
  reason = "missing_risk_state_behaves_as_r3";
}
classify_by [] [] = record {
  effective = RiskTier.r3;
  publication_blocked = true;
  missing_inputs = [];
  reason = "";
}
classify_by (tier ∷ tiers) [] = record {
  effective = maximum tier tiers;
  publication_blocked = maximum tier tiers == RiskTier.r4;
  missing_inputs = [];
  reason = "maximum_of_inputs";
}

unfoldable pub classify : RiskInputs → RiskResult
classify inputs = classify_by (present (fields inputs)) (missing (fields inputs))

-- `operator_action is None or not operator_action.reason`, negated.
abbrev pub is_reasoned : Option OperatorAction → Bool
is_reasoned none = false
is_reasoned (some action) = is_text action.reason

-- `none` is RiskLoweringRefused.
unfoldable pub revise : RiskTier → RiskTier → Option OperatorAction → Option RiskTier
revise current proposed operator_action =
    if leb (rank current) (rank proposed)
    then some proposed
    else if is_reasoned operator_action
    then some proposed
    else none
