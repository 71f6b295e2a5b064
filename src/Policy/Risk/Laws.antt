-- ===== src/Policy/Risk/Laws.antt =====
-- What the classifier returns, and when a revision succeeds.
use Prim.Native.Nat.{max}
use new_z.Prelude.{
  ℕ, ◌≡◌, ◌≤◌, ◌↔◌, ◌⊎◌, refl, ◌∙◌, ap, ◌++◌, Bool, true, ◌||◌, Option, none, some, List, [], ◌∷◌,
  arith, ◌==◌, ltb, if◌then◌else◌, is_filled, is_some, ◌&&◌, not, is_filled-sort_by, text_lt,
  String, ◌≢◌,
}
use new_z.Domain.Evidence.{RiskTier, risk_eq}
use new_z.Domain.Records.{OperatorAction}
use new_z.Policy.Risk.{
  rank, maximum, RiskInputs, RiskResult, fields, present, missing, classify_by, classify,
  is_reasoned, revise,
}

pub rank_inj : (a b : RiskTier) → rank a ≡ rank b → a ≡ b
unfolding rank
rank_inj a b h = ground arith

max_rank : ℕ → List RiskTier → ℕ
max_rank n [] = n
max_rank n (t ∷ ts) = max_rank (max n (rank t)) ts

rank-step : (t u : RiskTier) → rank (if ltb (rank t) (rank u) then u else t) ≡ max (rank t) (rank u)
unfolding rank
rank-step t u = ground arith

rank-maximum : (t : RiskTier) (ts : List RiskTier) → rank (maximum t ts) ≡ max_rank (rank t) ts
unfolding maximum max_rank
rank-maximum t [] = refl
rank-maximum t (u ∷ us) =
    rank-maximum (if ltb (rank t) (rank u) then u else t) us
    ∙ ap (λ n. max_rank n us) (rank-step t u)

-- The highest rank of some tiers.
pub top : List RiskTier → ℕ
top [] = 0
top (t ∷ ts) = max (rank t) (top ts)

max_rank-eq-top : (n : ℕ) (ts : List RiskTier) → max_rank n ts ≡ max n (top ts)
unfolding max_rank top
max_rank-eq-top n [] = omega arith
max_rank-eq-top n (t ∷ ts) = omega (arith, max_rank-eq-top (max n (rank t)) ts)

pub rank-maximum-top :
    (t : RiskTier) (ts : List RiskTier) → rank (maximum t ts) ≡ max (rank t) (top ts)
rank-maximum-top t ts = rank-maximum t ts ∙ max_rank-eq-top (rank t) ts

pub top-nil : top [] ≡ 0
unfolding top
top-nil = refl

pub top-cons : (t : RiskTier) (ts : List RiskTier) → top (t ∷ ts) ≡ max (rank t) (top ts)
unfolding top
top-cons t ts = refl

pub top-append : (ts us : List RiskTier) → top (ts ++ us) ≡ max (top ts) (top us)
unfolding top
top-append [] us = omega arith
top-append (t ∷ ts) us = omega (arith, top-append ts us)

rank-r3 : rank RiskTier.r3 ≡ 3
unfolding rank
rank-r3 = refl

-- The rank that an input counts with: a missing one counts as R3.
abbrev pub level : Option RiskTier → ℕ
level none = rank RiskTier.r3
level (some tier) = rank tier

-- The highest level of the listed inputs.
highest : List (String × Option RiskTier) → ℕ
highest [] = 0
highest ((name, input) ∷ rest) = max (level input) (highest rest)

max_rank-present-missing :
    (n : ℕ) (fs : List (String × Option RiskTier))
    → 3 ≤ n
    → max_rank n (present fs) ≡ max n (highest fs)
unfolding max_rank highest
max_rank-present-missing n [] h = omega arith
max_rank-present-missing n ((name, none) ∷ rest) h =
    omega (arith, rank-r3, max_rank-present-missing n rest h)
max_rank-present-missing n ((name, some t) ∷ rest) h =
    omega (arith, max_rank-present-missing (max n (rank t)) rest (omega arith))

max_rank-present :
    (n : ℕ) (fs : List (String × Option RiskTier))
    → missing fs ≡ []
    → max_rank n (present fs) ≡ max n (highest fs)
unfolding max_rank highest
max_rank-present n [] h = omega arith
max_rank-present n ((name, none) ∷ rest) h = cc
max_rank-present n ((name, some t) ∷ rest) h =
    omega (arith, max_rank-present (max n (rank t)) rest h)

highest-missing : (fs : List (String × Option RiskTier)) → missing fs ≢ [] → 3 ≤ highest fs
unfolding highest
highest-missing [] h = absurd (h refl)
highest-missing ((name, none) ∷ rest) h = omega (arith, rank-r3)
highest-missing ((name, some t) ∷ rest) h = omega (arith, highest-missing rest h)

-- With a missing input R3 stands among the tiers.
highest-present-missing :
    (fs : List (String × Option RiskTier))
    → missing fs ≢ []
    → rank (maximum RiskTier.r3 (present fs)) ≡ highest fs
highest-present-missing fs h = omega (
  arith,
  rank-maximum RiskTier.r3 (present fs),
  rank-r3,
  max_rank-present-missing (rank RiskTier.r3) fs (omega (arith, rank-r3)),
  highest-missing fs h,
)

abbrev IsClassified : List (String × Option RiskTier) → RiskResult → Type 0
IsClassified fs r =
    (rank r.effective ≡ highest fs)
    × (r.publication_blocked ≡ (is_filled r.missing_inputs || r.effective == RiskTier.r4))

classify_by-missing :
    (fs : List (String × Option RiskTier)) (name : String) (names : List String)
    → missing fs ≡ name ∷ names
    → IsClassified fs (classify_by (present fs) (name ∷ names))
classify_by-missing fs name names e =
    (highest-present-missing fs (λ e'. cc), rw (is_filled-sort_by text_lt (name ∷ names)))

classify_by-present :
    (fs : List (String × Option RiskTier)) (t : RiskTier) (ts : List RiskTier)
    → missing fs ≡ []
    → present fs ≡ t ∷ ts
    → IsClassified fs (classify_by (t ∷ ts) [])
unfolding max_rank
classify_by-present fs t ts e e' =
    let top : max_rank (max 0 (rank t)) ts ≡ max 0 (highest fs) =
      rw e' at (max_rank-present 0 fs e) in
    (rank-maximum t ts ∙ ap (λ n. max_rank n ts) (omega arith) ∙ top ∙ omega arith, refl)

classify_by_lem :
    (f : String × Option RiskTier) (fs : List (String × Option RiskTier))
    → IsClassified (f ∷ fs) (classify_by (present (f ∷ fs)) (missing (f ∷ fs)))
classify_by_lem (name, none) fs = classify_by-missing ((name, none) ∷ fs) name (missing fs) refl
classify_by_lem (name, some t) fs = go (missing fs) refl
  where
    go :
        (names : List String)
        → missing fs ≡ names
        → IsClassified ((name, some t) ∷ fs) (classify_by (t ∷ present fs) names)
    go [] e = classify_by-present ((name, some t) ∷ fs) t (present fs) e refl
    go (n ∷ ns) e = classify_by-missing ((name, some t) ∷ fs) n ns e

classify_by-reports :
    (fs : List (String × Option RiskTier))
    → is_filled (classify_by (present fs) (missing fs)).missing_inputs ≡ is_filled (missing fs)
classify_by-reports fs = go (present fs) (missing fs)
  where
    go :
        (ts : List RiskTier) (names : List String)
        → is_filled (classify_by ts names).missing_inputs ≡ is_filled names
    go ts (n ∷ ns) = is_filled-sort_by text_lt (n ∷ ns)
    go [] [] = refl
    go (t ∷ ts) [] = refl

-- All five inputs are known.
abbrev pub is_complete : RiskInputs → Bool
is_complete i =
    is_some i.source
    && (is_some i.claim
        && (is_some i.named_entity && (is_some i.domain && is_some i.intended_output)))

missing-is_complete : (i : RiskInputs) → is_filled (missing (fields i)) ≡ not (is_complete i)
missing-is_complete i = ground arith

-- The effective risk is the highest of the five inputs, a missing one counting as R3; publication
-- is blocked exactly if an input is missing or the effective risk is R4; and some input is
-- reported missing exactly if one is.
classify_lem :
    (i : RiskInputs)
    → (rank (classify i).effective
        ≡ max (level i.source) (
            max
              (level i.claim)
              (max (level i.named_entity) (max (level i.domain) (level i.intended_output)))))
      × ((classify i).publication_blocked
          ≡ (not (is_complete i) || (classify i).effective == RiskTier.r4))
      × (is_filled (classify i).missing_inputs ≡ not (is_complete i))
unfolding classify highest
classify_lem i =
    let (h, blocked) =
      classify_by_lem ("source", i.source)
        (("claim", i.claim)
          ∷ ("named_entity", i.named_entity)
          ∷ ("domain", i.domain)
          ∷ ("intended_output", i.intended_output)
          ∷ []) in
    let reported = classify_by-reports (fields i) ∙ missing-is_complete i in
    (omega (arith, h), rw reported at blocked, reported)

-- A revision succeeds exactly if it does not lower the tier or a reasoned operator action stands
-- behind it, and then gives the proposed tier.
revise_iff :
    (current proposed t : RiskTier) (action : Option OperatorAction)
    → (revise current proposed action ≡ some t)
      ↔ ((t ≡ proposed) × ((rank current ≤ rank proposed) ⊎ (is_reasoned action ≡ true)))
unfolding revise
revise_iff current proposed t action = ground arith
