-- ===== src/Acquisition/Robots/Laws.antt =====
-- The rule that decides, and what a pattern matches.
use mathlib.Core.Path.{subst}
use new_z.Prelude.{
  ◌≡◌, refl, sym, ap, ◌∙◌, arith, Bool, true, false, not, ◌&&◌, ◌||◌, List, [], ◌∷◌, String,
  if◌then◌else◌, is_text, leb, select, exists, every, every_mono, Bool-cases, inl, inr,
}
use new_z.Acquisition.Robots.{Rule, specificity, matches, Robots, outranks, best, decides, allows}

-- A rule that allows, and no shorter than the other.
abbrev pub overrides : Rule → Rule → Bool
overrides r rule = r.allow && leb (specificity rule) (specificity r)

-- Each rule that disallows is overridden by a rule that allows.
abbrev pub is_open : List Rule → Bool
is_open rules = every (λ rule. rule.allow || exists (λ r. overrides r rule) rules) rules

-- A rule that the other does not outrank.
abbrev below : Rule → Rule → Bool
below b rule = not (outranks rule b)

below_trans : (a b c : Rule) → below b c ≡ true → below a b ≡ true → below a c ≡ true
below_trans a b c h k = ground arith

-- The best of some rules is outranked by none of them.
every-best :
    (rule : Rule) (rest : List Rule)
    → (below (best rule rest) rule && every (λ r. below (best rule rest) r) rest) ≡ true
unfolding best
every-best rule [] = ground arith
every-best rule (r ∷ rest) = elim (Bool-cases (outranks r rule)) [
  | inl more ↦
      let all = every-best r rest in
      let over : below (best r rest) rule ≡ true =
        below_trans (best r rest) r rule (ground arith) (ground (arith, all)) in
      subst (λ b. (below b rule && (below b r && every (λ x. below b x) rest)) ≡ true)
        (ap (λ t. best (if t then r else rule) rest) (sym more)) (ground (arith, all, over))
  | inr less ↦
      let all = every-best rule rest in
      let over : below (best rule rest) r ≡ true =
        below_trans (best rule rest) rule r (ground arith) (ground (arith, all)) in
      subst (λ b. (below b rule && (below b r && every (λ x. below b x) rest)) ≡ true)
        (ap (λ t. best (if t then r else rule) rest) (sym less)) (ground (arith, all, over))
]

-- The best of some rules is one of them.
best-exists :
    (p : Rule → Bool) (rule : Rule) (rest : List Rule)
    → p (best rule rest) ≡ true
    → exists p (rule ∷ rest) ≡ true
unfolding best
best-exists p rule [] h = ground arith
best-exists p rule (r ∷ rest) h = elim (Bool-cases (outranks r rule)) [
  | inl more ↦ ground (arith, best-exists p r rest (rw (more, best) at h))
  | inr less ↦ ground (arith, best-exists p rule rest (rw (less, best) at h))
]

every-none :
    (p q : Rule → Bool) (rules : List Rule)
    → ((r : Rule) → p r ≡ true → q r ≡ false)
    → every p rules ≡ true
    → exists q rules ≡ false
every-none p q [] apart h = refl
every-none p q (r ∷ rules) apart h = ground (arith, apart r, every-none p q rules apart)

every-not-exists :
    (q : Rule → Bool) (rules : List Rule) → every q rules ≡ not (exists (λ r. not (q r)) rules)
every-not-exists q [] = refl
every-not-exists q (r ∷ rules) = ground (arith, every-not-exists q rules)

-- The best rule allows exactly if each that disallows is overridden.
decides-is_open : (rules : List Rule) → decides rules ≡ is_open rules
decides-is_open [] = refl
decides-is_open (rule ∷ rest) = elim (Bool-cases b.allow) [
  | inl allowed ↦
      allowed ∙ sym (every_mono (λ r. below b r) has_answer rules (answered allowed) all)
  | inr refused ↦
      let silent =
        every-none (λ r. below b r) (λ r. overrides r b) rules (λ r under. ground (arith, refused))
          all in
      refused
      ∙ sym (
          every-not-exists has_answer rules
          ∙ ap not
              (best-exists (λ r. not (has_answer r)) rule rest (ground (arith, refused, silent))))
]
  where
    b : Rule
    b = best rule rest

    rules : List Rule
    rules = rule ∷ rest

    has_answer : Rule → Bool
    has_answer r = r.allow || exists (λ x. overrides x r) rules

    all : every (λ r. below b r) rules ≡ true
    all = every-best rule rest

    answered : b.allow ≡ true → (r : Rule) → below b r ≡ true → has_answer r ≡ true
    answered allowed r under = elim (Bool-cases r.allow) [
      | inl here ↦ ground (arith, here)
      | inr not_here ↦
          let over =
            best-exists (λ x. overrides x r) rule rest (ground (arith, allowed, under, not_here)) in
          ground (arith, over)
    ]

-- A path may be read exactly if the rules were fetched, and each rule that matches it and disallows
-- is overridden by one that matches it, allows, and is no shorter.
pub allows_lem :
    (robots : Robots) (path : String)
    → allows robots path ≡ (
        robots.fetched
        && is_open
            (select (λ rule. matches rule (if is_text path then path else "/")) robots.rules))
unfolding allows
allows_lem robots path = ground (
  arith,
  decides-is_open (select (λ rule. matches rule (if is_text path then path else "/")) robots.rules),
)
