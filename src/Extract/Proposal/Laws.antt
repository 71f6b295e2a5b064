-- ===== src/Extract/Proposal/Laws.antt =====
-- What is kept of a proposal, and that nothing of it is dropped in silence.
use new_z.Prelude.{
  ◌+◌, ◌≡◌, refl, ap, ◌∙◌, arith, Bool, true, not, ◌&&◌, Option, none, some, List, [], ◌∷◌, ◌++◌,
  map, String, ◌==◌, string_eq, is_text, every, length, length-map, Option-cases, inl, inr, if_lem,
}
use new_z.Domain.Evidence.{assertion_kind_value, claim_kind_value}
use new_z.Domain.Records.{Span}
use new_z.Policy.Cells.{assertion_kinds, claim_kinds}
use new_z.Parse.Registry.{Segment}
use new_z.Parse.Spans.{locate, verify_span}
use new_z.Parse.Spans.Locate.{distinct_ids, only_in, locate-verify_span}
use new_z.Pilot.Modes.{is_blank}
use new_z.Extract.Proposal.{
  ProposedAssertion, ProposedClaim, Proposal, AcceptedAssertion, AcceptedClaim, Checked, member_of,
  accepted_of, refused_of, check_assertion, check_claim, proposed_capability, capability_refusal,
  validate,
}

length-append : {A : Type 0} (xs ys : List A) → length (xs ++ ys) ≡ length xs + length ys
length-append [] ys = omega arith
length-append (x ∷ xs) ys = omega (arith, length-append xs ys)

length-accepted_of :
    {A : Type 0} (xs : List (Checked A))
    → length (accepted_of xs) + length (refused_of xs) ≡ length xs
unfolding accepted_of refused_of
length-accepted_of [] = omega arith
length-accepted_of (Checked.accepted a ∷ rest) = omega (arith, length-accepted_of rest)
length-accepted_of (Checked.refused r ∷ rest) = omega (arith, length-accepted_of rest)

-- What is accepted passes a test.
abbrev passes : {A : Type 0} → (A → Bool) → Checked A → Bool
passes p (Checked.accepted a) = p a
passes p (Checked.refused r) = true

accepted_of-step :
    {A : Type 0} (p : A → Bool) (c : Checked A) (rest : List (Checked A))
    → passes p c ≡ true
    → every p (accepted_of rest) ≡ true
    → every p (accepted_of (c ∷ rest)) ≡ true
unfolding accepted_of
accepted_of-step p (Checked.accepted a) rest h k = ground (arith, h, k)
accepted_of-step p (Checked.refused r) rest h k = k

every-accepted_of :
    {A B : Type 0} (p : B → Bool) (f : A → Checked B) (xs : List A)
    → ((x : A) → passes p (f x) ≡ true)
    → every p (accepted_of (map f xs)) ≡ true
unfolding accepted_of
every-accepted_of p f [] h = refl
every-accepted_of p f (x ∷ xs) h =
    accepted_of-step p (f x) (map f xs) (h x) (every-accepted_of p f xs h)

-- A span that passes the check, and quotes what stands in no other segment.
abbrev pub is_verified : List Segment → Span → Bool
is_verified segments span =
    (verify_span span segments).verified && only_in span.segment_id span.quote segments

abbrev pub is_unquoted_or_verified : List Segment → Option Span → Bool
is_unquoted_or_verified segments none = true
is_unquoted_or_verified segments (some span) = is_verified segments span

module _ (segments : List Segment) (artifact_id : String) where
  located_lem :
      (quote : String) (span : Span)
      → distinct_ids segments ≡ true
      → every (λ s. s.artifact_id == artifact_id) segments ≡ true
      → locate quote segments artifact_id ≡ some span
      → is_verified segments span ≡ true
  located_lem quote span distinct own found =
      let (passed, same, only) =
        locate-verify_span quote artifact_id segments span distinct own found in
      let alone = ap (λ q. only_in span.segment_id q segments) same ∙ only in
      ground (arith, passed, alone)

  check_assertion-passes :
      (p : ProposedAssertion)
      → distinct_ids segments ≡ true
      → every (λ s. s.artifact_id == artifact_id) segments ≡ true
      → passes
          (λ (a : AcceptedAssertion). is_verified segments a.span)
          (check_assertion segments artifact_id p)
        ≡ true
  unfolding check_assertion
  check_assertion-passes p distinct own =
      elim (Option-cases (member_of assertion_kind_value assertion_kinds p.kind)) [
        | inl unknown ↦ rw (unknown, check_assertion, passes) refl
        | inr (kind, known) ↦
            rw (known, check_assertion, passes)
              (if_lem (passes (λ (a : AcceptedAssertion). is_verified segments a.span))
                (not (is_text p.quote)) refl
                (λ quoted. elim (Option-cases (locate p.quote segments artifact_id)) [
                  | inl lost ↦ rw (lost, passes) refl
                  | inr (span, found) ↦
                      rw (found, passes) (located_lem p.quote span distinct own found)
                ]))
      ]

  check_claim-passes :
      (p : ProposedClaim)
      → distinct_ids segments ≡ true
      → every (λ s. s.artifact_id == artifact_id) segments ≡ true
      → passes
          (λ (c : AcceptedClaim). is_unquoted_or_verified segments c.span)
          (check_claim segments artifact_id p)
        ≡ true
  unfolding check_claim
  check_claim-passes p distinct own =
      elim (Option-cases (member_of claim_kind_value claim_kinds p.kind)) [
        | inl unknown ↦ rw (unknown, check_claim, passes) refl
        | inr (kind, known) ↦
            rw (known, check_claim, passes)
              (if_lem (passes (λ (c : AcceptedClaim). is_unquoted_or_verified segments c.span))
                (is_blank p.wording) refl
                (λ worded.
                  if_lem (passes (λ (c : AcceptedClaim). is_unquoted_or_verified segments c.span))
                    (not (is_text p.quote)) refl
                    (λ quoted. elim (Option-cases (locate p.quote segments artifact_id)) [
                      | inl lost ↦ rw (lost, passes) refl
                      | inr (span, found) ↦
                          rw (found, passes) (located_lem p.quote span distinct own found)
                    ])))
      ]

  -- Against segments of the artifact, no two of which share an id, every assertion that is kept has
  -- a span that passes the check and quotes what stands in no other segment, and so has every claim
  -- that is kept with a span.
  pub validate-verified :
      (proposal : Proposal)
      → distinct_ids segments ≡ true
      → every (λ s. s.artifact_id == artifact_id) segments ≡ true
      → (every
            (λ a. is_verified segments a.span)
            (validate segments artifact_id proposal).assertions
          ≡ true)
        × (every
              (λ c. is_unquoted_or_verified segments c.span)
              (validate segments artifact_id proposal).claims
            ≡ true)
  unfolding validate
  validate-verified proposal distinct own = (
    every-accepted_of (λ a. is_verified segments a.span) (check_assertion segments artifact_id)
        proposal.assertions (λ p. check_assertion-passes p distinct own),
    every-accepted_of (λ c. is_unquoted_or_verified segments c.span)
        (check_claim segments artifact_id) proposal.claims (λ p. check_claim-passes p distinct own),
  )

  -- Every assertion and every claim that is proposed is kept or refused, and every field with
  -- capability that is proposed is refused: the counts agree.
  validate-counts :
      (proposal : Proposal)
      → let v = validate segments artifact_id proposal in
        length v.assertions + length v.claims + length v.refusals
        ≡ length proposal.assertions
          + length proposal.claims
          + length (proposed_capability proposal)
  unfolding validate
  validate-counts proposal =
      let assertions = map (check_assertion segments artifact_id) proposal.assertions in
      let claims = map (check_claim segments artifact_id) proposal.claims in
      let fields = map capability_refusal (proposed_capability proposal) in
      omega (
        arith,
        length-append fields (refused_of assertions ++ refused_of claims),
        length-append (refused_of assertions) (refused_of claims),
        length-accepted_of assertions,
        length-accepted_of claims,
        length-map (check_assertion segments artifact_id) proposal.assertions,
        length-map (check_claim segments artifact_id) proposal.claims,
        length-map capability_refusal (proposed_capability proposal),
      )
