-- ===== src/Policy/Reassessment.antt =====
-- newz/policy/reassessment.py: what a change of the policy version obliges.
use new_z.Prelude.{
  ◌≡◌, refl, ap, ◌∙◌, Bool, false, not, ◌&&◌, ◌||◌, List, [], ◌∷◌, map, arith, String, ◌==◌,
  string_eq, if◌then◌else◌, text_lt, contains, select, exists, sort_by, exists-sort_by, exists-map,
  length, length-map, length-sort_by, exists_congr, exists-select, Bool-cases, inl, inr,
}
use new_z.Domain.Records.{Assessment, Presentation}

unfoldable pub stale_assessments : List Assessment → String → List Assessment
stale_assessments assessments current_policy_version =
    select (λ a. not (a.policy_version == current_policy_version))
      (sort_by (λ a b. text_lt a.claim_id b.claim_id) assessments)

unfoldable pub claims_requiring_reassessment : List Assessment → String → List String
claims_requiring_reassessment assessments current_policy_version =
    map (λ a. a.claim_id) (stale_assessments assessments current_policy_version)

-- `bool(set(xs) & ys)`
abbrev pub meets : List String → List String → Bool
meets xs ys = exists (λ x. contains ys x) xs

abbrev pub is_touched : List String → List String → Presentation → Bool
is_touched claim_ids edge_ids presentation =
    meets presentation.claim_ids claim_ids || meets presentation.edge_ids edge_ids

unfoldable pub invalidate_one : List String → List String → String → Presentation → Presentation
invalidate_one claim_ids edge_ids reason presentation =
    if is_touched claim_ids edge_ids presentation && presentation.live
    then record {
      id = presentation.id;
      kind = presentation.kind;
      claim_ids = presentation.claim_ids;
      edge_ids = presentation.edge_ids;
      policy_version = presentation.policy_version;
      live = false;
      invalidation_reason = reason;
      metadata = presentation.metadata;
    }
    else presentation

unfoldable pub invalidate :
    List Presentation → List String → List String → String → List Presentation
invalidate presentations claim_ids edge_ids reason =
    map (invalidate_one claim_ids edge_ids reason)
      (sort_by (λ p q. text_lt p.id q.id) presentations)

one_dead :
    (claim_ids edge_ids : List String) (reason : String) (p : Presentation)
    → ((invalidate_one claim_ids edge_ids reason p).live
        && is_touched claim_ids edge_ids (invalidate_one claim_ids edge_ids reason p))
      ≡ false
unfolding invalidate_one
one_dead claim_ids edge_ids reason p =
    elim (Bool-cases (is_touched claim_ids edge_ids p && p.live)) [
      | inl h ↦ rw h refl
      | inr h ↦ rw h (ground arith)
    ]

none_dead :
    (claim_ids edge_ids : List String) (reason : String) (ps : List Presentation)
    → exists
        (λ p. p.live && is_touched claim_ids edge_ids p)
        (map (invalidate_one claim_ids edge_ids reason) ps)
      ≡ false
none_dead claim_ids edge_ids reason [] = refl
none_dead claim_ids edge_ids reason (p ∷ ps) =
    rw (one_dead claim_ids edge_ids reason p) (none_dead claim_ids edge_ids reason ps)

kept :
    (claim_ids edge_ids : List String) (reason id : String) (p : Presentation)
    → ((invalidate_one claim_ids edge_ids reason p).live
        && (invalidate_one claim_ids edge_ids reason p).id == id)
      ≡ (p.live && p.id == id && not (is_touched claim_ids edge_ids p))
unfolding invalidate_one
kept claim_ids edge_ids reason id p =
    elim (Bool-cases (is_touched claim_ids edge_ids p && p.live)) [
      | inl h ↦ rw h (ground arith)
      | inr h ↦ rw h (ground arith)
    ]

-- After the invalidation no live presentation depends on a listed claim or edge; as many
-- presentations are there as before; and an id is that of a live presentation exactly if it was,
-- of one that depends on none of them.
invalidate_lem :
    (ps : List Presentation) (claim_ids edge_ids : List String) (reason : String)
    → (exists
          (λ p. p.live && is_touched claim_ids edge_ids p)
          (invalidate ps claim_ids edge_ids reason)
        ≡ false)
      × (length (invalidate ps claim_ids edge_ids reason) ≡ length ps)
      × ((id : String)
          → exists (λ p. p.live && p.id == id) (invalidate ps claim_ids edge_ids reason)
            ≡ exists (λ p. p.live && p.id == id && not (is_touched claim_ids edge_ids p)) ps)
unfolding invalidate
invalidate_lem ps claim_ids edge_ids reason =
    let before = λ (p q : Presentation). text_lt p.id q.id in
    let one = invalidate_one claim_ids edge_ids reason in
    (
      none_dead claim_ids edge_ids reason (sort_by before ps),
      length-map one (sort_by before ps) ∙ length-sort_by before ps,
      λ id.
          exists-map (λ p. p.live && p.id == id) one (sort_by before ps)
          ∙ exists-sort_by before (λ p. (one p).live && (one p).id == id) ps
          ∙ exists_congr (λ p. (one p).live && (one p).id == id)
              (λ p. p.live && p.id == id && not (is_touched claim_ids edge_ids p)) ps
              (kept claim_ids edge_ids reason id),
    )

-- A claim is to be reassessed exactly if some assessment of it stands under another policy version.
claims_requiring_reassessment_iff :
    (stored : List Assessment) (version id : String)
    → contains (claims_requiring_reassessment stored version) id
      ≡ exists (λ a. not (a.policy_version == version) && a.claim_id == id) stored
unfolding claims_requiring_reassessment stale_assessments
claims_requiring_reassessment_iff stored version id =
    contains-map (λ (a : Assessment). a.claim_id)
      (select (λ a. not (a.policy_version == version)) (sort_by before stored)) id
    ∙ exists-select (λ a. not (a.policy_version == version)) (λ a. a.claim_id == id)
        (sort_by before stored)
    ∙ exists-sort_by before (λ a. not (a.policy_version == version) && a.claim_id == id) stored
  where
    before : Assessment → Assessment → Bool
    before a b = text_lt a.claim_id b.claim_id

    contains-map :
        (f : Assessment → String) (xs : List Assessment) (y : String)
        → contains (map f xs) y ≡ exists (λ x. f x == y) xs
    contains-map f [] y = refl
    contains-map f (x ∷ xs) y = ap (λ r. f x == y || r) (contains-map f xs y)
