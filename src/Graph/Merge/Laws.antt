-- ===== src/Graph/Merge/Laws.antt =====
-- What a merge and a split keep of the edges.
use new_z.Prelude.{
  ◌≡◌, refl, sym, ap, ◌∙◌, Bool, true, not, ◌&&◌, ◌||◌, Option, none, some, List, [], ◌∷◌, map,
  arith, String, ◌==◌, string_eq, is_some, text_lt, get, length, contains, select, every, exists,
  sort_by, insert_by, Option-cases, inl, inr, Bool-cases, exists-sort_by, contains-sort_by,
  exists-map, length-map, exists_congr, select_congr, eq_refl,
}
use Prim.Native.String.{◌++◌ as text_append}
use mathlib.Core.Path.{ap₂, subst}
use new_z.Domain.Records.{Assertion, Basis, Claim, EdgeEvent, SupersessionEvent}
use new_z.Policy.Admission.{evaluate_edge, attest, refusal, role_of, kind_of, is_live}
use new_z.Graph.Merge.{repoint, in_order, merge, in_scope, moves, is_consistent, split}

-- A re-pointed edge is admitted for a claim as the original is, with the same reason and the same
-- attestations.
evaluate_edge-repoint :
    (edge : EdgeEvent) (successor suffix : String) (claim : Claim) (assertion : Option Assertion)
    (basis : Option Basis)
    → evaluate_edge (repoint edge successor suffix) claim assertion basis
      ≡ evaluate_edge edge claim assertion basis
unfolding repoint evaluate_edge attest refusal role_of kind_of is_live
evaluate_edge-repoint edge successor suffix claim none basis = refl
evaluate_edge-repoint edge successor suffix claim (some a) basis = refl

length-select-insert_by :
    (before : EdgeEvent → EdgeEvent → Bool) (p : EdgeEvent → Bool) (e : EdgeEvent)
    (es : List EdgeEvent)
    → length (select p (insert_by before e es)) ≡ length (select p (e ∷ es))
length-select-insert_by before p e [] = refl
length-select-insert_by before p e (f ∷ es) = ground (arith, length-select-insert_by before p e es)

length-select-sort_by :
    (before : EdgeEvent → EdgeEvent → Bool) (p : EdgeEvent → Bool) (es : List EdgeEvent)
    → length (select p (sort_by before es)) ≡ length (select p es)
length-select-sort_by before p [] = refl
length-select-sort_by before p (e ∷ es) = ground (
  arith,
  length-select-insert_by before p e (sort_by before es),
  length-select-sort_by before p es,
)

exists-select :
    (p q : EdgeEvent → Bool) (es : List EdgeEvent)
    → exists p (select q es) ≡ exists (λ e. q e && p e) es
exists-select p q [] = refl
exists-select p q (e ∷ es) = ground (arith, exists-select p q es)

every-repoint :
    (successor suffix : String) (es : List EdgeEvent)
    → every (λ e. e.claim_id == successor) (map (λ e. repoint e successor suffix) es) ≡ true
unfolding repoint
every-repoint successor suffix [] = refl
every-repoint successor suffix (e ∷ es) = rw (eq_refl successor) (every-repoint successor suffix es)

-- A merge moves each edge of the merged claims once, to the successor: as many edges move as are
-- bound to one of the claims, each then is bound to the successor, and the bases beneath them are
-- those of the claims.
merge_lem :
    (ids : List String) (successor : String) (edges : List EdgeEvent) (reason event_id : String)
    → let moved = (merge ids successor edges reason event_id).1 in
      (length moved ≡ length (select (λ e. contains ids e.claim_id) edges))
      × (every (λ e. e.claim_id == successor) moved ≡ true)
      × ((b : String)
          → exists (λ e. e.basis_id == b) moved
            ≡ exists (λ e. contains ids e.claim_id && e.basis_id == b) edges)
unfolding merge repoint
merge_lem ids successor edges reason event_id =
    let here = λ (e : EdgeEvent). contains (sort_by text_lt ids) e.claim_id in
    let there = λ (e : EdgeEvent). contains ids e.claim_id in
    let same = λ (e : EdgeEvent). contains-sort_by text_lt ids e.claim_id in
    let selected = select here (in_order edges) in
    let before = λ (e f : EdgeEvent). text_lt e.id f.id in
    (
      length-map (λ e. repoint e successor "+m") selected
          ∙ length-select-sort_by before here edges
          ∙ ap length (select_congr here there edges same),
      every-repoint successor "+m" selected,
      λ b.
          exists-map (λ e. e.basis_id == b) (λ e. repoint e successor "+m") selected
          ∙ exists-select (λ e. e.basis_id == b) here (in_order edges)
          ∙ exists-sort_by before (λ e. here e && e.basis_id == b) edges
          ∙ exists_congr (λ e. here e && e.basis_id == b) (λ e. there e && e.basis_id == b) edges
              (λ e. ap (λ x. x && e.basis_id == b) (same e)),
    )

is_some-moves :
    (assignment : List (String × String)) (es : List EdgeEvent)
    → is_some (moves assignment es) ≡ every (λ e. is_some (get assignment e.id)) es
unfolding moves
is_some-moves assignment [] = refl
is_some-moves assignment (e ∷ es) = ground (arith, is_some-moves assignment es)

-- A split succeeds exactly if each edge of the claim is assigned and no edge has two successors.
split_iff :
    (claim_id : String) (assignment : List (String × String)) (edges : List EdgeEvent)
    (reason event_id : String)
    → is_some (split claim_id assignment edges reason event_id) ≡ (
        every (λ e. is_some (get assignment e.id)) (in_scope claim_id edges)
        && is_consistent [] assignment)
unfolding split
split_iff claim_id assignment edges reason event_id =
    ground (arith, is_some-moves assignment (in_scope claim_id edges))

-- Where an edge of the claim goes: under the successor that it is assigned, with a suffixed id, and
-- with nothing else changed.
abbrev pub rebound : List (String × String) → EdgeEvent → EdgeEvent
rebound assignment e = record e {
  id = text_append e.id "+s";
  claim_id = elim (get assignment e.id) [ none ↦ "" | some successor ↦ successor ];
}

-- The moved edges are the edges of the claim, each once and each in its new form: whatever is asked
-- of an edge, as many of them pass as there are edges of the claim whose new form does.
abbrev pub FollowsAssignment :
    String → List (String × String) → List EdgeEvent → List EdgeEvent → Type 0
FollowsAssignment claim_id assignment edges moved =
    (every (λ e. not (e.claim_id == claim_id) || is_some (get assignment e.id)) edges ≡ true)
    × ((p : EdgeEvent → Bool)
        → length (select p moved)
          ≡ length (select (λ e. e.claim_id == claim_id && p (rebound assignment e)) edges))

some_inj {ℓ} : {A : Type ℓ} {x y : A} → some x ≡ some y → x ≡ y
some_inj {x} h = ap (λ o. elim o [ none ↦ x | some z ↦ z ]) h

moves-cons :
    (assignment : List (String × String)) (e : EdgeEvent) (es : List EdgeEvent) {s : String}
    {rest : List (String × EdgeEvent)}
    → get assignment e.id ≡ some s
    → moves assignment es ≡ some rest
    → moves assignment (e ∷ es) ≡ some ((s, repoint e s "+s") ∷ rest)
unfolding moves
moves-cons assignment e es found moved = rw (found, moved, moves)

repoint-rebound :
    (assignment : List (String × String)) (e : EdgeEvent) (s : String)
    → get assignment e.id ≡ some s
    → repoint e s "+s" ≡ rebound assignment e
unfolding repoint
repoint-rebound assignment e s found = rw found refl

moves-rebound :
    (assignment : List (String × String)) (es : List EdgeEvent) {ms : List (String × EdgeEvent)}
    → moves assignment es ≡ some ms
    → map (λ m. m.1) ms ≡ map (rebound assignment) es
unfolding moves
moves-rebound assignment [] {ms} h = ap (map (λ m. m.1)) (sym (some_inj h))
moves-rebound assignment (e ∷ es) {ms} h = elim (Option-cases (get assignment e.id)) [
  | inl lost ↦ absurd (none_made (rw (lost, moves) at h))
  | inr (s, found) ↦ elim (Option-cases (moves assignment es)) [
    | inl lost ↦ absurd (none_made (rw (found, lost, moves) at h))
    | inr (rest, moved) ↦
        ap (map (λ m. m.1)) (some_inj (sym h ∙ moves-cons assignment e es found moved))
        ∙ ap₂ (λ x xs. x ∷ xs) (repoint-rebound assignment e s found)
            (moves-rebound assignment es moved)
  ]
]
  where
    none_made : none ≡ some ms → ⊥
    none_made k = cc

length-select-map :
    (p : EdgeEvent → Bool) (f : EdgeEvent → EdgeEvent) (es : List EdgeEvent)
    → length (select p (map f es)) ≡ length (select (λ e. p (f e)) es)
length-select-map p f [] = refl
length-select-map p f (e ∷ es) = ground (arith, length-select-map p f es)

length-select-select :
    (p q : EdgeEvent → Bool) (es : List EdgeEvent)
    → length (select p (select q es)) ≡ length (select (λ e. q e && p e) es)
length-select-select p q [] = refl
length-select-select p q (e ∷ es) = ground (arith, length-select-select p q es)

-- Of the edges in order that pass a test, every one passes another exactly if each edge that fails
-- the second fails the first.
every-in_order :
    (q p : EdgeEvent → Bool) (es : List EdgeEvent)
    → every p (select q (in_order es)) ≡ every (λ e. not (q e) || p e) es
every-in_order q p es =
    every-eq-none q p (in_order es)
    ∙ ap not (exists-sort_by (λ e f. text_lt e.id f.id) (λ e. q e && not (p e)) es)
    ∙ sym (none-eq-every q p es)
  where
    every-eq-none :
        (q p : EdgeEvent → Bool) (es : List EdgeEvent)
        → every p (select q es) ≡ not (exists (λ e. q e && not (p e)) es)
    every-eq-none q p [] = refl
    every-eq-none q p (e ∷ es) = ground (arith, every-eq-none q p es)

    none-eq-every :
        (q p : EdgeEvent → Bool) (es : List EdgeEvent)
        → every (λ e. not (q e) || p e) es ≡ not (exists (λ e. q e && not (p e)) es)
    none-eq-every q p [] = refl
    none-eq-every q p (e ∷ es) = ground (arith, none-eq-every q p es)

moves-FollowsAssignment :
    (claim_id : String) (assignment : List (String × String)) (edges : List EdgeEvent)
    {ms : List (String × EdgeEvent)}
    → moves assignment (in_scope claim_id edges) ≡ some ms
    → FollowsAssignment claim_id assignment edges (map (λ m. m.1) ms)
unfolding in_scope
moves-FollowsAssignment claim_id assignment edges {ms} h =
    let own = λ (e : EdgeEvent). e.claim_id == claim_id in
    let own_edges = select own (in_order edges) in
    (
      sym (every-in_order own (λ e. is_some (get assignment e.id)) edges)
          ∙ sym (is_some-moves assignment own_edges)
          ∙ ap is_some h,
      λ p.
          ap (λ es. length (select p es)) (moves-rebound assignment own_edges h)
          ∙ length-select-map p (rebound assignment) own_edges
          ∙ length-select-select (λ e. p (rebound assignment e)) own (in_order edges)
          ∙ length-select-sort_by (λ e f. text_lt e.id f.id)
              (λ e. own e && p (rebound assignment e)) edges,
    )

-- A split moves exactly the edges of the claim, each once, to the successor that it is assigned,
-- with a suffixed id and nothing else changed; and each of them is assigned one.
pub split-FollowsAssignment :
    (claim_id : String) (assignment : List (String × String)) (edges : List EdgeEvent)
    (reason event_id : String) (event : SupersessionEvent) (moved : List EdgeEvent)
    → split claim_id assignment edges reason event_id ≡ some (event, moved)
    → FollowsAssignment claim_id assignment edges moved
unfolding split
split-FollowsAssignment claim_id assignment edges reason event_id event moved h =
    elim (Option-cases (moves assignment (in_scope claim_id edges))) [
      | inl lost ↦ ground arith
      | inr (ms, found) ↦ elim (Bool-cases (is_consistent [] assignment)) [
        | inr twice ↦ ground arith
        | inl once ↦
            subst (FollowsAssignment claim_id assignment edges)
              (ap (λ r. r.1) (some_inj (rw (found, once, split) at h)))
              (moves-FollowsAssignment claim_id assignment edges found)
      ]
    ]
