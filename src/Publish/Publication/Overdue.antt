-- ===== src/Publish/Publication/Overdue.antt =====
-- Which classes an overdue revocation halts.
use Prim.Native.String.append
use new_z.Prelude.{
  ◌≡◌, refl, sym, ap, ◌∙◌, arith, Bool, true, false, not, ◌&&◌, ◌||◌, none, some, List, [], ◌∷◌,
  ◌++◌, map, String, ◌==◌, string_eq, if◌then◌else◌, is_text, is_text-append, text_lt, exists,
  select, exists-map, exists-sort_by, exists-select, eq_refl, Bool-cases, Option-cases, inl, inr,
}
use new_z.Policy.Promotion.{◌⧺◌}
use new_z.Publish.Tables.{Revocation, ClassHalt, PublishStore}
use new_z.Publish.Clearance.{class_halted, halt_class, is_overdue, overdue_revocations}
use new_z.Publish.Publication.{find_revocation, halt_each, halt_classes_with_overdue_revocations}

abbrev is_halted : List ClassHalt → String → Bool
is_halted halts output_class = is_text (class_halted halts output_class)

append-is_text : (s t : String) → is_text t ≡ true → is_text (s ⧺ t) ≡ true
append-is_text String.[] t h = ap is_text (append.nil t) ∙ h
append-is_text (String.◌∷◌ c s) t h = ap is_text (append.cons c s t)

-- `INSERT OR REPLACE` under the class.
abbrev replace_halt : List ClassHalt → String → String → List ClassHalt
replace_halt halts c reason =
    select (λ (h : ClassHalt). not (h.output_class == c)) halts
    ++ record { output_class = c; reason = reason; cleared = false } ∷ []

replaced_same :
    (halts : List ClassHalt) (c reason : String)
    → class_halted (replace_halt halts c reason) c ≡ reason
unfolding class_halted
replaced_same [] c reason = rw (eq_refl c) refl
replaced_same (x ∷ halts) c reason = elim (Bool-cases (x.output_class == c)) [
  | inl same ↦ rw same (replaced_same halts c reason)
  | inr other ↦ rw other (rw other (replaced_same halts c reason))
]

replaced_other :
    (halts : List ClassHalt) (c d reason : String)
    → (c == d) ≡ false
    → class_halted (replace_halt halts c reason) d ≡ class_halted halts d
unfolding class_halted
replaced_other [] c d reason h = rw h refl
replaced_other (x ∷ halts) c d reason h = elim (Bool-cases (x.output_class == c)) [
  | inl same ↦
      rw (same, ap (λ y. y == d) ((string_eq.beq_iff x.output_class c).0 same) ∙ h)
        (replaced_other halts c d reason h)
  | inr other ↦ rw other (
      ap (λ (t : String). if x.output_class == d && not x.cleared then x.reason else t)
        (replaced_other halts c d reason h))
]

halt_class-is_halted :
    (store : PublishStore) (c d reason : String)
    → is_text reason ≡ true
    → is_halted (halt_class store c reason).class_halts d
      ≡ (is_halted store.class_halts d || c == d)
unfolding halt_class
halt_class-is_halted store c d reason h = elim (Bool-cases (c == d)) [
  | inl same ↦
      ap (λ x. is_halted (replace_halt store.class_halts c reason) x)
        (sym ((string_eq.beq_iff c d).0 same))
      ∙ ap is_text (replaced_same store.class_halts c reason)
      ∙ h
      ∙ rw same (sym (either (is_halted store.class_halts d)))
  | inr other ↦
      ap is_text (replaced_other store.class_halts c d reason other)
      ∙ rw other (sym (neither (is_halted store.class_halts d)))
]
  where
    either : (b : Bool) → (b || true) ≡ true
    either b = ground arith

    neither : (b : Bool) → (b || false) ≡ b
    neither b = ground arith

-- The revocation with the id is of the class.
abbrev of_class : List Revocation → String → String → Bool
of_class rows d id = elim (find_revocation rows id) [ none ↦ false | some r ↦ r.output_class == d ]

halt_class-revocations :
    (store : PublishStore) (c reason : String)
    → (halt_class store c reason).revocations ≡ store.revocations
unfolding halt_class
halt_class-revocations store c reason = refl

halt_each-is_halted :
    (store : PublishStore) (ids : List String) (d : String)
    → is_halted (halt_each store ids).0.class_halts d
      ≡ (is_halted store.class_halts d || exists (of_class store.revocations d) ids)
unfolding halt_each
halt_each-is_halted store [] d = ground arith
halt_each-is_halted store (id ∷ ids) d =
    elim (Option-cases (find_revocation store.revocations id)) [
      | inl missing ↦ rw (missing, halt_each, of_class) (halt_each-is_halted store ids d)
      | inr (r, there) ↦
          let reason = r.kind ⧺ " " ⧺ id ⧺ " passed its window unconfirmed" in
          let halted = halt_class store r.output_class reason in
          rw (there, halt_each, of_class)
            (halt_each-is_halted halted ids d
              ∙ (λ i.
                  halt_class-is_halted store r.output_class d reason (reason-is_text r.kind id) i
                  || exists (of_class (halt_class-revocations store r.output_class reason i) d) ids)
              ∙ shift (is_halted store.class_halts d) (r.output_class == d)
                  (exists (of_class store.revocations d) ids))
    ]
  where
    shift : (a b c : Bool) → ((a || b) || c) ≡ (a || (b || c))
    shift a b c = ground arith

    reason-is_text :
        (kind name : String) → is_text (kind ⧺ " " ⧺ name ⧺ " passed its window unconfirmed") ≡ true
    reason-is_text kind name =
        append-is_text kind (" " ⧺ name ⧺ " passed its window unconfirmed")
          (is_text-append " " (name ⧺ " passed its window unconfirmed") refl)

-- No two revocations share an id, as the table's primary key has it.
abbrev pub IsKeyed : List Revocation → Type 0
IsKeyed [] = Unit
IsKeyed (r ∷ rows) = (exists (λ x. x.id == r.id) rows ≡ false) × IsKeyed rows

exists-selected :
    (p : Revocation → Bool) (q : String → Bool) (rows : List Revocation)
    → exists q (map (λ (r : Revocation). r.id) (select p rows)) ≡ exists (λ r. p r && q r.id) rows
exists-selected p q rows =
    exists-map q (λ (r : Revocation). r.id) (select p rows) ∙ exists-select p (λ r. q r.id) rows

of_class_found :
    (rows : List Revocation) (d id : String) (r : Revocation)
    → find_revocation rows id ≡ some r
    → of_class rows d id ≡ (r.output_class == d)
of_class_found rows d id r h = rw (h, of_class) refl

-- Under unique ids each row is found by its id.
found_class :
    (p : Revocation → Bool) (d : String) (rows all : List Revocation)
    → ((r : Revocation)
        → exists (λ x. x.id == r.id) rows ≡ true
        → find_revocation all r.id ≡ find_revocation rows r.id)
    → IsKeyed rows
    → exists (λ r. p r && of_class all d r.id) rows ≡ exists (λ r. p r && r.output_class == d) rows
unfolding find_revocation
found_class p d [] all agrees keyed = refl
found_class p d (r ∷ rows) all agrees (fresh, keyed) =
    let here : find_revocation all r.id ≡ some r =
      agrees r (rw (eq_refl r.id) refl) ∙ rw (eq_refl r.id) refl in
    (λ i. p r && of_class_found all d r.id r here i || found_class p d rows all later keyed i)
  where
    clash :
        (x : Revocation)
        → exists (λ y. y.id == r.id) rows ≡ exists (λ y. y.id == x.id) rows
        → exists (λ y. y.id == x.id) rows ≡ true
        → ⊥
    clash x e there = cc (e, there, fresh)

    apart : (x : Revocation) → exists (λ y. y.id == x.id) rows ≡ true → (r.id == x.id) ≡ false
    apart x there = elim (Bool-cases (r.id == x.id)) [
      | inr other ↦ other
      | inl same ↦ absurd (
          clash x (ap (λ i. exists (λ y. y.id == i) rows) ((string_eq.beq_iff r.id x.id).0 same))
            there)
    ]

    either : (b : Bool) → (b || true) ≡ true
    either b = ground arith

    later :
        (x : Revocation)
        → exists (λ y. y.id == x.id) rows ≡ true
        → find_revocation all x.id ≡ find_revocation rows x.id
    later x there = agrees x (rw there (either (r.id == x.id))) ∙ rw (apart x there) refl

-- Where no two revocations share an id, the automatic halt leaves halted, with a reason, exactly the
-- classes that were so before and those with a revocation that is past its window and not confirmed.
pub halt_classes_with_overdue_revocations_iff :
    (store : PublishStore) (now output_class : String)
    → IsKeyed store.revocations
    → is_text
        (class_halted (halt_classes_with_overdue_revocations store now).0.class_halts output_class)
      ≡ (is_text (class_halted store.class_halts output_class)
          || exists (λ r. is_overdue now r && r.output_class == output_class) store.revocations)
unfolding halt_classes_with_overdue_revocations overdue_revocations
halt_classes_with_overdue_revocations_iff store now output_class keyed =
    let rows = store.revocations in
    let ids = map (λ (r : Revocation). r.id) (select (is_overdue now) rows) in
    halt_each-is_halted store (overdue_revocations rows now none) output_class
    ∙ ap (λ b. is_halted store.class_halts output_class || b)
        (exists-sort_by text_lt (of_class rows output_class) ids
          ∙ exists-selected (is_overdue now) (of_class rows output_class) rows
          ∙ found_class (is_overdue now) output_class rows rows (λ r there. refl) keyed)
