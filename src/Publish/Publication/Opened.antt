-- ===== src/Publish/Publication/Opened.antt =====
-- The row that a revocation opens.
use new_z.Prelude.{
  ℕ, ◌+◌, ◌*◌, ◌≡◌, refl, sym, arith, false, none, some, List, [], ◌∷◌, ◌++◌, String, ◌==◌,
  string_eq, is_some, exists, eq_refl, Bool-cases, inl, inr,
}
use new_z.Present.Dependencies.{find_claim}
use new_z.Present.Cards.{CardRevision}
use new_z.Publish.Tables.{Revocation, PublishStore, class_of}
use new_z.Publish.Publication.{
  revocation_window_minutes, attempted, find_revocation, open_revocation,
}

pub find_revocation-append :
    (rows : List Revocation) (r : Revocation)
    → exists (λ x. x.id == r.id) rows ≡ false
    → find_revocation (rows ++ r ∷ []) r.id ≡ some r
unfolding find_revocation
find_revocation-append [] r h = rw (eq_refl r.id) refl
find_revocation-append (x ∷ rows) r h = ground (arith, find_revocation-append rows r)

module _ (stamp : ℕ → String) where
  -- The row that a revocation opens.
  abbrev pub opened_row :
      (revocation_id kind claim_id : String) → CardRevision → String → ℕ → Revocation
  opened_row revocation_id kind claim_id row reason now = record {
    id = revocation_id;
    kind = kind;
    claim_id = claim_id;
    card_revision_id = row.id;
    output_class = class_of row;
    reason = reason;
    attempted_at = stamp now;
    due_at = stamp (now + revocation_window_minutes * 60);
    confirmed_at = "";
    status = attempted;
  }

  -- The row was opened under a fresh id.
  abbrev pub Opens : PublishStore → Revocation → PublishStore → Type 0
  Opens store r t =
      (t.revocations ≡ store.revocations ++ r ∷ [])
      × (exists (λ x. x.id == r.id) store.revocations ≡ false)

  pub open_revocation-Opens :
      (store t : PublishStore) (revocation_id kind claim_id reason : String) (row : CardRevision)
      (now : ℕ)
      → open_revocation stamp store revocation_id kind claim_id row reason now ≡ some t
      → Opens store (opened_row revocation_id kind claim_id row reason now) t
  unfolding open_revocation
  open_revocation-Opens store t revocation_id kind claim_id reason row now h =
      elim (Bool-cases (exists (λ (r : Revocation). r.id == revocation_id) store.revocations)) [
        | inl taken ↦ none_left (rw (taken, open_revocation) at h)
        | inr free ↦
            elim (Bool-cases (is_some (find_claim store.cards.evidence.edges.claims claim_id))) [
              | inr unknown ↦ none_left (rw (free, unknown, open_revocation) at h)
              | inl known ↦ (sym (rows_eq (rw (free, known, open_revocation) at h)), free)
            ]
      ]
    where
      none_left :
          none ≡ some t → Opens store (opened_row revocation_id kind claim_id row reason now) t
      none_left k = cc

      rows_eq : {x : PublishStore} → some x ≡ some t → x.revocations ≡ t.revocations
      rows_eq k = cc
