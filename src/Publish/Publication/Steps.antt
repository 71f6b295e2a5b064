-- ===== src/Publish/Publication/Steps.antt =====
-- Publication over any interleaving of its operations with those of other parts.
use new_z.Prelude.{ℕ, ◌≡◌, String, string_eq}
use new_z.Present.Cards.{Card}
use new_z.Publish.Surface.{Surface}
use new_z.Publish.Tables.{PublishStore}
use new_z.Publish.Clearance.{halt_class, clear_halt, clear}
use new_z.Publish.Publication.{
  publish, confirm_publication, correct, retract, confirm_revocation,
  halt_classes_with_overdue_revocations,
}
use new_z.Publish.Publication.Revokes.{StillFound}

-- The store and the surface.
pub record State : Type 0 where
  pub store : PublishStore
  pub surface : Surface

module _ (repr : String → String) (digest : Card → String) (bucket : String → ℕ)
    (local_id : String → String) (from_ledger : String → ℕ) (stamp : ℕ → String) where
  -- One operation. `observes` is a write of another part, which may build revisions, move evidence
  -- and record judgments, but touches neither clearances nor publications nor the surface.
  pub data Step : State → State → Type 0 where
    clears :
        {u v : State} (clock : ℕ) (id clearance_id now actor approves : String)
        → v ≡ record u {
          store =
              (clear repr digest bucket local_id from_ledger clock u.store id clearance_id now actor
                approves).0;
        }
        → Step u v
    publishes :
        {u v : State} (publication_id id clearance_id audience : String)
        → v ≡ record {
          store = (publish u.store u.surface publication_id id clearance_id audience).0;
          surface = (publish u.store u.surface publication_id id clearance_id audience).1;
        }
        → Step u v
    confirms :
        {u v : State} (publication_id : String)
        → v ≡ record u {
          store =
              (confirm_publication repr digest bucket local_id u.store u.surface publication_id).0;
        }
        → Step u v
    corrects :
        {u v : State} (revocation_id claim_id id reason : String) (now : ℕ)
        → v ≡ record {
          store = (correct stamp u.store u.surface revocation_id claim_id id reason now).0;
          surface = (correct stamp u.store u.surface revocation_id claim_id id reason now).1;
        }
        → Step u v
    retracts :
        {u v : State} (revocation_id claim_id id reason : String) (now : ℕ) (tombstone_id : String)
        → v ≡ record {
          store =
              (retract stamp u.store u.surface revocation_id claim_id id reason now tombstone_id).0;
          surface =
              (retract stamp u.store u.surface revocation_id claim_id id reason now tombstone_id).1;
        }
        → Step u v
    confirms_revocation :
        {u v : State} (revocation_id : String) (now : ℕ)
        → v ≡ record u { store = (confirm_revocation stamp u.store u.surface revocation_id now).0 }
        → Step u v
    halts :
        {u v : State} (output_class reason : String)
        → v ≡ record u { store = halt_class u.store output_class reason }
        → Step u v
    halts_overdue :
        {u v : State} (now : String)
        → v ≡ record u { store = (halt_classes_with_overdue_revocations u.store now).0 }
        → Step u v
    lifts :
        {u v : State} (output_class : String)
        → v ≡ record u { store = clear_halt u.store output_class }
        → Step u v
    observes :
        {u v : State}
        → v.surface ≡ u.surface
        → v.store.clearances ≡ u.store.clearances
        → v.store.publications ≡ u.store.publications
        → StillFound u.store.cards.card_revisions v.store.cards.card_revisions
        → Step u v

  pub data Reaches : State → State → Type 0 where
    here : {u : State} → Reaches u u
    next : {u v w : State} → Step u v → Reaches v w → Reaches u w
