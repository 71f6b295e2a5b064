-- ===== src/Present/Cards.antt =====
-- newz/present/cards.py: the content of a card, as far as other parts read it, and the revisions of
-- cards in the store. The building of a card is not modelled.
use new_z.Prelude.{Bool, Option, none, some, List, [], ◌∷◌, String, ◌==◌, string_eq, if◌then◌else◌}
use new_z.Domain.Evidence.{AssessmentState, RiskTier}
use new_z.Evidence.Assess.{AssessStore}

-- An item of evidence that a card cites.
pub record CardItem : Type 0 where
  pub edge_id : String
  pub artifact_id : String
  pub quote : String

-- The content of a card. `rest` is what no part reads, as text.
pub record Card : Type 0 where
  pub claim_id : String
  pub wording : String
  pub state : AssessmentState
  pub risk : RiskTier
  pub supporting : List CardItem
  pub contradicting : List CardItem
  pub context : List CardItem
  pub rest : String

-- A row of `card_revisions`.
pub record CardRevision : Type 0 where
  pub id : String
  pub claim_id : String
  pub content : Card
  pub content_hash : String
  pub risk : RiskTier
  pub state : AssessmentState
  pub live : Bool

-- A row of `card_dependencies`.
pub record Dependency : Type 0 where
  pub card_revision_id : String
  pub kind : String
  pub dependency_id : String

-- The tables that a card rests on: those of the evidence, the ids of the artifacts, the revisions
-- and their dependencies. `invalidated` are the entries of the outbox that are written here: the
-- dependency, the reason and the revisions.
pub record CardStore : Type 0 where
  pub evidence : AssessStore
  pub artifacts : List String
  pub card_revisions : List CardRevision
  pub card_dependencies : List Dependency
  pub invalidated : List (String × String × List String)

unfoldable pub find_revision : List CardRevision → String → Option CardRevision
find_revision [] id = none
find_revision (row ∷ rows) id = if row.id == id then some row else find_revision rows id

-- None is the KeyError.
unfoldable pub load_card : CardStore → String → Option Card
load_card store revision_id = elim (find_revision store.card_revisions revision_id) [
  | none ↦ none
  | some row ↦ some row.content
]
