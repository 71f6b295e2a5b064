-- ===== src/Pilot/Modes.antt =====
-- newz/pilot/modes.py: the deployment modes and the moves between them. The store is its table of
-- mode transitions, the newest first, the ids of the violations that are open, and the audit trail.
-- The times and the hash in an audit id are left out.
pub mod Laws
use Prim.Native.String.{String}
use Prim.Native.Char.{code}
use text.Mathlib.Text.{starts_with}
use new_z.Prelude.{
  ℕ, ◌≡◌, ◌↔◌, Bool, true, false, not, ◌&&◌, ◌||◌, Option, none, some, List, [], ◌∷◌, arith, ◌==◌,
  Eq, nat_beq, nat_eq, leb, string_eq, if◌then◌else◌, is_text, is_filled, contains, exists,
}
use new_z.Domain.Version.{code_version}

pub data DeploymentMode : Type 0 where
  fixture shadow pilot production lockdown : DeploymentMode

abbrev pub mode_index : DeploymentMode → ℕ
mode_index DeploymentMode.fixture = 0
mode_index DeploymentMode.shadow = 1
mode_index DeploymentMode.pilot = 2
mode_index DeploymentMode.production = 3
mode_index DeploymentMode.lockdown = 4

pub mode_beq_iff : (a b : DeploymentMode) → (nat_beq (mode_index a) (mode_index b) ≡ true) ↔ (a ≡ b)
mode_beq_iff a b = ground arith

instance abbrev pub mode_eq : Eq DeploymentMode
mode_eq = record { beq = λ a b. nat_beq (mode_index a) (mode_index b); beq_iff = mode_beq_iff }

-- The presentation of `MODE_BEHAVIOUR`.
unfoldable pub presentation : DeploymentMode → String
presentation DeploymentMode.fixture = "local test output"
presentation DeploymentMode.shadow = "withheld"
presentation DeploymentMode.pilot = "local only"
presentation DeploymentMode.production = "cleared R0-R2; R3 exact-review only"
presentation DeploymentMode.lockdown = "historical inspection only"

unfoldable pub authoritative : DeploymentMode → Bool
authoritative DeploymentMode.fixture = true
authoritative DeploymentMode.shadow = false
authoritative DeploymentMode.pilot = true
authoritative DeploymentMode.production = true
authoritative DeploymentMode.lockdown = false

abbrev pub transitions : DeploymentMode → List DeploymentMode
transitions DeploymentMode.fixture = DeploymentMode.shadow ∷ DeploymentMode.lockdown ∷ []
transitions DeploymentMode.shadow =
    DeploymentMode.pilot ∷ DeploymentMode.fixture ∷ DeploymentMode.lockdown ∷ []
transitions DeploymentMode.pilot =
    DeploymentMode.production ∷ DeploymentMode.shadow ∷ DeploymentMode.lockdown ∷ []
transitions DeploymentMode.production = DeploymentMode.pilot ∷ DeploymentMode.lockdown ∷ []
transitions DeploymentMode.lockdown = DeploymentMode.fixture ∷ DeploymentMode.shadow ∷ []

pub record ModeTransition : Type 0 where
  pub id : String
  pub from_mode : DeploymentMode
  pub to_mode : DeploymentMode
  pub actor : String
  pub reason : String
  pub automatic : Bool
  pub code_version : String

pub record AuditEvent : Type 0 where
  pub actor : String
  pub action : String
  pub target : DeploymentMode
  pub reason : String
  pub preimage : DeploymentMode
  pub result : DeploymentMode
  pub channel : String

pub record ModeStore : Type 0 where
  pub mode_transitions : List ModeTransition
  pub open_violations : List String
  pub audit_events : List AuditEvent

-- The refusals of TransitionRefused, and last the IntegrityError of a primary key that is taken.
pub data TransitionRefused : Type 0 where
  not_a_transition no_reason own_halt unresolved_violations only_lockdown : TransitionRefused
  through_shadow duplicate_id : TransitionRefused

-- `transition` returns with the store that it leaves, or raises.
pub data Outcome : Type 0 where
  moved : ModeStore → DeploymentMode → Outcome
  refused : TransitionRefused → Outcome

abbrev pub mode_of : List ModeTransition → DeploymentMode
mode_of [] = DeploymentMode.fixture
mode_of (row ∷ rows) = row.to_mode

unfoldable pub current_mode : ModeStore → DeploymentMode
current_mode store = mode_of store.mode_transitions

-- The characters that `str.strip` drops.
unfoldable pub is_space : ℕ → Bool
is_space n =
    leb 9 n && leb n 13
    || leb 28 n && leb n 32
    || contains (133 ∷ 160 ∷ 5760 ∷ 8232 ∷ 8233 ∷ 8239 ∷ 8287 ∷ 12288 ∷ []) n
    || leb 8192 n && leb n 8202

-- `not s.strip()`
unfoldable pub is_blank : String → Bool
is_blank String.[] = true
is_blank (String.◌∷◌ c s) = is_space (code c) && is_blank s

-- `not actor or actor.startswith("system")`
unfoldable pub is_system : String → Bool
is_system actor = not (is_text actor) || starts_with actor "system"

-- The store with the rows that a transition writes.
abbrev pub written : ModeStore → String → DeploymentMode → String → String → Bool → ModeStore
written store transition_id to actor reason automatic = record {
  mode_transitions =
      record {
        id = transition_id;
        from_mode = current_mode store;
        to_mode = to;
        actor = actor;
        reason = reason;
        automatic = automatic;
        code_version = code_version;
      }
      ∷ store.mode_transitions;
  open_violations = store.open_violations;
  audit_events =
      record {
        actor = actor;
        action = "mode_transition";
        target = to;
        reason = reason;
        preimage = current_mode store;
        result = to;
        channel = if automatic then "system" else "command";
      }
      ∷ store.audit_events;
}

-- An id that the table has breaks its primary key.
unfoldable pub write : ModeStore → String → DeploymentMode → String → String → Bool → Outcome
write store transition_id to actor reason automatic =
    if exists (λ row. row.id == transition_id) store.mode_transitions
    then Outcome.refused TransitionRefused.duplicate_id
    else Outcome.moved (written store transition_id to actor reason automatic) to

-- The guards in their order: `none` is none of them.
unfoldable pub guard :
    DeploymentMode → Bool → DeploymentMode → String → String → Bool → Option TransitionRefused
guard now violated to actor reason automatic =
    if not (contains (transitions now) to)
    then some TransitionRefused.not_a_transition
    else if is_blank reason
    then some TransitionRefused.no_reason
    else if now == DeploymentMode.lockdown && (automatic || is_system actor)
    then some TransitionRefused.own_halt
    else if now == DeploymentMode.lockdown && violated
    then some TransitionRefused.unresolved_violations
    else if automatic && not (to == DeploymentMode.lockdown)
    then some TransitionRefused.only_lockdown
    else if to == DeploymentMode.pilot && not (now == DeploymentMode.shadow)
    then some TransitionRefused.through_shadow
    else none

unfoldable pub transition :
    ModeStore → String → DeploymentMode → (actor reason : String) → Bool → Outcome
transition store transition_id to actor reason automatic =
    elim (guard (current_mode store) (is_filled store.open_violations) to actor reason automatic) [
      | some why ↦ Outcome.refused why
      | none ↦ write store transition_id to actor reason automatic
    ]

unfoldable pub enter_lockdown : ModeStore → String → String → Outcome
enter_lockdown store transition_id reason =
    if current_mode store == DeploymentMode.lockdown
    then Outcome.moved store (current_mode store)
    else transition store transition_id DeploymentMode.lockdown "system" reason true

unfoldable pub may_publish : ModeStore → Bool
may_publish store =
    not (
      contains ("withheld" ∷ "historical inspection only" ∷ []) (presentation (current_mode store)))

unfoldable pub assessments_are_authoritative : ModeStore → Bool
assessments_are_authoritative store = authoritative (current_mode store)
