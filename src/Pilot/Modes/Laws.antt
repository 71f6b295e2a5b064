-- ===== src/Pilot/Modes/Laws.antt =====
-- What the moves between the deployment modes keep.
use new_z.Prelude.{
  ◌≡◌, refl, sym, ap, ◌∙◌, Bool, true, false, not, ◌&&◌, ◌||◌, List, [], ◌∷◌, arith, String, ◌==◌,
  string_eq, is_filled, contains, exists, Bool-cases, inl, inr,
}
use mathlib.Core.Path.{subst}
use new_z.Pilot.Modes.{
  DeploymentMode, mode_eq, transitions, ModeTransition, ModeStore, Outcome, mode_of, current_mode,
  is_blank, is_system, write, written, guard, transition, enter_lockdown, presentation,
  authoritative, may_publish, assessments_are_authoritative,
}

abbrev pub is_moved : Outcome → Bool
is_moved (Outcome.moved s m) = true
is_moved (Outcome.refused r) = false

abbrev pub implies : Bool → Bool → Bool
implies a b = not a || b

-- What a move has to meet.
abbrev pub permits_move : ModeStore → String → DeploymentMode → String → String → Bool → Bool
permits_move store id to actor reason automatic =
    let now = current_mode store in
    contains (transitions now) to
    && (not (is_blank reason)
        && (implies (now == DeploymentMode.lockdown)
              (not automatic && (not (is_system actor) && not (is_filled store.open_violations)))
            && (implies automatic (to == DeploymentMode.lockdown)
                && (implies (to == DeploymentMode.pilot) (now == DeploymentMode.shadow)
                    && not (exists (λ row. row.id == id) store.mode_transitions)))))

-- A move is made exactly if it is one of the mode's, has a reason, does not leave lockdown without
-- a named operator or with a violation open, is lockdown if it is automatic, comes from shadow if
-- it goes to the pilot, and has a fresh id.
transition_iff :
    (store : ModeStore) (id : String) (to : DeploymentMode) (actor reason : String)
    (automatic : Bool)
    → is_moved (transition store id to actor reason automatic)
      ≡ permits_move store id to actor reason automatic
unfolding transition guard write
transition_iff store id to actor reason automatic = ground arith

-- The history: each row starts where the one before it ended, its move is listed, the pilot is
-- entered from shadow, and lockdown is left by no automatic move.
abbrev pub IsHistory : List ModeTransition → Type 0
IsHistory [] = Unit
IsHistory (row ∷ rows) =
    (row.from_mode ≡ mode_of rows)
    × (contains (transitions row.from_mode) row.to_mode ≡ true)
    × (implies (row.to_mode == DeploymentMode.pilot) (row.from_mode == DeploymentMode.shadow)
        ≡ true)
    × (implies (row.from_mode == DeploymentMode.lockdown)
          (not row.automatic && not (is_system row.actor))
        ≡ true)
    × IsHistory rows

transition-written :
    (store : ModeStore) (id : String) (to : DeploymentMode) (actor reason : String)
    (automatic : Bool)
    → permits_move store id to actor reason automatic ≡ true
    → transition store id to actor reason automatic
      ≡ Outcome.moved (written store id to actor reason automatic) to
unfolding transition guard write
transition-written store id to actor reason automatic h = ground arith

moved_inj :
    {s t : ModeStore} {m n : DeploymentMode}
    → Outcome.moved s m ≡ Outcome.moved t n
    → (s ≡ t) × (m ≡ n)
moved_inj {s} {t} {m} {n} h = (
  ap (λ o. elim o [ Outcome.moved x _ ↦ x | Outcome.refused _ ↦ s ]) h,
  ap (λ o. elim o [ Outcome.moved _ x ↦ x | Outcome.refused _ ↦ m ]) h,
)

written-IsHistory :
    (store : ModeStore) (id : String) (to : DeploymentMode) (actor reason : String)
    (automatic : Bool)
    → IsHistory store.mode_transitions
    → permits_move store id to actor reason automatic ≡ true
    → IsHistory (written store id to actor reason automatic).mode_transitions
unfolding current_mode
written-IsHistory store id to actor reason automatic h p =
    (refl, ground arith, ground arith, ground arith, h)

-- A move keeps the history well-formed (each row starts where the one before it ended, is listed,
-- enters the pilot from shadow only, and leaves lockdown by a named operator only), and leaves the
-- store in the mode that was asked for.
pub transition-IsHistory :
    (store store' : ModeStore) (id : String) (to mode : DeploymentMode) (actor reason : String)
    (automatic : Bool)
    → IsHistory store.mode_transitions
    → transition store id to actor reason automatic ≡ Outcome.moved store' mode
    → IsHistory store'.mode_transitions × (current_mode store' ≡ to) × (mode ≡ to)
unfolding current_mode
transition-IsHistory store store' id to mode actor reason automatic h e =
    let p = sym (transition_iff store id to actor reason automatic) ∙ ap is_moved e in
    let (same, to_mode) =
      moved_inj (sym (transition-written store id to actor reason automatic p) ∙ e) in
    (
      subst (λ (s : ModeStore). IsHistory s.mode_transitions) same
          (written-IsHistory store id to actor reason automatic h p),
      ap (λ (s : ModeStore). mode_of s.mode_transitions) (sym same),
      sym to_mode,
    )

-- The automatic halt: from every mode, with a reason and a fresh id, the store is in lockdown
-- afterwards.
enter_lockdown_lem :
    (store : ModeStore) (id reason : String)
    → is_blank reason ≡ false
    → exists (λ row. row.id == id) store.mode_transitions ≡ false
    → (store' : ModeStore) × (enter_lockdown store id reason
        ≡ Outcome.moved store' DeploymentMode.lockdown)
      × (current_mode store' ≡ DeploymentMode.lockdown)
unfolding enter_lockdown current_mode
enter_lockdown_lem store id reason h k =
    elim (Bool-cases (mode_of store.mode_transitions == DeploymentMode.lockdown)) [
      | inl locked ↦
          let here =
            (mode_eq.beq_iff (mode_of store.mode_transitions) DeploymentMode.lockdown).0 locked in
          (store, rw locked (ap (λ m. Outcome.moved store m) here), here)
      | inr free ↦ (
        written store id DeploymentMode.lockdown "system" reason true,
        rw free (
            transition-written store id DeploymentMode.lockdown "system" reason true
              (ground arith)),
        refl,
      )
    ]

-- Once in lockdown, no automatic move and no move of the system is made, whatever its reason.
transition-lockdown :
    (store : ModeStore) (id : String) (to : DeploymentMode) (actor reason : String)
    (automatic : Bool)
    → current_mode store ≡ DeploymentMode.lockdown
    → (automatic || is_system actor) ≡ true
    → is_moved (transition store id to actor reason automatic) ≡ false
transition-lockdown store id to actor reason automatic locked h =
    transition_iff store id to actor reason automatic ∙ ground arith

-- Production never moves to the pilot, though the move is listed: the pilot is entered from shadow.
transition-production_pilot :
    (store : ModeStore) (id actor reason : String) (automatic : Bool)
    → current_mode store ≡ DeploymentMode.production
    → (contains (transitions (current_mode store)) DeploymentMode.pilot ≡ true)
      × (is_moved (transition store id DeploymentMode.pilot actor reason automatic) ≡ false)
transition-production_pilot store id actor reason automatic producing = (
  ground arith,
  transition_iff store id DeploymentMode.pilot actor reason automatic ∙ ground arith,
)

authoritative_lem :
    (m : DeploymentMode)
    → not (contains ("withheld" ∷ "historical inspection only" ∷ []) (presentation m))
      ≡ authoritative m
unfolding presentation authoritative
authoritative_lem DeploymentMode.fixture = refl
authoritative_lem DeploymentMode.shadow = refl
authoritative_lem DeploymentMode.pilot = refl
authoritative_lem DeploymentMode.production = refl
authoritative_lem DeploymentMode.lockdown = refl

-- A store may publish exactly if its assessments are authoritative.
may_publish_lem : (store : ModeStore) → may_publish store ≡ assessments_are_authoritative store
unfolding may_publish assessments_are_authoritative
may_publish_lem store = authoritative_lem (current_mode store)
