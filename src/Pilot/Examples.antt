-- ===== src/Pilot/Examples.antt =====
-- newz/pilot/modes.py, runs from shadow to the pilot, into lockdown and back.
use new_z.Prelude.{◌≡◌, refl, false, List, [], ◌∷◌, String, string_eq}
use new_z.Pilot.Modes.{
  DeploymentMode, mode_eq, ModeTransition, ModeStore, current_mode, is_space, is_blank, is_system,
  written, write, guard, transition,
}
use new_z.Pilot.Modes.Laws.{IsHistory, transition-IsHistory}

abbrev moved_row : String → DeploymentMode → DeploymentMode → ModeTransition
moved_row id from_mode to_mode = record {
  id = id;
  from_mode = from_mode;
  to_mode = to_mode;
  actor = "ada";
  reason = "drill";
  automatic = false;
  code_version = "0.1.0";
}

abbrev store_with : List ModeTransition → ModeStore
store_with rows = record { mode_transitions = rows; open_violations = []; audit_events = [] }

abbrev in_shadow : ModeStore
in_shadow = store_with (moved_row "t-1" DeploymentMode.fixture DeploymentMode.shadow ∷ [])

abbrev in_pilot : ModeStore
unfolding current_mode
in_pilot = written in_shadow "t-2" DeploymentMode.pilot "ada" "compared" false

transition-IsHistory_example :
    IsHistory in_pilot.mode_transitions
    × (current_mode in_pilot ≡ DeploymentMode.pilot)
    × (DeploymentMode.pilot ≡ DeploymentMode.pilot)
unfolding transition guard write is_blank is_space is_system current_mode in_pilot
transition-IsHistory_example =
    transition-IsHistory in_shadow in_pilot "t-2" DeploymentMode.pilot DeploymentMode.pilot "ada"
      "compared" false (refl, refl, refl, refl, tt) refl
