-- ===== src/Control/Budget.antt =====
-- newz/control/budget.py: the slots of a local day, by lane, and the one borrow that is permitted.
pub mod Laws
use new_z.Prelude.{
  ℕ, ◌*◌, ◌^◌, Bool, true, false, not, ◌&&◌, ◌||◌, Option, none, some, List, [], ◌∷◌, ◌++◌, String,
  ◌==◌, ltb, if◌then◌else◌,
}
use new_z.Domain.Int.{ℤ, is_negative, pos_part, minus, is_positive, lt_ℤ}
use new_z.Domain.Operations.{ReadLane, read_lane_eq}

pub record DailyBudget : Type 0 where
  pub discovery : ℤ
  pub verification : ℤ
  pub correction : ℤ

abbrev pub default_budget : DailyBudget
default_budget = record { discovery = ℤ.pos 3; verification = ℤ.pos 5; correction = ℤ.pos 2 }

-- `DailyBudget.of`
unfoldable pub capacity_of : DailyBudget → ReadLane → ℤ
capacity_of budget ReadLane.discovery = budget.discovery
capacity_of budget ReadLane.verification = budget.verification
capacity_of budget ReadLane.correction = budget.correction

abbrev negative : ℤ → String → List String
negative z text = if is_negative z then text ∷ [] else []

unfoldable pub problems : DailyBudget → List String
problems budget =
    negative budget.discovery "discovery capacity cannot be negative"
    ++ (negative budget.verification "verification capacity cannot be negative"
        ++ (negative budget.correction "correction capacity cannot be negative"
            ++ (if lt_ℤ budget.verification budget.discovery
                then "verification capacity below discovery inverts the rule that closing claims outpaces opening them"
                  ∷ []
                else [])))

abbrev pub monthly_request_ceiling : ℕ
monthly_request_ceiling = 1500

abbrev pub monthly_storage_ceiling_bytes : ℕ
monthly_storage_ceiling_bytes = 21474836480

pub record LaneAvailability : Type 0 where
  pub lane : ReadLane
  pub own_remaining : ℕ
  pub borrowable : ℕ
  pub borrowed_from : Option ReadLane

-- `LaneAvailability.available`
abbrev pub is_available : LaneAvailability → Bool
is_available a = ltb 0 a.own_remaining || ltb 0 a.borrowable

-- `used` gives zero for a lane that the source's dict lacks. `max(own, 0)` and a spare that is
-- above zero are natural numbers.
unfoldable pub availability : ReadLane → (ReadLane → ℕ) → DailyBudget → LaneAvailability
availability lane used budget =
    let own = minus (capacity_of budget lane) (used lane) in
    let spare = minus budget.correction (used ReadLane.correction) in
    if lane == ReadLane.verification && not (is_positive own) && is_positive spare
    then record {
      lane = lane;
      own_remaining = pos_part own;
      borrowable = pos_part spare;
      borrowed_from = some ReadLane.correction;
    }
    else record { lane = lane; own_remaining = pos_part own; borrowable = 0; borrowed_from = none }
