-- ===== src/Control/Budget/Laws.antt =====
-- Which lane may take a slot, and from where.
use new_z.Prelude.{
  ℕ, ◌<◌, ◌≤◌, ◌≡◌, true, ◌&&◌, ◌||◌, Option, none, some, arith, ltb, if◌then◌else◌, ◌==◌,
}
use new_z.Domain.Int.{pos_part, pos_part-minus}
use new_z.Domain.Operations.{ReadLane, read_lane_eq}
use new_z.Control.Budget.{DailyBudget, capacity_of, LaneAvailability, is_available, availability}

-- The slots that a lane has: its capacity, or none if that is negative.
abbrev pub slots : DailyBudget → ReadLane → ℕ
slots budget lane = pos_part (capacity_of budget lane)

-- A slot that is taken is charged to the lane that it is borrowed from, or to the lane itself.
abbrev pub charged : ReadLane → Option ReadLane → ReadLane
charged lane none = lane
charged lane (some b) = b

-- `None if lane_state.own_remaining > 0 else lane_state.borrowed_from`
abbrev pub lender : LaneAvailability → Option ReadLane
lender a = if ltb 0 a.own_remaining then none else a.borrowed_from

-- A loan is made to verification only, by correction only, once verification has no slot left.
abbrev pub IsLoan : DailyBudget → (ReadLane → ℕ) → ReadLane → Option ReadLane → Type 0
IsLoan budget used lane none = Unit
IsLoan budget used lane (some b) =
    (lane ≡ ReadLane.verification) × (b ≡ ReadLane.correction) × (slots budget lane ≤ used lane)

-- A lane may take a slot exactly if it has one left, or is verification and correction has one left.
is_available-availability :
    (lane : ReadLane) (used : ReadLane → ℕ) (budget : DailyBudget)
    → is_available (availability lane used budget) ≡ (
        ltb (used lane) (slots budget lane)
        || lane == ReadLane.verification
          && ltb (used ReadLane.correction) (slots budget ReadLane.correction))
unfolding availability capacity_of
is_available-availability ReadLane.discovery used budget =
    ground (arith, pos_part-minus budget.discovery (used ReadLane.discovery))
is_available-availability ReadLane.verification used budget = ground (
  arith,
  pos_part-minus budget.verification (used ReadLane.verification),
  pos_part-minus budget.correction (used ReadLane.correction),
)
is_available-availability ReadLane.correction used budget =
    ground (arith, pos_part-minus budget.correction (used ReadLane.correction))

-- The lane that is charged has a slot left, and a loan is verification's from correction.
pub lender-availability :
    (lane : ReadLane) (used : ReadLane → ℕ) (budget : DailyBudget)
    → is_available (availability lane used budget) ≡ true
    → let from = lender (availability lane used budget) in
      (used (charged lane from) < slots budget (charged lane from)) × IsLoan budget used lane from
unfolding availability capacity_of
lender-availability ReadLane.discovery used budget h =
    ground (arith, pos_part-minus budget.discovery (used ReadLane.discovery))
lender-availability ReadLane.verification used budget h = ground (
  arith,
  pos_part-minus budget.verification (used ReadLane.verification),
  pos_part-minus budget.correction (used ReadLane.correction),
)
lender-availability ReadLane.correction used budget h =
    ground (arith, pos_part-minus budget.correction (used ReadLane.correction))
