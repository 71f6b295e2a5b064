-- ===== src/Domain/Int.antt =====
-- Python's `int` where a value may be negative.
use new_z.Prelude.{ℕ, ◌+◌, ◌-◌, ◌≡◌, Bool, true, false, arith, ltb, leb, if◌then◌else◌}

-- `negsuc n` is -(n + 1).
pub data ℤ : Type 0 where
  pos : ℕ → ℤ
  negsuc : ℕ → ℤ

abbrev pub is_negative : ℤ → Bool
is_negative (ℤ.pos n) = false
is_negative (ℤ.negsuc n) = true

-- The value, for an integer that is not negative.
abbrev pub pos_part : ℤ → ℕ
pos_part (ℤ.pos n) = n
pos_part (ℤ.negsuc n) = 0

-- `z - n`, of a count `n`.
unfoldable pub minus : ℤ → ℕ → ℤ
minus (ℤ.pos m) n = if leb n m then ℤ.pos (m - n) else ℤ.negsuc (n - m - 1)
minus (ℤ.negsuc m) n = ℤ.negsuc (m + n)

-- `z > 0`
abbrev pub is_positive : ℤ → Bool
is_positive z = ltb 0 (pos_part z)

pub pos_part-minus : (z : ℤ) (n : ℕ) → pos_part (minus z n) ≡ pos_part z - n
unfolding minus
pos_part-minus (ℤ.pos m) n = ground arith
pos_part-minus (ℤ.negsuc m) n = omega arith

-- `y < z`
abbrev pub lt_ℤ : ℤ → ℤ → Bool
lt_ℤ (ℤ.pos m) (ℤ.pos n) = ltb m n
lt_ℤ (ℤ.pos m) (ℤ.negsuc n) = false
lt_ℤ (ℤ.negsuc m) (ℤ.pos n) = true
lt_ℤ (ℤ.negsuc m) (ℤ.negsuc n) = ltb n m
