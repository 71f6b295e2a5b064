-- ===== src/Control/Retry.antt =====
-- newz/control/retry.py: which failure is tried again, and when. The policy's numbers are natural.
use native.Mathlib.Nat.{pow-le-pow_right, mul-le-mul_left}
use new_z.Prelude.{
  ℕ, zero, suc, ◌*◌, ◌^◌, ◌≤◌, ◌≡◌, arith, Bool, true, false, Option, none, some, List, [], ◌∷◌,
  if◌then◌else◌, leb, contains,
}
use new_z.Domain.Operations.{AttemptOutcome, FetchRefusal, fetch_refusal_eq}

abbrev pub retryable_refusals : List FetchRefusal
retryable_refusals = FetchRefusal.rate_limited ∷ FetchRefusal.timeout ∷ []

pub record RetryPolicy : Type 0 where
  pub max_attempts : ℕ
  pub base_delay_seconds : ℕ
  pub multiplier : ℕ
  pub max_delay_seconds : ℕ
  pub min_host_interval_seconds : ℕ

abbrev pub default_retry_policy : RetryPolicy
default_retry_policy = record {
  max_attempts = 3;
  base_delay_seconds = 60;
  multiplier = 4;
  max_delay_seconds = 3600;
  min_host_interval_seconds = 30;
}

abbrev in_retryable : Option FetchRefusal → Bool
in_retryable none = false
in_retryable (some refusal) = contains retryable_refusals refusal

unfoldable pub is_retryable : AttemptOutcome → Option FetchRefusal → Bool
is_retryable AttemptOutcome.error refusal = true
is_retryable AttemptOutcome.refused refusal = in_retryable refusal
is_retryable AttemptOutcome.retained refusal = false

-- None is the ValueError of an attempt before the first.
unfoldable pub delay_after : RetryPolicy → ℕ → Option ℕ
delay_after policy zero = none
delay_after policy (suc before) =
    let delay = policy.base_delay_seconds * policy.multiplier ^ before in
    some (if leb delay policy.max_delay_seconds then delay else policy.max_delay_seconds)

-- `exhausted`
abbrev pub exhausted : RetryPolicy → ℕ → Bool
exhausted policy attempts = leb policy.max_attempts attempts

-- Each later attempt waits at least as long as an earlier one, and none longer than the policy's
-- longest delay, if the multiplier is not zero.
delay_after_lem :
    (policy : RetryPolicy) (m n early late : ℕ)
    → 1 ≤ policy.multiplier
    → m ≤ n
    → delay_after policy m ≡ some early
    → delay_after policy n ≡ some late
    → (early ≤ late) × (late ≤ policy.max_delay_seconds)
unfolding delay_after
delay_after_lem policy zero n early late grows le h k = cc
delay_after_lem policy (suc m) zero early late grows le h k = omega arith
delay_after_lem policy (suc m) (suc n) early late grows le h k =
    let powers =
      pow-le-pow_right {n = policy.multiplier} (omega (arith, grows)) {i = m} {j = n}
        (omega (arith, le)) in
    let delays =
      mul-le-mul_left {m = policy.multiplier ^ m} {n = policy.multiplier ^ n}
        policy.base_delay_seconds powers in
    ground (arith, delays, h, k)
