-- ===== src/Worker/Backoff/Bounds.antt =====
-- Closed forms and bounds of the delays of internal/worker/submission_backoff.go.
use native.Mathlib.Nat.{pow-le-pow_right, one-le-pow, mul-le-mul_left}
use ai_go.Common.{ℕ, suc, ◌*◌, ◌^◌, ◌≤◌, ◌<◌, ◌≡◌, min, inl, inr, ◌⊎◌, ap, arith}
use ai_go.Common.Int.{ℤ, pos, ◌-ℤ◌, ◌≤ℤ◌, wrap32, wrap64}
use ai_go.Worker.Backoff.{
  Cause, client_error, other_error, retry_exponent, exponential_backoff, retry_after_delay,
  submission_backoff, material_upload_backoff, submission_retry_base, submission_retry_cap,
  material_upload_retry_base, material_upload_retry_cap, shift_left,
}

retry_exponent-suc : (n : ℕ) → n < 2147483648 → retry_exponent (pos (suc n)) ≡ min n 16
unfolding retry_exponent wrap32 ◌-ℤ◌
retry_exponent-suc n h = ground arith

retry_exponent-le : (a : ℤ) → retry_exponent a ≤ 16
unfolding retry_exponent
retry_exponent-le a = ground arith

-- With an exponent up to 16 the shift does not leave 64 bits.
shift_left-exact :
    (base e : ℕ) → base ≤ 15000000000 → e ≤ 16 → shift_left base e ≡ pos (base * 2 ^ e)
unfolding wrap64
shift_left-exact base e hb he =
    let p : 2 ^ e ≤ 65536 = pow-le-pow_right {n = 2} (omega arith) he in
    let q : base * 2 ^ e ≤ 15000000000 * 65536 = grind arith in ground arith

le_or_lt : (a b : ℕ) → (a ≤ b) ⊎ (b < a)
le_or_lt a b = omega arith

min-eq_left : {a b : ℕ} → a ≤ b → min a b ≡ a
min-eq_left h = omega arith

min-eq_right : {a b : ℕ} → b ≤ a → min a b ≡ b
min-eq_right h = omega arith

one_le_pow : (n : ℕ) → 1 ≤ 2 ^ n
one_le_pow n = one-le-pow n 2 (omega arith)

pow-min :
    (n base limit : ℕ)
    → limit ≤ base * 65536
    → min limit (base * 2 ^ min n 16) ≡ min limit (base * 2 ^ n)
pow-min n base limit h = elim (le_or_lt n 16) [
  | inl small ↦ rw (min-eq_left small)
  | inr large ↦
      let p : 2 ^ 16 ≤ 2 ^ n = pow-le-pow_right {n = 2} (omega arith) {i = 16} (omega arith) in
      let q : base * 65536 ≤ base * 2 ^ n = mul-le-mul_left base p in
      rw (min-eq_right {a = n} {b = 16} (omega arith)) (omega (arith, q))
]

exponential_backoff-min :
    (a : ℤ)
    → exponential_backoff a
      ≡ pos (min submission_retry_cap (submission_retry_base * 2 ^ retry_exponent a))
unfolding exponential_backoff
exponential_backoff-min a =
    rw
      (shift_left-exact submission_retry_base (retry_exponent a) (omega arith)
        (retry_exponent-le a))
      (ground (arith, one_le_pow (retry_exponent a)))

material_upload_backoff-min :
    (a : ℤ)
    → material_upload_backoff a
      ≡ pos (min material_upload_retry_cap (material_upload_retry_base * 2 ^ retry_exponent a))
unfolding material_upload_backoff
material_upload_backoff-min a =
    rw
      (shift_left-exact material_upload_retry_base (retry_exponent a) (omega arith)
        (retry_exponent-le a))
      (ground (arith, one_le_pow (retry_exponent a)))

-- For every attempt from 1 to the largest `int32`, the delay before the next submission is
-- 10 s × 2 ^ (attempt - 1), or 5 minutes where that is more.
pub exponential_backoff-exact :
    (n : ℕ)
    → n < 2147483648
    → exponential_backoff (pos (suc n)) ≡ pos (min 300_000_000_000 (10_000_000_000 * 2 ^ n))
exponential_backoff-exact n h =
    rw (exponential_backoff-min (pos (suc n)), retry_exponent-suc n h)
      (ap pos (pow-min n submission_retry_base submission_retry_cap (omega arith)))

-- For every attempt from 1 to the largest `int32`, the delay before the next media upload is
-- 15 s × 2 ^ (attempt - 1), or 5 minutes where that is more.
pub material_upload_backoff-exact :
    (n : ℕ)
    → n < 2147483648
    → material_upload_backoff (pos (suc n)) ≡ pos (min 300_000_000_000 (15_000_000_000 * 2 ^ n))
material_upload_backoff-exact n h =
    rw (material_upload_backoff-min (pos (suc n)), retry_exponent-suc n h)
      (ap pos (pow-min n material_upload_retry_base material_upload_retry_cap (omega arith)))

-- Whatever the attempt count and the cause, and also for counts below 1, a submission waits at
-- least one second and at most five minutes; and where the platform named a wait of its own, of
-- at most five minutes, the submission waits at least that long.
pub submission_backoff_bounds :
    (attempt : ℤ) (cause : Cause)
    → (pos 1_000_000_000 ≤ℤ submission_backoff attempt cause)
      × (submission_backoff attempt cause ≤ℤ pos 300_000_000_000)
      × ((r : ℤ)
          → cause ≡ client_error r
          → r ≤ℤ pos 300_000_000_000
          → r ≤ℤ submission_backoff attempt cause)
unfolding submission_backoff retry_after_delay
submission_backoff_bounds a (client_error x) = (
  ground (arith, exponential_backoff-min a, one_le_pow (retry_exponent a)),
  ground (arith, exponential_backoff-min a, one_le_pow (retry_exponent a)),
  λ r e h. ground (arith, exponential_backoff-min a, one_le_pow (retry_exponent a)),
)
submission_backoff_bounds a other_error = (
  ground (arith, exponential_backoff-min a, one_le_pow (retry_exponent a)),
  ground (arith, exponential_backoff-min a, one_le_pow (retry_exponent a)),
  λ r e h. cc,
)
