-- ===== src/Base/Float.antt =====
-- The floating-point steps of `int(delta.total_seconds() * 1000)`: a quotient and a product of
-- binary64 numbers, each rounded to 53 bits, ties to even, and the truncation to an integer.
use Prim.Native.Nat.{ℕ, zero, suc, ◌+◌, ◌-◌, ◌*◌, ◌/◌, ◌%◌, ◌^◌}
use mathlib.Core.Path.{◌≡◌, refl}
use echo_security_scanner.Base.Tests.{leb, ltb, ◌==◌, if◌then◌else◌}

-- Python's `int`: `negsuc n` is -(n + 1).
pub data ℤ : Type 0 where
  pos : ℕ → ℤ
  negsuc : ℕ → ℤ

round_half_even : ℕ → ℕ → ℕ
round_half_even n d =
    let q = n / d in
    let r = n % d in if ltb (2 * r) d then q else if ltb d (2 * r) then q + 1 else q + q % 2

-- The least `k` for which `n * 2 ^ k / d` has 53 bits. The fuel 80 is enough: `2 ^ 72` is above
-- `2 ^ 52 * d` for the only divisor used, a million.
binary_exponent : ℕ → ℕ → ℕ → ℕ → ℕ
binary_exponent zero n d k = k
binary_exponent (suc fuel) n d k =
    let rest = binary_exponent fuel n d (k + 1) in if leb (2 ^ 52 * d) (n * 2 ^ k) then k else rest

-- Whole milliseconds in `n` microseconds, as the program computes them; exact roundings for every
-- length that a `timedelta` can have.
milliseconds : ℕ → ℕ
unfolding round_half_even binary_exponent
milliseconds n =
    if n == 0
    then 0
    else (let k = binary_exponent 80 n 1000000 0 in
        let product = round_half_even (n * 2 ^ k) 1000000 * 1000 in
        let j = if ltb product (2 ^ 62) then 9 else 10 in
        round_half_even product (2 ^ j) * 2 ^ j / 2 ^ k)

negated : ℕ → ℤ
negated zero = pos 0
negated (suc n) = negsuc n

-- From `started` to `completed`, which may lie before it where the clock was set back.
unfoldable pub duration_between : ℕ → ℕ → ℤ
unfolding milliseconds negated
duration_between started completed =
    if leb started completed
    then pos (milliseconds (completed - started))
    else negated (milliseconds (started - completed))

-- 1.001 seconds are 1000 milliseconds, as 1.001 * 1000 is below 1001 in binary64.
truncated_down : duration_between 5 1001005 ≡ pos 1000
unfolding duration_between
truncated_down = refl

exact_second : duration_between 0 2000000 ≡ pos 2000
unfolding duration_between
exact_second = refl
