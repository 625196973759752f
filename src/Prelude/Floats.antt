-- ===== src/Prelude/Floats.antt =====
-- What the engine computes with an `f32` speed, on bit patterns: IEEE 754, rounding to nearest with
-- ties to even.
use Prim.Native.Nat.{ℕ, zero, suc, ◌+◌, ◌-◌, ◌*◌, ◌/◌, ◌%◌, ◌^◌, min}
use mathlib.Core.Bool.{Bool, not, ◌&&◌, ◌||◌}
use media_app.Prelude.Tests.{ltb, leb, ◌==◌, if◌then◌else◌}
use media_app.Prelude.Words.{u64_max}

-- The number of binary digits, for numbers of at most `fuel` digits.
unfoldable pub bit_length : ℕ → ℕ → ℕ
bit_length zero n = 0
bit_length (suc fuel) n = let rest = bit_length fuel (n / 2) in if n == 0 then 0 else suc rest

-- The quotient by `2 ^ k`, rounded to nearest, ties to even, for `0 < k`.
unfoldable pub round_shift : ℕ → ℕ → ℕ
round_shift n k =
    let q = n / 2 ^ k in
    let r = n % 2 ^ k in
    let half = 2 ^ (k - 1) in if ltb half r || (r == half && q % 2 == 1) then q + 1 else q

-- A natural number as an `f64`, which has 53 significant binary digits. No number here has more
-- than 64 + 278 digits, so the largest exponent of an `f64` is not met.
unfoldable pub to_f64 : ℕ → ℕ
unfolding bit_length round_shift
to_f64 n = let k = bit_length 512 n - 53 in if k == 0 then n else round_shift n k * 2 ^ k

-- `speed.is_finite()`.
abbrev pub is_finite : ℕ → Bool
is_finite speed = not (speed / 8388608 % 256 == 255)

abbrev is_negative : ℕ → Bool
is_negative speed = leb 2147483648 speed

-- The value of a finite `f32` that is not negative, times `2 ^ 149`.
unfoldable pub scaled : ℕ → ℕ
scaled speed =
    let exponent = speed / 8388608 % 256 in
    let mantissa = speed % 8388608 in
    if exponent == 0 then mantissa else (mantissa + 8388608) * 2 ^ (exponent - 1)

-- `(elapsed_millis as f64 * f64::from(speed)) as u64`, with `speed` taken as 0 where it is negative
-- or not finite.
unfoldable pub elapsed_at_speed : ℕ → ℕ → ℕ
unfolding to_f64 scaled
elapsed_at_speed elapsed_millis speed =
    if not (is_finite speed) || is_negative speed
    then 0
    else min (to_f64 (to_f64 elapsed_millis * scaled speed) / 2 ^ 149) u64_max

-- A natural number as an `f32`, which has 24 significant binary digits, by its value.
unfoldable pub to_f32 : ℕ → ℕ
unfolding bit_length round_shift
to_f32 n = let k = bit_length 64 n - 24 in if k == 0 then n else round_shift n k * 2 ^ k

-- The bits of `x / 2 ^ s` for `s` below 150 and a number `x` of 24 digits with a remainder of `r`
-- out of `b`, rounded to nearest with ties to even; a carry goes to the exponent.
unfoldable pub pack_f32 : ℕ → ℕ → ℕ → ℕ → ℕ
pack_f32 s x r b =
    let up = if ltb b (2 * r) || (2 * r == b && x % 2 == 1) then 1 else 0 in
    (150 - s) * 8388608 + (x - 8388608) + up

-- `a as f32 / b as f32`, for `a` at most `b` and `b` not zero.
unfoldable pub ratio_f32 : ℕ → ℕ → ℕ
unfolding to_f32 pack_f32 bit_length
ratio_f32 a b =
    let x = to_f32 a in
    let y = to_f32 b in
    let s = 24 + bit_length 65 y - bit_length 65 x in
    let t = if ltb (x * 2 ^ s / y) 16777216 then s else s - 1 in
    if x == 0 then 0 else pack_f32 t (x * 2 ^ t / y) (x * 2 ^ t % y) y
