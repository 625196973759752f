-- ===== src/Prelude/Text.antt =====
-- Rust's `str::trim().is_empty()`: every character is Unicode white space.
use Prim.Native.Char.{code}
use Prim.Native.Nat.{ℕ, zero, suc, ◌/◌, ◌%◌}
use Prim.Native.String.{String, ◌++◌}
use mathlib.Core.Bool.{Bool, true, ◌&&◌, ◌||◌}
use media_app.Prelude.Tests.{leb, ◌==◌, if◌then◌else◌}

-- The code points with the property White_Space.
abbrev is_white_space : ℕ → Bool
is_white_space c =
    (leb 0x9 c && leb c 0xd)
    || (c == 0x20)
    || (c == 0x85)
    || (c == 0xa0)
    || (c == 0x1680)
    || (leb 0x2000 c && leb c 0x200a)
    || (c == 0x2028)
    || (c == 0x2029)
    || (c == 0x202f)
    || (c == 0x205f)
    || (c == 0x3000)

unfoldable pub is_blank : String → Bool
is_blank String.[] = true
is_blank (String.◌∷◌ c s) = is_white_space (code c) && is_blank s

-- The decimal digit of a number below 10, as a text.
abbrev digit : ℕ → String
digit d =
    if d == 0
    then "0"
    else (if d == 1
        then "1"
        else (if d == 2
            then "2"
            else (if d == 3
                then "3"
                else (if d == 4
                    then "4"
                    else (if d == 5
                        then "5"
                        else (if d == 6
                            then "6"
                            else (if d == 7 then "7" else (if d == 8 then "8" else "9"))))))))

-- The decimal form of a `u64`, in front of a text; 20 digits are enough.
unfoldable pub decimal_onto : ℕ → ℕ → String → String
decimal_onto zero n text = text
decimal_onto (suc fuel) n text =
    let more = decimal_onto fuel (n / 10) (digit (n % 10) ++ text) in
    if n / 10 == 0 then digit (n % 10) ++ text else more

-- `format!("{n}")`.
unfoldable pub decimal : ℕ → String
unfolding decimal_onto
decimal n = decimal_onto 20 n ""
