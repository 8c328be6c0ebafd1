-- ===== src/Base/Words.antt =====
-- 64-bit unsigned arithmetic as Rust names it, and the decimal parser of `str::parse::<u64>`.
use Prim.Native.Nat.{ℕ, zero, suc, ◌+◌, ◌-◌, ◌*◌, ◌/◌, ◌%◌, ◌≤◌, min}
use mathlib.Core.Path.{◌≡◌}
use mathlib.Core.Bool.{◌&&◌}
use mathlib.Core.List.{[], ◌∷◌}
use mathlib.Core.Option.{Option, none, some}
use native.Mathlib.Omega.{arith}
use git_slop.Base.Tests.{ltb, ◌==◌, if◌then◌else◌}
use git_slop.Base.Ints.{ℤ, pos, negate}
use git_slop.Base.Strings.{Text, is_digit}

abbrev pub u64_max : ℕ
u64_max = 18446744073709551615

unfoldable pub checked_add : ℕ → ℕ → Option ℕ
checked_add a b = if ltb u64_max (a + b) then none else some (a + b)

unfoldable pub saturating_add : ℕ → ℕ → ℕ
saturating_add a b = min (a + b) u64_max

unfoldable pub saturating_mul : ℕ → ℕ → ℕ
saturating_mul a b = min (a * b) u64_max

-- Truncated subtraction is `saturating_sub`.
abbrev pub saturating_sub : ℕ → ℕ → ℕ
saturating_sub a b = a - b

-- A sum that is returned is the true one, and fits the word.
pub checked_add_lem : (a b : ℕ) {c : ℕ} → checked_add a b ≡ some c → (c ≡ a + b) × (c ≤ u64_max)
unfolding checked_add
checked_add_lem a b h = ground arith

-- The loop of `from_str_radix`: every character is a digit, and nothing overflows.
unfoldable pub parse_digits : ℕ → Text → Option ℕ
parse_digits n [] = some n
parse_digits n (c ∷ s) =
    let next = n * 10 + (c - 48) in
    let rest = parse_digits next s in
    if is_digit c && ltb next 18446744073709551616 then rest else none

-- Digits with no sign in front of them.
unfoldable pub parse_digits_only : Text → Option ℕ
unfolding parse_digits
parse_digits_only [] = none
parse_digits_only (c ∷ s) = parse_digits 0 (c ∷ s)

-- A leading `+` is accepted; the empty string and a lone sign are not.
unfoldable pub parse_u64 : Text → Option ℕ
unfolding parse_digits
parse_u64 [] = none
parse_u64 (c ∷ []) = parse_digits 0 (c ∷ [])
parse_u64 (c ∷ d ∷ s) = if c == b'+' then parse_digits 0 (d ∷ s) else parse_digits 0 (c ∷ d ∷ s)

-- `str::parse::<i64>`: an optional sign and digits, in the range of the word.
unfoldable pub parse_i64 : Text → Option ℤ
unfolding parse_u64 parse_digits_only
parse_i64 [] = none
parse_i64 (c ∷ s) =
    if c == b'-'
    then elim (parse_digits_only s) [
      | none ↦ none
      | some n ↦ if ltb 9223372036854775808 n then none else some (negate n)
    ]
    else elim (parse_u64 (c ∷ s)) [
      | none ↦ none
      | some n ↦ if ltb 9223372036854775807 n then none else some (pos n)
    ]

-- The decimal digits of a 64-bit word: at most twenty.
unfoldable pub decimal_from : ℕ → ℕ → Text → Text
decimal_from zero n digits = digits
decimal_from (suc k) n digits =
    let rest = decimal_from k (n / 10) ((48 + n % 10) ∷ digits) in
    if ltb n 10 then (48 + n) ∷ digits else rest

unfoldable pub decimal : ℕ → Text
unfolding decimal_from
decimal n = decimal_from 20 n []
