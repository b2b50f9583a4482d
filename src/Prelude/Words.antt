-- ===== src/Prelude/Words.antt =====
-- Rust's unsigned words, of which the values are plain numbers below 2 ^ w. The operators of a
-- release build wrap round, a shift takes its amount modulo the width, and the saturating methods
-- stop at the ends of the range.
use Prim.Native.Nat.{ℕ, zero, suc, ◌+◌, ◌-◌, ◌*◌, ◌/◌, ◌%◌, ◌^◌, ◌<◌, min}
use mathlib.Core.Option.{Option, none, some}
use grin.Prelude.Tests.{◌==◌, if◌then◌else◌}

abbrev pub IsU64 : ℕ → Type 0
IsU64 x = x < 2 ^ 64

abbrev pub u64_max : ℕ
u64_max = 2 ^ 64 - 1

abbrev pub add64 : ℕ → ℕ → ℕ
add64 a b = (a + b) % 2 ^ 64

abbrev pub sub64 : ℕ → ℕ → ℕ
sub64 a b = (a + 2 ^ 64 - b) % 2 ^ 64

abbrev pub mul64 : ℕ → ℕ → ℕ
mul64 a b = a * b % 2 ^ 64

abbrev pub shl64 : ℕ → ℕ → ℕ
shl64 a k = a * 2 ^ (k % 64) % 2 ^ 64

abbrev pub shr64 : ℕ → ℕ → ℕ
shr64 a k = a / 2 ^ (k % 64)

abbrev pub saturating_add64 : ℕ → ℕ → ℕ
saturating_add64 a b = min (a + b) u64_max

abbrev pub saturating_mul64 : ℕ → ℕ → ℕ
saturating_mul64 a b = min (a * b) u64_max

-- A division by zero panics, which is `none`.
abbrev pub checked_div : ℕ → ℕ → Option ℕ
checked_div a b = if b == 0 then none else some (a / b)

-- u64::leading_zeros and u64::count_ones, digit by digit from the lowest.
unfoldable pub bit_length_from : ℕ → ℕ → ℕ
bit_length_from zero n = 0
bit_length_from (suc fuel) n =
    let rest = suc (bit_length_from fuel (n / 2)) in if n == 0 then 0 else rest

unfoldable pub ones : ℕ → ℕ → ℕ
ones zero n = 0
ones (suc fuel) n = n % 2 + ones fuel (n / 2)

unfoldable pub leading_zeros : ℕ → ℕ
leading_zeros n = 64 - bit_length_from 64 n

unfoldable pub count_ones : ℕ → ℕ
count_ones n = ones 64 n
