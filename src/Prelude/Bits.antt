-- ===== src/Prelude/Bits.antt =====
-- The native bit operations at variables: one law for the lowest digit, and what the masks of the
-- program need from it.
use Prim.Native.Nat.{
  ℕ, zero, suc, ◌+◌, ◌-◌, ◌*◌, ◌/◌, ◌%◌, ◌^◌, ◌≤◌, ◌<◌, min, max, bit_and, bit_or, digits,
  bit_and-bitwise, bit_or-bitwise,
}
use mathlib.Core.Path.{◌≡◌, refl, sym, ap, ◌∙◌}
use native.Mathlib.Decide.{dec_le}
use native.Mathlib.Nat.{mul_comm, div-add-mod, div-div-eq-div-mul, pow-suc}
use native.Mathlib.Omega.{arith}

module _ (z : ℕ → ℕ) (f : ℕ → ℕ → ℕ) where
  -- A round past the last digit changes nothing.
  one_more : (rounds a b : ℕ) → a ≤ rounds → digits z f (suc rounds) a b ≡ digits z f rounds a b
  one_more zero zero b h = refl
  one_more (suc _) zero b h = refl
  one_more zero (suc a) b h = absurd (omega arith)
  one_more (suc rounds) (suc a) b h =
      omega (arith, one_more rounds (suc a / 2) (b / 2) (omega arith))

  settled : (rounds a b : ℕ) → a ≤ rounds → digits z f rounds a b ≡ digits z f a a b
  settled (suc _) zero b h = refl
  settled zero zero b h = refl
  settled zero (suc a) b h = absurd (omega arith)
  settled (suc rounds) (suc a) b h = elim (dec_le (suc a) rounds) [
    | yes p ↦ one_more rounds (suc a) b p ∙ settled rounds (suc a) b p
    | no q ↦
        let last : suc rounds ≡ suc a = omega arith in ap (λ (r : ℕ). digits z f r (suc a) b) last
  ]

  -- The lowest digit, where the rest of the second number has the same law.
  digits_step :
      ((b : ℕ) → z b ≡ z (b / 2) * 2 + f 0 (b % 2))
      → (a b : ℕ) → digits z f a a b ≡ digits z f (a / 2) (a / 2) (b / 2) * 2 + f (a % 2) (b % 2)
  digits_step base zero b = base b
  digits_step base (suc a) b = omega (arith, settled a (suc a / 2) (b / 2) (omega arith))

pub bit_and_step : (a b : ℕ) → bit_and a b ≡ bit_and (a / 2) (b / 2) * 2 + min (a % 2) (b % 2)
bit_and_step a b = omega (
  arith,
  digits_step (λ _. 0) min (λ b. omega arith) a b,
  bit_and-bitwise a b,
  bit_and-bitwise (a / 2) (b / 2),
)

pub bit_or_step : (a b : ℕ) → bit_or a b ≡ bit_or (a / 2) (b / 2) * 2 + max (a % 2) (b % 2)
bit_or_step a b = omega (
  arith,
  digits_step (λ b. b) max (λ b. omega arith) a b,
  bit_or-bitwise a b,
  bit_or-bitwise (a / 2) (b / 2),
)

-- Induction by halving: the number of digits bounds the number of steps.
zero_right_and : (n a : ℕ) → a ≤ n → bit_and a 0 ≡ 0
zero_right_and n zero h = refl
zero_right_and zero (suc a) h = absurd (omega arith)
zero_right_and (suc n) (suc a) h =
    omega (arith, bit_and_step (suc a) 0, zero_right_and n (suc a / 2) (omega arith))

pub bit_and-zero : (a : ℕ) → bit_and a 0 ≡ 0
bit_and-zero a = zero_right_and a a (omega arith)

zero_right_or : (n a : ℕ) → a ≤ n → bit_or a 0 ≡ a
zero_right_or n zero h = refl
zero_right_or zero (suc a) h = absurd (omega arith)
zero_right_or (suc n) (suc a) h =
    omega (arith, bit_or_step (suc a) 0, zero_right_or n (suc a / 2) (omega arith))

pub bit_or-zero : (a : ℕ) → bit_or a 0 ≡ a
bit_or-zero a = zero_right_or a a (omega arith)

pub bit_or-one_even : (a : ℕ) → bit_or (a * 2) 1 ≡ a * 2 + 1
bit_or-one_even a = omega (arith, bit_or_step (a * 2) 1, bit_or-zero (a * 2 / 2))

-- A mask with one digit reads that digit.
pub bit_and-two_pow : (k a : ℕ) → bit_and a (2 ^ k) ≡ a / 2 ^ k % 2 * 2 ^ k
bit_and-two_pow zero a = omega (arith, bit_and_step a 1, bit_and-zero (a / 2))
bit_and-two_pow (suc k) a =
    let half : 2 ^ suc k / 2 ≡ 2 ^ k = omega (arith, pow-suc 2 k) in
    let digit : a / 2 ^ suc k ≡ a / 2 / 2 ^ k =
      rw (pow-suc 2 k, mul_comm) (sym (div-div-eq-div-mul a 2 (2 ^ k))) in
    let rest : bit_and (a / 2) (2 ^ suc k / 2) ≡ a / 2 / 2 ^ k % 2 * 2 ^ k =
      rw half (bit_and-two_pow k (a / 2)) in
    rw digit (
      omega (
        arith,
        bit_and_step a (2 ^ suc k),
        rest,
        pow-suc 2 k,
        ap (λ (t : ℕ). a / 2 / 2 ^ k % 2 * t) (pow-suc 2 k),
      ))

pub two_pow_pos : (k : ℕ) → 0 < 2 ^ k
two_pow_pos zero = omega arith
two_pow_pos (suc k) = omega (arith, pow-suc 2 k, two_pow_pos k)

-- A mask of the low digits takes the remainder.
pub bit_and-mask : (k a : ℕ) → bit_and a (2 ^ k - 1) ≡ a % 2 ^ k
bit_and-mask zero a = omega (arith, bit_and-zero a)
bit_and-mask (suc k) a =
    let half : (2 ^ suc k - 1) / 2 ≡ 2 ^ k - 1 = omega (arith, pow-suc 2 k) in
    let rest : bit_and (a / 2) ((2 ^ suc k - 1) / 2) ≡ a / 2 % 2 ^ k =
      rw half (bit_and-mask k (a / 2)) in
    let quotient : a / 2 ^ suc k ≡ a / 2 / 2 ^ k =
      rw (pow-suc 2 k, mul_comm) (sym (div-div-eq-div-mul a 2 (2 ^ k))) in
    let whole : 2 ^ suc k * (a / 2 / 2 ^ k) + a % 2 ^ suc k ≡ a =
      rw quotient at (div-add-mod a (2 ^ suc k)) in
    let doubled = ap (λ (t : ℕ). t * (a / 2 / 2 ^ k)) (pow-suc 2 k) in
    let remainder : a % 2 ^ suc k ≡ a / 2 % 2 ^ k * 2 + a % 2 =
      omega (arith, div-add-mod (a / 2) (2 ^ k)) in
    rw remainder (omega (arith, bit_and_step a (2 ^ suc k - 1), rest, pow-suc 2 k, two_pow_pos k))

-- Numbers without common digits.
pub bit_or-above : (k s b : ℕ) → b < 2 ^ k → bit_or (s * 2 ^ k) b ≡ s * 2 ^ k + b
bit_or-above zero s b h =
    let e : b ≡ 0 = omega arith in rw e (omega (arith, bit_or-zero (s * 2 ^ 0)))
bit_or-above (suc k) s b h =
    let half : s * 2 ^ suc k / 2 ≡ s * 2 ^ k = omega (arith, ap (λ (t : ℕ). s * t) (pow-suc 2 k)) in
    let rest : bit_or (s * 2 ^ suc k / 2) (b / 2) ≡ s * 2 ^ k + b / 2 =
      rw half (bit_or-above k s (b / 2) (omega (arith, pow-suc 2 k))) in
    omega (arith, bit_or_step (s * 2 ^ suc k) b, rest, ap (λ (t : ℕ). s * t) (pow-suc 2 k))
