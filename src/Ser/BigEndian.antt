-- ===== src/Ser/BigEndian.antt =====
-- core/src/ser.rs: the big-endian numbers of the byteorder crate, to run the model with.
use grin.Prelude.{
  ℕ, zero, suc, ◌+◌, ◌*◌, ◌/◌, ◌%◌, ◌^◌, ◌<◌, ◌≡◌, List, [], ◌∷◌, ◌++◌, refl, length, length-append,
  arith,
}
use native.Mathlib.Nat.{pow-suc}
use grin.Ser.Types.{ByteOrder}

unfoldable pub digits : ℕ → ℕ → List ℕ
digits zero n = []
digits (suc w) n = digits w (n / 256) ++ (n % 256 ∷ [])

unfoldable pub number_from : ℕ → List ℕ → ℕ
number_from acc [] = acc
number_from acc (b ∷ bs) = number_from (acc * 256 + b) bs

number_from-append :
    (acc b : ℕ) (bs : List ℕ) → number_from acc (bs ++ (b ∷ [])) ≡ number_from acc bs * 256 + b
unfolding number_from
number_from-append acc b [] = refl
number_from-append acc b (c ∷ bs) = number_from-append (acc * 256 + c) b bs

pub length-digits : (w n : ℕ) → length (digits w n) ≡ w
unfolding digits
length-digits zero n = refl
length-digits (suc w) n =
    omega (arith, length-append (digits w (n / 256)) (n % 256 ∷ []), length-digits w (n / 256))

pub number-digits : (w n : ℕ) → n < 256 ^ w → number_from 0 (digits w n) ≡ n
unfolding digits number_from
number-digits zero n h = omega arith
number-digits (suc w) n h =
    let bound : n / 256 < 256 ^ w = omega (arith, pow-suc 256 w) in
    omega
      (arith, number_from-append 0 (n % 256) (digits w (n / 256)), number-digits w (n / 256) bound)

unfoldable pub big_endian : ByteOrder
big_endian = record {
  write_uint = digits;
  read_uint = number_from 0;
  length-write_uint = length-digits;
  read_uint-write_uint = number-digits;
}
