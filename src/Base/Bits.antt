-- ===== src/Base/Bits.antt =====
-- `&`, `|` and `^` of C on native numbers, at every width: one equation for the lowest digit, and
-- what follows from it by recursion on the width.
mod Step
pub mod Xor
use Step.{bit_or_step, bit_and_step, bit_xor_step}
use zkproof_demo.Base.{
  ℕ, zero, suc, ◌+◌, ◌*◌, ◌-◌, ◌/◌, ◌%◌, ◌^◌, ◌<◌, bit_and, bit_or, bit_xor, ◌≡◌, refl, ap, arith,
}
use Prim.Native.Nat.{bit_or-bitwise}
use native.Mathlib.Nat.{pow-suc, one-le-pow}
pub use Step.{bit_or_step, bit_and_step, bit_xor_step}

-- An operation that keeps the digits of its first number next to zeros keeps that number.
module _ (op : ℕ → ℕ → ℕ) (at_zero : op 0 0 ≡ 0)
    (step : (x : ℕ) → op x 0 ≡ 2 * op (x / 2) 0 + x % 2) where
  keeps : (bound x : ℕ) → x < bound → op x 0 ≡ x
  keeps zero x below = absurd (omega arith)
  keeps (suc bound) zero below = at_zero
  keeps (suc bound) (suc x) below =
      omega (arith, keeps bound (suc x / 2) (omega arith), step (suc x))

pub bit_or-zero : (a : ℕ) → bit_or a 0 ≡ a
bit_or-zero a = keeps bit_or refl (λ x. omega (arith, bit_or_step x 0)) (suc a) a (omega arith)

pub zero-bit_or : (a : ℕ) → bit_or 0 a ≡ a
zero-bit_or a = bit_or-bitwise 0 a

pub bit_xor-zero : (a : ℕ) → bit_xor a 0 ≡ a
bit_xor-zero a = keeps bit_xor refl (λ x. omega (arith, bit_xor_step x 0)) (suc a) a (omega arith)

loses : (bound x : ℕ) → x < bound → bit_and x 0 ≡ 0
loses zero x below = absurd (omega arith)
loses (suc bound) zero below = refl
loses (suc bound) (suc x) below =
    omega (arith, loses bound (suc x / 2) (omega arith), bit_and_step (suc x) 0)

pub bit_and-zero : (a : ℕ) → bit_and a 0 ≡ 0
bit_and-zero a = loses (suc a) a (omega arith)

-- A field of `w + 1` bits, by one of `w`.
wider : (x w : ℕ) → x * 2 ^ suc w ≡ 2 * (x * 2 ^ w)
wider x w = omega (arith, ap (λ (t : ℕ). x * t) (pow-suc 2 w))

-- `(high << w) | low` is a sum when `low` fits `w` bits.
pub bit_or_fields : (w high low : ℕ) → low < 2 ^ w → bit_or (high * 2 ^ w) low ≡ high * 2 ^ w + low
bit_or_fields zero high low fits = ground (arith, bit_or-zero high)
bit_or_fields (suc w) high low fits =
    let size = pow-suc 2 w in
    let rest = bit_or_fields w high (low / 2) (omega arith) in
    ground (arith, wider high w, bit_or_step (high * 2 ^ suc w) low, rest)

masked : (w high low : ℕ) → low < 2 ^ w → bit_and (high * 2 ^ w + low) (2 ^ w - 1) ≡ low
masked zero high low fits = rw bit_and-zero (omega arith)
masked (suc w) high low fits =
    let size = pow-suc 2 w in
    let some_bit = one-le-pow w 2 in
    let rest = masked w high (low / 2) (omega arith) in
    ground (arith, wider high w, bit_and_step (high * 2 ^ suc w + low) (2 ^ suc w - 1), rest)

-- A mask of `w` low bits is the remainder by `2 ^ w`.
pub bit_and_mask : (w x : ℕ) → bit_and x (2 ^ w - 1) ≡ x % 2 ^ w
bit_and_mask w x = let some_bit = one-le-pow w 2 in ground (arith, masked w (x / 2 ^ w) (x % 2 ^ w))

-- The same with the low field first.
pub bit_or_low : (w high low : ℕ) → low < 2 ^ w → bit_or low (high * 2 ^ w) ≡ high * 2 ^ w + low
bit_or_low zero high low fits = ground (arith, zero-bit_or high)
bit_or_low (suc w) high low fits =
    let size = pow-suc 2 w in
    let rest = bit_or_low w high (low / 2) (omega arith) in
    ground (arith, wider high w, bit_or_step low (high * 2 ^ suc w), rest)
