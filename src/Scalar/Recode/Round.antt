-- ===== src/Scalar/Recode/Round.antt =====
-- A round of `wNAF_recode` on an odd scalar.
use zkproof_demo.Base.{
  ℕ, zero, suc, ◌+◌, ◌-◌, ◌*◌, ◌/◌, ◌%◌, ◌^◌, ◌<◌, ◌≤◌, ◌≡◌, refl, sym, ap, ◌∙◌, inr, lt→ltb,
  le→ltb, arith,
}
use zkproof_demo.Base.Bits.{bit_and_mask}
use zkproof_demo.Base.Modulo.{pow_le, pow-add, pow-double, pow-pos}
use zkproof_demo.Scalar.Recode.{ℤ, pos, negsuc, as_char, odd_digit, odd_rest}
use native.Mathlib.Nat.{div-add-mod, div-eq_of_lt, mod-lt}
use mathlib.Core.Path.{subst}
use native.Mathlib.Decide.{dec_lt}
use zkproof_demo.Scalar.Recode.Digits.{plus, minus, IsDigit}

-- What the digit `d` takes from an odd scalar, and the `rest` that is left.
pub record OddRound (w scalar : ℕ) (d : ℤ) (rest : ℕ) : Type 0 where
  pub digit : IsDigit w d
  pub taken : scalar + minus d ≡ plus d + 2 ^ w * rest
  pub bounded : (m : ℕ) → scalar ≤ 2 ^ (w + m) → rest ≤ 2 ^ m
  pub last : scalar < 2 ^ (w - 1) → rest ≡ 0

pub double_half : (w : ℕ) → 1 ≤ w → 2 ^ w ≡ 2 * 2 ^ (w - 1)
double_half zero h = absurd (omega arith)
double_half (suc w) h =
    let e : suc w - 1 ≡ w = omega arith in pow-double w ∙ ap (λ t. 2 * 2 ^ t) (sym e)

below_quotient :
    (w scalar m : ℕ) → 1 ≤ w → scalar % 2 ≡ 1 → scalar ≤ 2 ^ (w + m) → scalar / 2 ^ w < 2 ^ m
below_quotient w scalar m hw odd h =
    let W = 2 ^ w in
    let e = double_half w hw in
    elim (dec_lt (scalar / W) (2 ^ m)) [
      | yes p ↦ p
      | no p ↦
          let d = scalar / W - 2 ^ m in
          let split : scalar / W ≡ 2 ^ m + d = omega arith in
          absurd (
            omega (
              arith,
              div-add-mod scalar W,
              ap (λ t. W * t) split,
              pow-add 2 w m,
              ap (λ t. t * 2 ^ m) e,
            ))
    ]

-- A digit of at most 8 bits fits a `signed char`.
char-pos : (n : ℕ) → n < 128 → as_char (pos n) ≡ pos n
unfolding as_char
char-pos n h = let e : n % 256 ≡ n = omega arith in rw (e, lt→ltb n 128 h) refl

char-negsuc : (n : ℕ) → n < 128 → as_char (negsuc n) ≡ negsuc n
unfolding as_char
char-negsuc n h = let e : n % 256 ≡ n = omega arith in rw (e, lt→ltb n 128 h) refl

half_fits : (w : ℕ) → w ≤ 8 → 2 ^ (w - 1) ≤ 128
half_fits w h =
    let e : w - 1 + (7 - (w - 1)) ≡ 7 = omega arith in
    subst (λ t. 2 ^ (w - 1) ≤ 2 ^ t) e (pow_le (w - 1) (7 - (w - 1)))

large_digit :
    (w scalar : ℕ)
    → 1 ≤ w
    → w ≤ 8
    → 2 ^ (w - 1) - 1 < scalar % 2 ^ w
    → (odd_digit w scalar ≡ negsuc (2 ^ w - scalar % 2 ^ w - 1))
      × (odd_rest w scalar ≡ scalar / 2 ^ w + 1)
unfolding odd_digit odd_rest
large_digit w scalar hw hc h =
    let fits : 2 ^ w - scalar % 2 ^ w - 1 < 128 =
      omega (arith, half_fits w hc, double_half w hw, pow-pos (w - 1)) in
    rw (bit_and_mask w scalar, lt→ltb _ _ h) (char-negsuc (2 ^ w - scalar % 2 ^ w - 1) fits, refl)

small_digit :
    (w scalar : ℕ)
    → w ≤ 8
    → scalar % 2 ^ w ≤ 2 ^ (w - 1) - 1
    → (odd_digit w scalar ≡ pos (scalar % 2 ^ w)) × (odd_rest w scalar ≡ scalar / 2 ^ w)
unfolding odd_digit odd_rest
small_digit w scalar hc h =
    let fits : scalar % 2 ^ w < 128 = omega (arith, half_fits w hc, pow-pos (w - 1)) in
    rw (bit_and_mask w scalar, le→ltb _ _ h) (char-pos (scalar % 2 ^ w) fits, refl)

pub odd_round :
    (w scalar : ℕ)
    → 2 ≤ w
    → w ≤ 8
    → scalar % 2 ≡ 1
    → OddRound w scalar (odd_digit w scalar) (odd_rest w scalar)
odd_round w scalar hw hc odd =
    let H = 2 ^ (w - 1) in
    let W = 2 ^ w in
    let q = scalar / W in
    let r = scalar % W in
    let e = double_half w (omega arith) in
    let sum = div-add-mod scalar W in
    let twice = ap (λ t. t * q) e in
    let below : r < W = mod-lt scalar (pow-pos w) in
    let quarter = double_half (w - 1) (omega arith) in
    let some_half = pow-pos (w - 1 - 1) in
    elim (dec_lt (H - 1) r) [
      | yes p ↦
          let digit = large_digit w scalar (omega arith) hc p in
          rw (digit.0, digit.1)
            (record {
              digit = inr (omega arith, omega arith);
              taken = omega arith;
              bounded = λ m h. omega (arith, below_quotient w scalar m (omega arith) odd h);
              last =
                  λ h. let none_left : q ≡ 0 = div-eq_of_lt (omega arith) in absurd (omega arith);
            })
      | no p ↦
          let digit = small_digit w scalar hc (omega arith) in
          rw (digit.0, digit.1)
            (record {
              digit = inr (omega arith, omega arith);
              taken = omega arith;
              bounded = λ m h. omega (arith, below_quotient w scalar m (omega arith) odd h);
              last = λ h. div-eq_of_lt (omega arith);
            })
    ]

pub low_scalar :
    (w k scalar : ℕ) → 2 ≤ w → k < w → scalar % 2 ≡ 1 → scalar ≤ 2 ^ k → scalar < 2 ^ (w - 1)
low_scalar w k scalar hw h odd hs =
    let e : k + (w - 1 - k) ≡ w - 1 = omega arith in
    let le : 2 ^ k ≤ 2 ^ (w - 1) = subst (λ t. 2 ^ k ≤ 2 ^ t) e (pow_le k (w - 1 - k)) in
    omega (arith, double_half (w - 1) (omega arith), le)
