-- ===== src/Base/Bits/Step.antt =====
-- One equation for the lowest binary digit of each bitwise operation. The kernel means them by
-- `bitwise`, which spends fuel on the digits of the first number.
use Prim.Native.Nat.{digits, bitwise, bit_and-bitwise, bit_or-bitwise, bit_xor-bitwise, differ}
use zkproof_demo.Base.{
  ℕ, zero, suc, ◌+◌, ◌-◌, ◌*◌, ◌/◌, ◌%◌, ◌≤◌, ◌<◌, min, max, bit_and, bit_or, bit_xor, ◌≡◌, ◌⊎◌,
  inl, inr, refl, ◌∙◌, arith,
}

module _ (base : ℕ → ℕ) (join : ℕ → ℕ → ℕ) where
  -- A spare unit of fuel changes nothing.
  spare : (n a b : ℕ) → a ≤ n → digits base join (suc n) a b ≡ digits base join n a b
  spare zero zero b below = refl
  spare (suc n) zero b below = refl
  spare zero (suc a) b below = absurd (omega arith)
  spare (suc n) (suc a) b below = rw (spare n (suc a / 2) (b / 2) (omega arith)) refl

  exact_fuel : (d n a b : ℕ) → n ≡ d + a → digits base join n a b ≡ digits base join a a b
  exact_fuel zero n a b e = let e' : n ≡ a = omega arith in rw e' refl
  exact_fuel (suc d) zero a b e = absurd (omega arith)
  exact_fuel (suc d) (suc n) a b e = spare n a b (omega arith) ∙ exact_fuel d n a b (omega arith)

  lowest_digit :
      (a b : ℕ)
      → bitwise base join (suc a) b
        ≡ 2 * bitwise base join (suc a / 2) (b / 2) + join (suc a % 2) (b % 2)
  lowest_digit a b =
      let half = suc a / 2 in omega (arith, exact_fuel (a - half) a half (b / 2) (omega arith))

pub bit_or_step : (a b : ℕ) → bit_or a b ≡ 2 * bit_or (a / 2) (b / 2) + max (a % 2) (b % 2)
bit_or_step zero b = simp bit_or-bitwise (omega arith)
bit_or_step (suc a) b = simp bit_or-bitwise (lowest_digit (λ t. t) max a b)

pub bit_and_step : (a b : ℕ) → bit_and a b ≡ 2 * bit_and (a / 2) (b / 2) + min (a % 2) (b % 2)
bit_and_step zero b = simp bit_and-bitwise (omega arith)
bit_and_step (suc a) b = simp bit_and-bitwise (lowest_digit (λ t. 0) min a b)

digit_cases : (x : ℕ) → x < 2 → (x ≡ 0) ⊎ (x ≡ 1)
digit_cases x h =
    elim x as (λ x. x < 2 → (x ≡ 0) ⊎ (x ≡ 1)) [
      | zero ↦ λ h. inl refl
      | suc x ↦ λ h. inr (omega arith)
    ]
      h

-- Two digits differ when their sum is odd.
differ-digits : (x y : ℕ) → x < 2 → y < 2 → differ x y ≡ (x + y) % 2
differ-digits x y hx hy = elim (digit_cases x hx) [
  | inl ex ↦ rw ex (omega arith)
  | inr ex ↦ elim (digit_cases y hy) [ inl ey ↦ rw (ex, ey) refl | inr ey ↦ rw (ex, ey) refl ]
]

pub bit_xor_step : (a b : ℕ) → bit_xor a b ≡ 2 * bit_xor (a / 2) (b / 2) + (a % 2 + b % 2) % 2
bit_xor_step zero b = simp bit_xor-bitwise (omega arith)
bit_xor_step (suc a) b =
    let bits = differ-digits (suc a % 2) (b % 2) (omega arith) (omega arith) in
    rw (← bits) (simp bit_xor-bitwise (lowest_digit (λ t. t) differ a b))
