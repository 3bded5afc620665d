-- ===== src/Scalar/Recode/Loop.antt =====
-- The loop of `wNAF_recode` ends within the array, and its digits add up to the scalar.
use zkproof_demo.Base.{
  ℕ, zero, suc, ◌+◌, ◌-◌, ◌*◌, ◌/◌, ◌%◌, ◌^◌, ◌<◌, ◌≤◌, ◌≡◌, ◌≢◌, refl, ap, inl, ◌==◌, ne→==, eq→==,
  if◌then◌else◌, List, [], ◌∷◌, ◌++◌, length, length-append, length-replicate, replicate, arith,
}
use zkproof_demo.Base.Bits.{bit_and_mask}
use zkproof_demo.Base.Modulo.{pow-double}
use zkproof_demo.Scalar.Recode.{ℤ, pos, odd_digit, odd_rest, recode_loop, wnaf_recode}
use mathlib.Core.Path.{subst}
use native.Mathlib.Decide.{dec_lt, ℕ_discrete}
use zkproof_demo.Scalar.Recode.Digits.{
  sum_plus, sum_minus, AllDigits, none_left, one_more, Recodes, sum_plus-zeros, sum_minus-zeros,
  AllDigits-zeros, AllDigits-pad, sum_plus-pad, sum_minus-pad,
}
use zkproof_demo.Scalar.Recode.Round.{OddRound, double_half, odd_round, low_scalar}

recode_zero : (fuel w : ℕ) → recode_loop fuel w 0 ≡ []
unfolding recode_loop
recode_zero zero w = refl
recode_zero (suc fuel) w = refl

recode_even :
    (fuel w scalar : ℕ)
    → scalar ≢ 0
    → scalar % 2 ≡ 0
    → recode_loop (suc fuel) w scalar ≡ pos 0 ∷ recode_loop fuel w (scalar / 2)
unfolding recode_loop
recode_even fuel w scalar nz even =
    rw (ne→== scalar 0 nz, bit_and_mask 1 scalar, eq→== (scalar % 2) 0 even, recode_loop) refl

recode_odd :
    (fuel w scalar : ℕ)
    → scalar % 2 ≡ 1
    → recode_loop (suc fuel) w scalar
      ≡ odd_digit w scalar ∷ (if odd_rest w scalar == 0 then [] else replicate (w - 1) (pos 0))
        ++ recode_loop fuel w (odd_rest w scalar)
unfolding recode_loop
recode_odd fuel w scalar odd =
    let nz : scalar ≢ 0 = λ e. omega arith in
    let one : scalar % 2 ≢ 0 = λ e. omega arith in
    rw (ne→== scalar 0 nz, bit_and_mask 1 scalar, ne→== (scalar % 2) 0 one, recode_loop) refl

nothing_left : (w room : ℕ) → Recodes w room 0 []
unfolding sum_plus sum_minus
nothing_left w room = record { fits = omega arith; adds_up = refl; digits = none_left }

even-Recodes :
    (w k scalar : ℕ) (ds : List ℤ)
    → scalar % 2 ≡ 0
    → Recodes w (k + 1) (scalar / 2) ds
    → Recodes w (suc k + 1) scalar (pos 0 ∷ ds)
unfolding sum_plus sum_minus
even-Recodes w k scalar ds even h = record {
  fits = omega (arith, h.fits);
  adds_up = omega (arith, h.adds_up);
  digits = one_more (inl refl) h.digits;
}

-- An odd scalar with nothing left is one digit.
last-Recodes :
    (w k scalar : ℕ) (d : ℤ) (rest : ℕ)
    → OddRound w scalar d rest
    → rest ≡ 0
    → Recodes w (k + 1) scalar (d ∷ [])
unfolding sum_plus sum_minus
last-Recodes w k scalar d rest o z = record {
  fits = omega arith;
  adds_up = omega (arith, o.taken, ap (λ t. 2 ^ w * t) z);
  digits = one_more o.digit none_left;
}

odd-Recodes :
    (w m scalar : ℕ) (d : ℤ) (rest : ℕ) (ds : List ℤ)
    → 2 ≤ w
    → OddRound w scalar d rest
    → Recodes w (m + 1) rest ds
    → Recodes w (w + m + 1) scalar (d ∷ replicate (w - 1) (pos 0) ++ ds)
unfolding sum_plus sum_minus
odd-Recodes w m scalar d rest ds hw o h =
    let e = double_half w (omega arith) in
    record {
      fits = omega (
        arith,
        length-append (replicate (w - 1) (pos 0)) ds,
        length-replicate (w - 1) (pos 0),
        h.fits,
      );
      adds_up = omega (
        arith,
        o.taken,
        ap (λ t. 2 ^ w * t) h.adds_up,
        sum_plus-zeros (w - 1) ds,
        sum_minus-zeros (w - 1) ds,
        ap (λ t. t * sum_plus ds) e,
        ap (λ t. t * sum_minus ds) e,
      );
      digits = one_more o.digit (AllDigits-zeros w (w - 1) ds h.digits);
    }

-- An odd scalar, with the digits of what is left at hand.
odd_case :
    (fuel w k scalar : ℕ)
    → 2 ≤ w
    → w ≤ 8
    → scalar % 2 ≡ 1
    → scalar ≤ 2 ^ k
    → ((m : ℕ)
        → w + m ≡ k
        → (odd_rest w scalar ≤ 2 ^ m)
        → Recodes w (m + 1) (odd_rest w scalar) (recode_loop fuel w (odd_rest w scalar)))
    → Recodes w (k + 1) scalar (recode_loop (suc fuel) w scalar)
odd_case fuel w k scalar hw hc odd hs rest_done =
    let o = odd_round w scalar hw hc odd in
    elim (ℕ_discrete (odd_rest w scalar) 0) [
      | yes z ↦
          rw
            (
              recode_odd fuel w scalar odd,
              eq→== (odd_rest w scalar) 0 z,
              ap (recode_loop fuel w) z,
              recode_zero fuel w,
            )
            (last-Recodes w k scalar (odd_digit w scalar) (odd_rest w scalar) o z)
      | no nz ↦ elim (dec_lt k w) [
        | yes p ↦ absurd (nz (o.last (low_scalar w k scalar hw p odd hs)))
        | no p ↦
            let e : w + (k - w) ≡ k = omega arith in
            let h = rest_done (k - w) e (o.bounded (k - w) (rw e hs)) in
            rw (recode_odd fuel w scalar odd, ne→== (odd_rest w scalar) 0 nz)
              (subst
                (λ t. Recodes w (t + 1) scalar (
                  (odd_digit w scalar ∷ replicate (w - 1) (pos 0))
                  ++ recode_loop fuel w (odd_rest w scalar)))
                e (odd-Recodes w (k - w) scalar _ _ _ hw o h))
      ]
    ]

-- Fuel and room for one digit more than the scalar has bits are enough.
recode_loop-Recodes :
    (fuel w k scalar : ℕ)
    → 2 ≤ w
    → w ≤ 8
    → k < fuel
    → scalar ≤ 2 ^ k
    → Recodes w (k + 1) scalar (recode_loop fuel w scalar)
recode_loop-Recodes zero w k scalar hw hc hk hs = absurd (omega arith)
recode_loop-Recodes (suc fuel) w k scalar hw hc hk hs = elim (ℕ_discrete scalar 0) [
  | yes z ↦ rw (z, recode_zero (suc fuel) w) (nothing_left w (k + 1))
  | no nz ↦ elim (ℕ_discrete (scalar % 2) 0) [
    | yes even ↦ rw (recode_even fuel w scalar nz even) (
        elim k
            as (λ k.
              k < suc fuel
              → scalar ≤ 2 ^ k
              → Recodes w (k + 1) scalar (pos 0 ∷ recode_loop fuel w (scalar / 2))) [
                | zero ↦ λ hk hs. absurd (omega arith)
                | suc k ↦ λ hk hs. even-Recodes w k scalar _ even (
                    recode_loop-Recodes fuel w k (scalar / 2) hw hc (omega arith)
                      (omega (arith, pow-double k)))
              ]
          hk hs)
    | no odd ↦
        odd_case fuel w k scalar hw hc (omega arith) hs
          (λ m e h. recode_loop-Recodes fuel w m (odd_rest w scalar) hw hc (omega arith) h)
  ]
]

-- For a scalar of 64 bits and a width from 2 to 8, the loop of `wNAF_recode` ends within the array and
-- the array has 65 digits; with their weights they add up to the scalar, and each is 0, or odd and
-- less than 2 ^ (w - 1) in size.
pub wnaf_recode_lem :
    (scalar w : ℕ)
    → scalar < 2 ^ 64
    → 2 ≤ w
    → w ≤ 8
    → (length (recode_loop 65 w scalar) ≤ 65)
      × (length (wnaf_recode scalar w) ≡ 65)
      × (scalar + sum_minus (wnaf_recode scalar w) ≡ sum_plus (wnaf_recode scalar w))
      × AllDigits w (wnaf_recode scalar w)
unfolding wnaf_recode
wnaf_recode_lem scalar w h hw hc =
    let ds = recode_loop 65 w scalar in
    let r = recode_loop-Recodes 65 w 64 scalar hw hc (omega arith) (omega arith) in
    let room = 65 - length ds in
    (
      r.fits,
      omega
          (arith, r.fits, length-append ds (replicate room (pos 0)), length-replicate room (pos 0)),
      omega (arith, r.adds_up, sum_plus-pad room ds, sum_minus-pad room ds),
      AllDigits-pad w room ds r.digits,
    )
