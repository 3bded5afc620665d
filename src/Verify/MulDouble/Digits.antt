-- ===== src/Verify/MulDouble/Digits.antt =====
-- The digits of `ecc_mul_double` and the entries of the tables that they select.
use zkproof_demo.Base.{
  ℕ, zero, suc, ◌+◌, ◌-◌, ◌/◌, ◌^◌, ◌<◌, ◌≤◌, ◌≡◌, List, [], ◌∷◌, Bool, true, false, ap,
  if◌then◌else◌, length, get_or, arith,
}
use zkproof_demo.Curve.Points.{PointExtproj}
use zkproof_demo.Scalar.{decompose}
use zkproof_demo.Scalar.Product.{AllWords, no_words, one_word}
use zkproof_demo.Scalar.Recode.{ℤ, pos, wnaf_recode}
use zkproof_demo.Scalar.Recode.Digits.{plus, minus, AllDigits, one_more}
use zkproof_demo.Base.Modulo.{pow-pos}
use zkproof_demo.Scalar.Recode.Round.{double_half}
use zkproof_demo.Scalar.Recode.Loop.{wnaf_recode_lem}
use zkproof_demo.Scalar.Words.{words-get_or}
use zkproof_demo.Verify.MulDouble.{mul_parts}

either : (c : Bool) {xs ys : List ℕ} → AllWords xs → AllWords ys → AllWords (if c then xs else ys)
either true hx hy = hx
either false hx hy = hy

pub decompose-AllWords : (k : List ℕ) → AllWords (decompose k)
unfolding decompose
decompose-AllWords k =
    either _
      (one_word (omega arith)
        (one_word (omega arith) (one_word (omega arith) (one_word (omega arith) no_words))))
      (one_word (omega arith)
        (one_word (omega arith) (one_word (omega arith) (one_word (omega arith) no_words))))

-- The entry that a digit selects, of a table of 2 ^ (w - 2).
abbrev pub Selects : ℕ → List ℤ → Type 0
Selects w ds =
    (length ds ≡ 65)
    × ((i : ℕ) → (plus (get_or ds i (pos 0)) + minus (get_or ds i (pos 0))) / 2 < 2 ^ (w - 2))

digits-select :
    (w : ℕ) (ds : List ℤ) (i : ℕ)
    → 2 ≤ w
    → AllDigits w ds
    → (plus (get_or ds i (pos 0)) + minus (get_or ds i (pos 0))) / 2 < 2 ^ (w - 2)
digits-select w [] i hw h = pow-pos (w - 2)
digits-select w (d ∷ ds) zero hw (one_more h hs) =
    let e : w - 1 - 1 ≡ w - 2 = omega arith in
    omega (arith, double_half (w - 1) (omega arith), ap (λ t. 2 ^ t) e, pow-pos (w - 2))
digits-select w (d ∷ ds) (suc i) hw (one_more h hs) = digits-select w ds i hw hs

recoded :
    (xs : List ℕ) (i w : ℕ)
    → 2 ≤ w
    → w ≤ 8
    → AllWords xs
    → Selects w (wnaf_recode (get_or xs i 0) w)
recoded xs i w hw hc h =
    let r = wnaf_recode_lem (get_or xs i 0) w (words-get_or xs i h) hw hc in
    (r.1, λ j. digits-select w _ j hw r.3)

-- Of the eight digit strings of `ecc_mul_double`, each has the 65 digits that the loop reads; half the
-- size of a digit of `k` is below 64 and of `l` below 4, the entries that the tables have.
pub mul_parts-Selects :
    (k l : List ℕ) (q : PointExtproj)
    → (Selects 8 (mul_parts k l q).digits_k1 × Selects 8 (mul_parts k l q).digits_k2)
      × (Selects 8 (mul_parts k l q).digits_k3 × Selects 8 (mul_parts k l q).digits_k4)
      × (Selects 4 (mul_parts k l q).digits_l1 × Selects 4 (mul_parts k l q).digits_l2)
      × (Selects 4 (mul_parts k l q).digits_l3 × Selects 4 (mul_parts k l q).digits_l4)
unfolding mul_parts
mul_parts-Selects k l q =
    let hk = decompose-AllWords k in
    let hl = decompose-AllWords l in
    let two : 2 ≤ 8 = omega arith in
    let two' : 2 ≤ 4 = omega arith in
    let eight : 8 ≤ 8 = omega arith in
    let four : 4 ≤ 8 = omega arith in
    (
      (recoded (decompose k) 0 8 two eight hk, recoded (decompose k) 1 8 two eight hk),
      (recoded (decompose k) 2 8 two eight hk, recoded (decompose k) 3 8 two eight hk),
      (recoded (decompose l) 0 4 two' four hl, recoded (decompose l) 1 4 two' four hl),
      (recoded (decompose l) 2 4 two' four hl, recoded (decompose l) 3 4 two' four hl),
    )
