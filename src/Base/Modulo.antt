-- ===== src/Base/Modulo.antt =====
-- A product depends on its factors only up to the modulus; exponents add up.
use zkproof_demo.Base.{ℕ, zero, suc, ◌+◌, ◌*◌, ◌/◌, ◌%◌, ◌^◌, ◌<◌, ◌≤◌, ◌≡◌, sym, ap, ◌∙◌, arith}
use native.Mathlib.Nat.{add-mul-mod_self_left, div-add-mod, mul_comm, pow-suc, pow-zero}

pub mul-mod_left : (x y n : ℕ) → (x * y) % n ≡ ((x % n) * y) % n
mul-mod_left x y n = ap (λ t. t % n) split ∙ add-mul-mod_self_left ((x % n) * y) n ((x / n) * y)
  where
    split : x * y ≡ (x % n) * y + n * ((x / n) * y)
    split = omega (arith, ap (λ (t : ℕ). t * y) (div-add-mod x n))

pub mul-mod_right : (x y n : ℕ) → (x * y) % n ≡ (x * (y % n)) % n
mul-mod_right x y n =
    ap (λ t. t % n) (mul_comm x y) ∙ mul-mod_left y x n ∙ ap (λ t. t % n) (mul_comm (y % n) x)

pub mul-mod : (x y n : ℕ) → (x * y) % n ≡ ((x % n) * (y % n)) % n
mul-mod x y n = mul-mod_left x y n ∙ mul-mod_right (x % n) y n

pub pow-add : (n k m : ℕ) → n ^ (k + m) ≡ n ^ k * n ^ m
pow-add n k zero =
    let e : k + 0 ≡ k = omega arith in
    let u : n ^ k ≡ n ^ k * 1 = omega arith in
    ap (λ t. n ^ t) e ∙ u ∙ ap (λ t. n ^ k * t) (sym (pow-zero n))
pow-add n k (suc m) =
    let e : k + suc m ≡ suc (k + m) = omega arith in
    ap (λ t. n ^ t) e
    ∙ pow-suc n (k + m)
    ∙ omega (arith, ap (λ (t : ℕ). t * n) (pow-add n k m), ap (λ (t : ℕ). n ^ k * t) (pow-suc n m))

pub pow-one : (n : ℕ) → n ^ 1 ≡ n
pow-one n = pow-suc n 0 ∙ ap (λ t. t * n) (pow-zero n) ∙ omega arith

pub pow-double : (m : ℕ) → 2 ^ suc m ≡ 2 * 2 ^ m
pow-double m = omega (arith, pow-suc 2 m)

pub pow-pos : (m : ℕ) → 0 < 2 ^ m
pow-pos zero = omega arith
pow-pos (suc m) = omega (arith, pow-pos m, pow-double m)

pub pow_le : (k d : ℕ) → 2 ^ k ≤ 2 ^ (k + d)
pow_le k zero = let e : k + 0 ≡ k = omega arith in rw e (omega arith)
pow_le k (suc d) =
    let e : k + suc d ≡ suc (k + d) = omega arith in
    rw e (omega (arith, pow_le k d, pow-double (k + d)))
