-- ===== src/Scalar/Montgomery.antt =====
-- `Montgomery_multiply_mod_order` multiplies modulo the curve order, off by the factor 2 ^ 256.
use zkproof_demo.Base.{
  ℕ, ◌+◌, ◌-◌, ◌*◌, ◌%◌, ◌^◌, ◌<◌, ◌≡◌, inl, inr, refl, sym, ap, ◌∙◌, ◌==◌, ◌&&◌, true, Bool-cases,
  length-append, if◌then◌else◌, ne→==, eq→==, List, [], ◌∷◌, ◌++◌, length, length-take, length-drop,
  replicate, take, drop, get_or, arith,
}
use zkproof_demo.Scalar.{
  value, curve_order, montgomery_small_r_prime, multiply, low_rows, add_limbs, sub_limbs,
  montgomery_product, montgomery_reduce, montgomery_multiply_mod_order,
}
use zkproof_demo.Scalar.Product.{AllWords, one_word, multiply_lem}
use native.Mathlib.Decide.{ℕ_discrete}
use zkproof_demo.Scalar.Limbs.{
  span, low_rows-Low, add_limbs-Sum, sub_limbs-Difference, AllWords-take, AllWords-drop,
  value-split, value-lt,
}
use mathlib.Core.Path.{subst}
use zkproof_demo.Scalar.Order.{
  order, small_r_prime_value, curve_order-value, montgomery_small_r_prime-value, zeros-value,
  curve_order-AllWords, small_r_prime-AllWords, zeros-AllWords, span_four, span_eight, exact_sum,
  reduced_value,
}

-- A number of four limbs after the conditional addition of the order.
record Reduced (p : ℕ) (r : List ℕ) : Type 0 where
  below : value r < order
  congruent : (2 ^ 256 * value r) % order ≡ p % order

four_span : (n x : ℕ) → n ≡ 4 → span n * x ≡ 2 ^ 256 * x
four_span n x e = ap (λ k. span k * x) e ∙ ap (λ t. t * x) span_four

four_below : (xs : List ℕ) → length xs ≡ 4 → AllWords xs → value xs < 2 ^ 256
four_below xs e h = subst (λ t. value xs < t) (ap span e ∙ span_four) (value-lt xs h)

-- The end of the reduction: `top` is the high half of the sum.
subtract_order :
    (p q carry : ℕ) (top : List ℕ)
    → length top ≡ 4
    → AllWords top
    → 2 ^ 256 * value top ≡ p + q * order
    → value top < 2 * order
    → carry ≡ 0
    → Reduced p (
        if (carry + 256 - (sub_limbs 0 top curve_order).1) % 256 == 0
        then (sub_limbs 0 top curve_order).0
        else (add_limbs 0 (sub_limbs 0 top curve_order).0 curve_order).0)
subtract_order p q carry top ltop wtop sum small none =
    let d = sub_limbs-Difference 0 top curve_order (omega arith) ltop wtop curve_order-AllWords in
    let mc = (sub_limbs 0 top curve_order).0 in
    let lmc : length mc ≡ 4 = d.diff_length ∙ ltop in
    let a = add_limbs-Sum 0 mc curve_order (omega arith) lmc d.diff_words curve_order-AllWords in
    let sd = four_span (length top) (sub_limbs 0 top curve_order).1 ltop in
    let sa = four_span (length mc) (add_limbs 0 mc curve_order).1 lmc in
    let bmc = four_below mc lmc d.diff_words in
    let ba = four_below (add_limbs 0 mc curve_order).0 (a.sum_length ∙ lmc) a.sum_words in
    elim (ℕ_discrete (sub_limbs 0 top curve_order).1 0) [
      | yes z ↦
          rw (eq→== ((carry + 256 - (sub_limbs 0 top curve_order).1) % 256) 0 (omega arith))
            (record {
              below = omega (arith, d.diff_value, sd, curve_order-value);
              congruent =
                  reduced_value p q (value top) (value mc) sum
                    (inr (omega (arith, d.diff_value, sd, curve_order-value)));
            })
      | no nz ↦
          let one = d.diff_borrow in
          rw (ne→== ((carry + 256 - (sub_limbs 0 top curve_order).1) % 256) 0 (λ z. omega arith))
            (record {
              below =
                  omega (arith, d.diff_value, sd, a.sum_value, a.sum_carry, sa, curve_order-value);
              congruent = reduced_value p q (value top) (value (add_limbs 0 mc curve_order).0) sum (
                  inl (
                    omega
                      (arith, d.diff_value, sd, a.sum_value, a.sum_carry, sa, curve_order-value)));
            })
    ]

montgomery_reduce-Reduced :
    (p : List ℕ)
    → length p ≡ 8
    → AllWords p
    → value p < 2 ^ 256 * order
    → Reduced (value p) (montgomery_reduce p)
unfolding montgomery_reduce
montgomery_reduce-Reduced p lp hp small =
    let lo = take 4 p in
    let llo : length lo ≡ 4 = omega (arith, length-take 4 p) in
    let wlo = AllWords-take 4 p hp in
    let l =
      low_rows-Low lo montgomery_small_r_prime (replicate 4 0) llo (omega arith) wlo
        small_r_prime-AllWords zeros-AllWords in
    let q = low_rows lo montgomery_small_r_prime (replicate 4 0) in
    let lq : length q ≡ 4 = l.low_length ∙ llo in
    let m = multiply_lem q curve_order lq refl l.low_words curve_order-AllWords in
    let a = add_limbs-Sum 0 p (multiply q curve_order) (omega arith) (lp ∙ sym m.1) hp m.2 in
    let temp = (add_limbs 0 p (multiply q curve_order)).0 in
    let carry = (add_limbs 0 p (multiply q curve_order)).1 in
    let lt : length temp ≡ 8 = a.sum_length ∙ lp in
    let top = drop 4 temp in
    let low = take 4 temp in
    let wtop = AllWords-drop 4 temp a.sum_words in
    let eq : value q + 2 ^ 256 * l.over ≡ value lo * small_r_prime_value = omega (
      arith,
      l.low_value,
      zeros-value,
      four_span (length lo) l.over llo,
      ap (λ t. value lo * t) montgomery_small_r_prime-value,
    ) in
    let split = value-split 4 p (omega arith) in
    let split' = value-split 4 temp (omega arith) in
    let halves = four_span 4 (value (drop 4 p)) refl in
    let halves' = four_span 4 (value top) refl in
    let total : value low + 2 ^ 256 * value top + 2 ^ 512 * carry
        ≡ value lo + 2 ^ 256 * value (drop 4 p) + value q * order =
      omega (
        arith,
        a.sum_value,
        m.0,
        split,
        split',
        halves,
        halves',
        ap (λ k. span k * carry) lp ∙ ap (λ t. t * carry) span_eight,
        ap (λ t. value q * t) curve_order-value,
      ) in
    let e =
      exact_sum (value lo) (value (drop 4 p)) (value q) l.over (value low) (value top) carry eq
        total (four_below lo llo wlo) (four_below q lq l.low_words)
        (four_below low (omega (arith, length-take 4 temp)) (AllWords-take 4 temp a.sum_words))
        (omega (arith, split, halves)) in
    subtract_order (value p) (value q) carry top (omega (arith, length-drop 4 temp)) wtop
      (omega (arith, e.0, split, halves)) e.1 e.2

AllWords-append : (xs ys : List ℕ) → AllWords xs → AllWords ys → AllWords (xs ++ ys)
AllWords-append [] ys hx hy = hy
AllWords-append (x ∷ xs) ys (one_word h hx) hy = one_word h (AllWords-append xs ys hx hy)

value-pad : (xs : List ℕ) → value (xs ++ replicate 4 0) ≡ value xs
unfolding value
value-pad [] = refl
value-pad (x ∷ xs) = ap (λ t. x + 2 ^ 64 * t) (value-pad xs)

is_one :
    (b : List ℕ)
    → length b ≡ 4
    → (get_or b 0 0 == 1) && (get_or b 1 0 == 0) && (get_or b 2 0 == 0) && (get_or b 3 0 == 0)
      ≡ true
    → value b ≡ 1
unfolding value
is_one (b0 ∷ b1 ∷ b2 ∷ b3 ∷ []) l h = ground arith
is_one [] l h = absurd (omega arith)
is_one (_ ∷ []) l h = absurd (omega arith)
is_one (_ ∷ _ ∷ []) l h = absurd (omega arith)
is_one (_ ∷ _ ∷ _ ∷ []) l h = absurd (omega arith)
is_one (_ ∷ _ ∷ _ ∷ _ ∷ _ ∷ _) l h = absurd (omega arith)

record Product (p a b : List ℕ) : Type 0 where
  product_length : length p ≡ 8
  product_words : AllWords p
  product_value : value p ≡ value a * value b

montgomery_product-Product :
    (a b : List ℕ)
    → length a ≡ 4
    → length b ≡ 4
    → AllWords a
    → AllWords b
    → Product (montgomery_product a b) a b
unfolding montgomery_product
montgomery_product-Product a b la lb ha hb =
    let m = multiply_lem a b la lb ha hb in
    elim (Bool-cases
      ((get_or b 0 0 == 1) && (get_or b 1 0 == 0) && (get_or b 2 0 == 0) && (get_or b 3 0 == 0))) [
        | inl h ↦ rw h (record {
          product_length = omega (arith, length-append a (replicate 4 0));
          product_words = AllWords-append a (replicate 4 0) ha zeros-AllWords;
          product_value = omega (arith, value-pad a, ap (λ t. value a * t) (is_one b lb h));
        })
        | inr h ↦ rw h (record { product_length = m.1; product_words = m.2; product_value = m.0 })
      ]

-- For two numbers of four limbs whose product is below 2 ^ 256 times the order,
-- `Montgomery_multiply_mod_order` gives a number below the order that is, times 2 ^ 256, their
-- product modulo the order.
pub montgomery_multiply_mod_order_lem :
    (a b : List ℕ)
    → length a ≡ 4
    → length b ≡ 4
    → AllWords a
    → AllWords b
    → value a * value b < 2 ^ 256 * order
    → (value (montgomery_multiply_mod_order a b) < order)
      × ((2 ^ 256 * value (montgomery_multiply_mod_order a b)) % order
          ≡ (value a * value b) % order)
unfolding montgomery_multiply_mod_order
montgomery_multiply_mod_order_lem a b la lb ha hb small =
    let p = montgomery_product-Product a b la lb ha hb in
    let fits = subst (λ t. t < 2 ^ 256 * order) (sym p.product_value) small in
    let r =
      montgomery_reduce-Reduced (montgomery_product a b) p.product_length p.product_words fits in
    (r.below, r.congruent ∙ ap (λ t. t % order) p.product_value)
