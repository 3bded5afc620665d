-- ===== src/Tests/Scalars.antt =====
-- Scalars at concrete inputs: `multiply`, `mul_truncate` and `wNAF_recode`.
use zkproof_demo.Base.{◌+◌, ◌*◌, ◌/◌, ◌%◌, ◌^◌, ◌≤◌, ◌<◌, ◌≡◌, refl, length, arith}
use zkproof_demo.Scalar.{
  value, curve_order, ell1, multiply, mul_truncate, montgomery_multiply_mod_order,
}
use zkproof_demo.Scalar.Product.{AllWords, no_words, one_word, multiply_lem, mul_truncate_lem}
use zkproof_demo.Scalar.Order.{order, curve_order-AllWords}
use zkproof_demo.Scalar.Montgomery.{montgomery_multiply_mod_order_lem}
use zkproof_demo.Scalar.Recode.{recode_loop, wnaf_recode}
use zkproof_demo.Scalar.Recode.Digits.{sum_plus, sum_minus, AllDigits}
use zkproof_demo.Scalar.Recode.Loop.{wnaf_recode_lem}

wnaf_recode_lem_example :
    (length (recode_loop 65 4 0xFFFFFFFFFFFFFFFF) ≤ 65)
    × (length (wnaf_recode 0xFFFFFFFFFFFFFFFF 4) ≡ 65)
    × (0xFFFFFFFFFFFFFFFF + sum_minus (wnaf_recode 0xFFFFFFFFFFFFFFFF 4)
        ≡ sum_plus (wnaf_recode 0xFFFFFFFFFFFFFFFF 4))
    × AllDigits 4 (wnaf_recode 0xFFFFFFFFFFFFFFFF 4)
wnaf_recode_lem_example =
    wnaf_recode_lem 0xFFFFFFFFFFFFFFFF 4 (omega arith) (omega arith) (omega arith)

ell1-AllWords : AllWords ell1
ell1-AllWords =
    one_word (omega arith)
      (one_word (omega arith) (one_word (omega arith) (one_word (omega arith) no_words)))

multiply_lem_example :
    (value (multiply curve_order ell1) ≡ value curve_order * value ell1)
    × (length (multiply curve_order ell1) ≡ 8)
    × AllWords (multiply curve_order ell1)
multiply_lem_example = multiply_lem curve_order ell1 refl refl curve_order-AllWords ell1-AllWords

mul_truncate_lem_example :
    mul_truncate curve_order ell1 ≡ value curve_order * value ell1 / 2 ^ 256 % 2 ^ 64
mul_truncate_lem_example =
    mul_truncate_lem curve_order ell1 refl refl curve_order-AllWords ell1-AllWords

ell1-fits : value ell1 * value ell1 < 2 ^ 256 * order
unfolding value
ell1-fits = omega arith

montgomery_multiply_mod_order_lem_example :
    (value (montgomery_multiply_mod_order ell1 ell1) < order)
    × ((2 ^ 256 * value (montgomery_multiply_mod_order ell1 ell1)) % order
        ≡ (value ell1 * value ell1) % order)
montgomery_multiply_mod_order_lem_example =
    montgomery_multiply_mod_order_lem ell1 ell1 refl refl ell1-AllWords ell1-AllWords ell1-fits
