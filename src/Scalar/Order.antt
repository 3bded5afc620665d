-- ===== src/Scalar/Order.antt =====
-- The order of the curve, its Montgomery constant, and what holds of numbers by them.
use zkproof_demo.Base.{ℕ, ◌+◌, ◌*◌, ◌%◌, ◌^◌, ◌<◌, ◌≡◌, ◌⊎◌, inl, inr, refl, replicate, arith}
use zkproof_demo.Scalar.{value, curve_order, montgomery_small_r_prime}
use zkproof_demo.Scalar.Product.{AllWords, no_words, one_word}
use zkproof_demo.Scalar.Limbs.{span}

abbrev pub order : ℕ
order = 0x0029CBC14E5E0A72F05397829CBC14E5DFBD004DFE0F79992FB2540EC7768CE7

pub curve_order-value : value curve_order ≡ order
unfolding value
curve_order-value = refl

abbrev pub small_r_prime_value : ℕ
small_r_prime_value = 0xF32702FDAFC1C074BCE409ED76B5DB21D75E78B8D1FCDCF3E12FE5F079BC3929

pub montgomery_small_r_prime-value : value montgomery_small_r_prime ≡ small_r_prime_value
unfolding value
montgomery_small_r_prime-value = refl

pub zeros-value : value (replicate 4 0) ≡ 0
unfolding value
zeros-value = refl

-- The order times `MONTGOMERY_SMALL_R_PRIME` is -1 modulo 2 ^ 256.
small_r_prime : (value montgomery_small_r_prime * order + 1) % 2 ^ 256 ≡ 0
unfolding value
small_r_prime = refl

pub curve_order-AllWords : AllWords curve_order
curve_order-AllWords =
    one_word (omega arith)
      (one_word (omega arith) (one_word (omega arith) (one_word (omega arith) no_words)))

pub small_r_prime-AllWords : AllWords montgomery_small_r_prime
small_r_prime-AllWords =
    one_word (omega arith)
      (one_word (omega arith) (one_word (omega arith) (one_word (omega arith) no_words)))

pub zeros-AllWords : AllWords (replicate 4 0)
zeros-AllWords =
    one_word (omega arith)
      (one_word (omega arith) (one_word (omega arith) (one_word (omega arith) no_words)))

pub span_four : span 4 ≡ 2 ^ 256
unfolding span
span_four = refl

pub span_eight : span 8 ≡ 2 ^ 512
unfolding span
span_eight = refl

-- The low half of the sum vanishes, and its high half is the sum by 2 ^ 256.
pub exact_sum :
    (lo hi q over t0 t1 carry : ℕ)
    → q + 2 ^ 256 * over ≡ lo * small_r_prime_value
    → t0 + 2 ^ 256 * t1 + 2 ^ 512 * carry ≡ lo + 2 ^ 256 * hi + q * order
    → lo < 2 ^ 256
    → q < 2 ^ 256
    → t0 < 2 ^ 256
    → lo + 2 ^ 256 * hi < 2 ^ 256 * order
    → (2 ^ 256 * t1 ≡ lo + 2 ^ 256 * hi + q * order) × (t1 < 2 * order) × (carry ≡ 0)
exact_sum lo hi q over t0 t1 carry eq et hl hq ht small = omega arith

-- A sum that is a number plus a multiple of the order, with the order taken off where it fits.
pub reduced_value :
    (p q t1 r : ℕ)
    → 2 ^ 256 * t1 ≡ p + q * order
    → ((r ≡ t1) ⊎ (r + order ≡ t1))
    → (2 ^ 256 * r) % order ≡ p % order
reduced_value p q t1 r e (inl h) = omega arith
reduced_value p q t1 r e (inr h) = omega arith
