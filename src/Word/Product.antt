-- ===== src/Word/Product.antt =====
-- The product of two words from 32-bit halves is exact.
use zkproof_demo.Base.{
  ℕ, bit_or, bit_and, refl, ◌+◌, ◌*◌, ◌-◌, ◌/◌, ◌%◌, ◌^◌, ◌≤◌, ◌<◌, ◌≡◌, ap₂, ◌∙◌, arith,
}
use zkproof_demo.Base.Bits.{bit_or_low, bit_and_mask}
use zkproof_demo.Word.{umul128, ◌<<<◌}

-- A product of two 32-bit halves leaves room for two more of them in 64 bits.
half_product : (x y : ℕ) → x < 2 ^ 32 → y < 2 ^ 32 → x * y ≤ (2 ^ 32 - 1) * (2 ^ 32 - 1)
half_product x y hx hy = grind arith

multiply_out :
    (x y u v : ℕ)
    → (x + 2 ^ 32 * y) * (u + 2 ^ 32 * v) ≡ x * u + 2 ^ 32 * (x * v + y * u) + 2 ^ 64 * (y * v)
multiply_out x y u v = omega arith

split_product :
    (a b : ℕ)
    → a * b
      ≡ (a % 2 ^ 32) * (b % 2 ^ 32)
        + 2 ^ 32 * ((a % 2 ^ 32) * (b / 2 ^ 32) + (a / 2 ^ 32) * (b % 2 ^ 32))
        + 2 ^ 64 * ((a / 2 ^ 32) * (b / 2 ^ 32))
split_product a b =
    ap₂ ◌*◌ (split a) (split b) ∙ multiply_out (a % 2 ^ 32) (a / 2 ^ 32) (b % 2 ^ 32) (b / 2 ^ 32)
  where
    split : (n : ℕ) → n ≡ n % 2 ^ 32 + 2 ^ 32 * (n / 2 ^ 32)
    split n = omega arith

-- `(l & 0xFFFFFFFF) | (m << 32)`
low_word : (l m : ℕ) → bit_or (bit_and l 0xFFFFFFFF) (m <<< 32) ≡ m % 2 ^ 32 * 2 ^ 32 + l % 2 ^ 32
low_word l m =
    rw (bit_and_mask 32 l, shifted, bit_or_low 32 (m % 2 ^ 32) (l % 2 ^ 32) (omega arith)) refl
  where
    shifted : m <<< 32 ≡ m % 2 ^ 32 * 2 ^ 32
    shifted = omega arith

-- With the partial products bounded, no intermediate sum of `umul128` wraps.
umul128_parts :
    (a b : ℕ)
    → a < 2 ^ 64
    → b < 2 ^ 64
    → let ll = (a % 2 ^ 32) * (b % 2 ^ 32) in
      let lh = (a % 2 ^ 32) * (b / 2 ^ 32) in
      let hl = (a / 2 ^ 32) * (b % 2 ^ 32) in
      let hh = (a / 2 ^ 32) * (b / 2 ^ 32) in
      let mid = ll / 2 ^ 32 + lh % 2 ^ 32 + hl % 2 ^ 32 in
      ((umul128 a b).0 ≡ mid % 2 ^ 32 * 2 ^ 32 + ll % 2 ^ 32)
      × ((umul128 a b).1 ≡ hh + lh / 2 ^ 32 + hl / 2 ^ 32 + mid / 2 ^ 32)
unfolding umul128
umul128_parts a b ha hb =
    let ll = half_product (a % 2 ^ 32) (b % 2 ^ 32) (omega arith) (omega arith) in
    let lh = half_product (a % 2 ^ 32) (b / 2 ^ 32) (omega arith) (omega arith) in
    let hl = half_product (a / 2 ^ 32) (b % 2 ^ 32) (omega arith) (omega arith) in
    let hh = half_product (a / 2 ^ 32) (b / 2 ^ 32) (omega arith) (omega arith) in
    (low_word _ _ ∙ omega arith, omega arith)

-- For two words, the low word that `umul128` returns and the high word behind `*hi` are words and
-- make up the exact product.
pub umul128_exact :
    (a b : ℕ)
    → a < 2 ^ 64
    → b < 2 ^ 64
    → ((umul128 a b).0 + 2 ^ 64 * (umul128 a b).1 ≡ a * b)
      × ((umul128 a b).0 < 2 ^ 64)
      × ((umul128 a b).1 < 2 ^ 64)
umul128_exact a b ha hb = omega (
  arith,
  umul128_parts a b ha hb,
  split_product a b,
  half_product (a % 2 ^ 32) (b % 2 ^ 32) (omega arith) (omega arith),
  half_product (a % 2 ^ 32) (b / 2 ^ 32) (omega arith) (omega arith),
  half_product (a / 2 ^ 32) (b % 2 ^ 32) (omega arith) (omega arith),
  half_product (a / 2 ^ 32) (b / 2 ^ 32) (omega arith) (omega arith),
)
