-- ===== src/Field/Multiply.antt =====
-- Multiplication and squaring are those of GF(2 ^ 127 - 1).
use zkproof_demo.Base.{ℕ, ◌+◌, ◌-◌, ◌*◌, ◌/◌, ◌%◌, ◌^◌, ◌<◌, ◌≤◌, ◌≡◌, bit_and, arith}
use zkproof_demo.Base.Bits.{bit_and_mask}
use zkproof_demo.Word.{addcarry64, shiftright128, shiftleft128, umul128}
use zkproof_demo.Word.Carry.{addcarry64_exact}
use zkproof_demo.Word.Product.{umul128_exact}
use zkproof_demo.Word.Shift.{shiftright128-63, shiftleft128-1}
use zkproof_demo.Field.{
  Felm, IsFelm, felm_value, prime1271, low63, fold_product, fpmul1271, fpsqr1271,
}

-- A double-width product below 2 ^ 254 is folded to an element of the same residue.
fold_product_lem :
    (tt1_0 tt2_0 tt2_1 tt3_0 tt3_1 product : ℕ)
    → tt1_0 < 2 ^ 64
    → tt2_0 < 2 ^ 64
    → tt2_1 < 2 ^ 64
    → tt3_0 < 2 ^ 64
    → tt1_0 + 2 ^ 64 * (tt2_0 + 2 ^ 64 * tt2_1) + 2 ^ 128 * (tt3_0 + 2 ^ 64 * tt3_1) ≡ product
    → product < 2 ^ 254
    → let c = fold_product tt1_0 tt2_0 tt2_1 tt3_0 tt3_1 in
      IsFelm c × (felm_value c % prime1271 ≡ product % prime1271)
unfolding fold_product
fold_product_lem tt1_0 tt2_0 tt2_1 tt3_0 tt3_1 product h1 h2 h2' h3 e bound =
    let cc = addcarry64 0 (shiftright128 tt2_0 tt2_1 63) (tt3_0 * 2 % 2 ^ 64) in
    let tt3 = addcarry64 cc.0 (tt2_1 / 2 ^ 63) (shiftleft128 tt3_0 tt3_1 1) in
    let cc' = addcarry64 0 tt1_0 cc.1 in
    let tt1_1 = (addcarry64 cc'.0 (bit_and tt2_0 low63) tt3.1).1 in
    omega (
      arith,
      addcarry64_exact,
      shiftright128-63 tt2_0 tt2_1,
      shiftleft128-1 tt3_0 tt3_1,
      bit_and_mask 63 tt2_0,
      bit_and_mask 63 tt1_1,
    )

-- Bounds on a product from bounds on its factors.
low_by_low : (x y : ℕ) → x < 2 ^ 64 → y < 2 ^ 64 → x * y ≤ (2 ^ 64 - 1) * (2 ^ 64 - 1)
low_by_low x y hx hy = grind arith

low_by_high : (x y : ℕ) → x < 2 ^ 64 → y < 2 ^ 63 → x * y ≤ (2 ^ 64 - 1) * (2 ^ 63 - 1)
low_by_high x y hx hy = grind arith

high_by_high : (x y : ℕ) → x < 2 ^ 63 → y < 2 ^ 63 → x * y ≤ (2 ^ 63 - 1) * (2 ^ 63 - 1)
high_by_high x y hx hy = grind arith

-- The four partial products make up the product of the values.
value_product :
    (a b : Felm)
    → felm_value a * felm_value b
      ≡ a.lo * b.lo + 2 ^ 64 * (a.lo * b.hi + a.hi * b.lo) + 2 ^ 128 * (a.hi * b.hi)
value_product a b = omega arith

ruleset words = (arith, addcarry64_exact, umul128_exact)

-- A product of two values stays below 2 ^ 254.
value_product-lt : (a b : Felm) → IsFelm a → IsFelm b → felm_value a * felm_value b < 2 ^ 254
value_product-lt a b ha hb = omega (
  arith,
  value_product a b,
  low_by_low a.lo b.lo ha.lo_fits hb.lo_fits,
  low_by_high a.lo b.hi ha.lo_fits hb.hi_fits,
  low_by_high b.lo a.hi hb.lo_fits ha.hi_fits,
  high_by_high a.hi b.hi ha.hi_fits hb.hi_fits,
)

-- `fpmul1271` of two elements of 127 bits is in 127 bits and congruent to their product modulo p.
pub fpmul1271_lem :
    (a b : Felm)
    → IsFelm a
    → IsFelm b
    → IsFelm (fpmul1271 a b)
      × (felm_value (fpmul1271 a b) % prime1271 ≡ felm_value a * felm_value b % prime1271)
unfolding fpmul1271
fpmul1271_lem a b ha hb =
    let ll = umul128 a.lo b.lo in
    let lh = umul128 a.lo b.hi in
    let hl = umul128 a.hi b.lo in
    let hh = umul128 a.hi b.hi in
    let s = addcarry64 0 lh.0 ll.1 in
    let s1 = (addcarry64 s.0 lh.1 0).1 in
    let t = addcarry64 0 s.1 hl.0 in
    let t1 = (addcarry64 t.0 s1 hl.1).1 in
    let exact : (ll.0 + 2 ^ 64 * (t.1 + 2 ^ 64 * t1) + 2 ^ 128 * (hh.0 + 2 ^ 64 * hh.1)
          ≡ felm_value a * felm_value b)
        × (ll.0 < 2 ^ 64)
        × (t.1 < 2 ^ 64)
        × (t1 < 2 ^ 64)
        × (hh.0 < 2 ^ 64) =
      omega (
        words,
        value_product a b,
        low_by_high a.lo b.hi ha.lo_fits hb.hi_fits,
        low_by_high b.lo a.hi hb.lo_fits ha.hi_fits,
        high_by_high a.hi b.hi ha.hi_fits hb.hi_fits,
      ) in
    fold_product_lem ll.0 t.1 t1 hh.0 hh.1 _ exact.1 exact.2 exact.3 exact.4 exact.0
      (value_product-lt a b ha hb)

-- `fpsqr1271` of an element of 127 bits is in 127 bits and congruent to its square modulo p.
pub fpsqr1271_lem :
    (a : Felm)
    → IsFelm a
    → IsFelm (fpsqr1271 a)
      × (felm_value (fpsqr1271 a) % prime1271 ≡ felm_value a * felm_value a % prime1271)
unfolding fpsqr1271
fpsqr1271_lem a ha =
    let ll = umul128 a.lo a.lo in
    let lh = umul128 a.lo a.hi in
    let hh = umul128 a.hi a.hi in
    let s = addcarry64 0 lh.0 ll.1 in
    let s1 = (addcarry64 s.0 lh.1 0).1 in
    let t = addcarry64 0 lh.0 s.1 in
    let t1 = (addcarry64 t.0 lh.1 s1).1 in
    let exact : (ll.0 + 2 ^ 64 * (t.1 + 2 ^ 64 * t1) + 2 ^ 128 * (hh.0 + 2 ^ 64 * hh.1)
          ≡ felm_value a * felm_value a)
        × (ll.0 < 2 ^ 64)
        × (t.1 < 2 ^ 64)
        × (t1 < 2 ^ 64)
        × (hh.0 < 2 ^ 64) =
      omega (
        words,
        value_product a a,
        low_by_high a.lo a.hi ha.lo_fits ha.hi_fits,
        high_by_high a.hi a.hi ha.hi_fits ha.hi_fits,
      ) in
    fold_product_lem ll.0 t.1 t1 hh.0 hh.1 _ exact.1 exact.2 exact.3 exact.4 exact.0
      (value_product-lt a a ha ha)
