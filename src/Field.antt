-- ===== src/Field.antt =====
-- The arithmetic of GF(2 ^ 127 - 1) of crypto/src/riscv_fourq_verify.c, on two words an element
-- (`felm_t`). A result that C stores through its last argument is returned. Each function reads
-- a limb of an argument only before it writes that limb, so a call whose result aliases an
-- argument (`fpadd1271(t0, t1, t0)`) is a plain call here. The portable branch of the file is
-- modelled (ZKQ_BIGINT2 undefined); the bigint shims of the other branch are Rust.
pub mod Linear
pub mod Multiply
pub mod Modular
pub mod Power
pub mod Range
use zkproof_demo.Base.{ℕ, zero, suc, ◌+◌, ◌-◌, ◌*◌, ◌^◌, ◌<◌, bit_and}
use zkproof_demo.Word.{
  sub64, not64, ◌<<<◌, ◌>>>◌, umul128, addcarry64, subborrow64, shiftright128, shiftleft128,
}

-- `felm_t`: `lo` is `a[0]` and `hi` is `a[1]`.
pub record Felm : Type 0 where
  pub lo : ℕ
  pub hi : ℕ

abbrev pub prime1271 : ℕ
prime1271 = 2 ^ 127 - 1

abbrev pub low63 : ℕ
low63 = 0x7FFFFFFFFFFFFFFF

-- The number that two limbs stand for.
abbrev pub felm_value : Felm → ℕ
felm_value a = a.lo + 2 ^ 64 * a.hi

-- The range in which the field operations keep their elements: 127 bits.
pub record IsFelm (a : Felm) : Type 0 where
  pub lo_fits : a.lo < 2 ^ 64
  pub hi_fits : a.hi < 2 ^ 63

unfoldable pub mod1271 : Felm → Felm
mod1271 a =
    let (b, a0) = subborrow64 0 a.lo 0xFFFFFFFFFFFFFFFF in
    let a1 = (subborrow64 b a.hi low63).1 in
    let mask = sub64 0 (a1 >>> 63) in
    let (b', a0') = addcarry64 0 a0 mask in
    record { lo = a0'; hi = (addcarry64 b' a1 (bit_and low63 mask)).1 }

unfoldable pub fpadd1271 : Felm → Felm → Felm
fpadd1271 a b =
    let (cc, c0) = addcarry64 0 a.lo b.lo in
    let c1 = (addcarry64 cc a.hi b.hi).1 in
    let (cc', c0') = addcarry64 0 c0 (c1 >>> 63) in
    record { lo = c0'; hi = (addcarry64 cc' (bit_and c1 low63) 0).1 }

unfoldable pub fpsub1271 : Felm → Felm → Felm
fpsub1271 a b =
    let (bb, c0) = subborrow64 0 a.lo b.lo in
    let c1 = (subborrow64 bb a.hi b.hi).1 in
    let (bb', c0') = subborrow64 0 c0 (c1 >>> 63) in
    record { lo = c0'; hi = (subborrow64 bb' (bit_and c1 low63) 0).1 }

unfoldable pub fpneg1271 : Felm → Felm
fpneg1271 a = record { lo = not64 a.lo; hi = sub64 low63 a.hi }

-- The common end of `fpmul1271` and `fpsqr1271`: the double-width product, of which `tt1_0` is the
-- lowest word, `tt2` the middle 128 bits and `tt3` the product of the high limbs, is folded
-- at bit 127.
unfoldable pub fold_product : ℕ → ℕ → ℕ → ℕ → ℕ → Felm
fold_product tt1_0 tt2_0 tt2_1 tt3_0 tt3_1 =
    let tt3_1' = shiftleft128 tt3_0 tt3_1 1 in
    let (cc, tt3_0') = addcarry64 0 (shiftright128 tt2_0 tt2_1 63) (tt3_0 <<< 1) in
    let tt3_1'' = (addcarry64 cc (tt2_1 >>> 63) tt3_1').1 in
    let (cc', tt1_0') = addcarry64 0 tt1_0 tt3_0' in
    let tt1_1 = (addcarry64 cc' (bit_and tt2_0 low63) tt3_1'').1 in
    let (cc'', c0) = addcarry64 0 tt1_0' (tt1_1 >>> 63) in
    record { lo = c0; hi = (addcarry64 cc'' (bit_and tt1_1 low63) 0).1 }

unfoldable pub fpmul1271 : Felm → Felm → Felm
fpmul1271 a b =
    let (tt1_0, tt3_0) = umul128 a.lo b.lo in
    let (tt2_0, tt2_1) = umul128 a.lo b.hi in
    let (cc, tt2_0') = addcarry64 0 tt2_0 tt3_0 in
    let tt2_1' = (addcarry64 cc tt2_1 0).1 in
    let (tt3_0', tt3_1) = umul128 a.hi b.lo in
    let (cc', tt2_0'') = addcarry64 0 tt2_0' tt3_0' in
    let tt2_1'' = (addcarry64 cc' tt2_1' tt3_1).1 in
    let (tt3_0'', tt3_1') = umul128 a.hi b.hi in fold_product tt1_0 tt2_0'' tt2_1'' tt3_0'' tt3_1'

unfoldable pub fpsqr1271 : Felm → Felm
fpsqr1271 a =
    let (tt1_0, tt3_0) = umul128 a.lo a.lo in
    let (tt2_0, tt2_1) = umul128 a.lo a.hi in
    let (cc, tt3_0') = addcarry64 0 tt2_0 tt3_0 in
    let tt3_1 = (addcarry64 cc tt2_1 0).1 in
    let (cc', tt2_0') = addcarry64 0 tt2_0 tt3_0' in
    let tt2_1' = (addcarry64 cc' tt2_1 tt3_1).1 in
    let (tt3_0'', tt3_1') = umul128 a.hi a.hi in fold_product tt1_0 tt2_0' tt2_1' tt3_0'' tt3_1'

-- A loop of `n` calls of `fpsqr1271` on one element.
unfoldable pub sqr_times : ℕ → Felm → Felm
sqr_times zero a = a
sqr_times (suc n) a = sqr_times n (fpsqr1271 a)

unfoldable pub fpexp1251 : Felm → Felm
fpexp1251 a =
    let t2 = fpmul1271 a (fpsqr1271 a) in
    let t3 = fpmul1271 t2 (fpsqr1271 (fpsqr1271 t2)) in
    let t4 = fpmul1271 t3 (fpsqr1271 (fpsqr1271 (fpsqr1271 (fpsqr1271 t3)))) in
    let t5 = fpmul1271 t4 (sqr_times 7 (fpsqr1271 t4)) in
    let t2' = fpmul1271 t5 (sqr_times 15 (fpsqr1271 t5)) in
    let t1 = fpmul1271 t2' (sqr_times 31 (fpsqr1271 t2')) in
    let t1 = fpmul1271 (sqr_times 32 t1) t2' in
    let t1 = fpmul1271 t5 (sqr_times 16 t1) in
    let t1 = fpmul1271 t4 (sqr_times 8 t1) in
    let t1 = fpmul1271 t3 (sqr_times 4 t1) in fpmul1271 a (fpsqr1271 t1)

unfoldable pub fpinv1271 : Felm → Felm
fpinv1271 a = fpmul1271 a (fpsqr1271 (fpsqr1271 (fpexp1251 a)))

-- The halving that `fp2div1271` and `decode` write out for one element.
unfoldable pub fpdiv1271 : Felm → Felm
fpdiv1271 a =
    let mask = sub64 0 (bit_and 1 a.lo) in
    let (cc, temp0) = addcarry64 0 a.lo mask in
    let temp1 = (addcarry64 cc a.hi (mask >>> 1)).1 in
    record { lo = shiftright128 temp0 temp1 1; hi = temp1 >>> 1 }
