-- ===== src/Quadratic.antt =====
-- The quadratic extension of crypto/src/riscv_fourq_verify.c (`f2elm_t`): pairs of field
-- elements, `c0` for `a[0]` and `c1` for `a[1]`. As in Field, a result is returned, and an
-- argument that the C call also names as its result is read before it is written.
pub mod Laws
pub mod Ring
pub mod Rules
pub mod Range
use zkproof_demo.Base.{ℕ}
use zkproof_demo.Field.{
  Felm, IsFelm, fpadd1271, fpsub1271, fpneg1271, fpmul1271, fpsqr1271, fpdiv1271,
}

pub record F2elm : Type 0 where
  pub c0 : Felm
  pub c1 : Felm

pub record IsF2elm (a : F2elm) : Type 0 where
  pub c0_fits : IsFelm a.c0
  pub c1_fits : IsFelm a.c1

abbrev pub fp2_one : F2elm
fp2_one = record { c0 = record { lo = 1; hi = 0 }; c1 = record { lo = 0; hi = 0 } }

abbrev pub fp2_zero : F2elm
fp2_zero = record { c0 = record { lo = 0; hi = 0 }; c1 = record { lo = 0; hi = 0 } }

-- A constant of the source that is declared as four words and cast to `felm_t*`.
abbrev pub f2elm_of : ℕ → ℕ → ℕ → ℕ → F2elm
f2elm_of w0 w1 w2 w3 = record { c0 = record { lo = w0; hi = w1 }; c1 = record { lo = w2; hi = w3 } }

unfoldable pub fp2div1271 : F2elm → F2elm
fp2div1271 a = record { c0 = fpdiv1271 a.c0; c1 = fpdiv1271 a.c1 }

unfoldable pub fp2neg1271 : F2elm → F2elm
fp2neg1271 a = record { c0 = fpneg1271 a.c0; c1 = fpneg1271 a.c1 }

-- `fpneg1271(a[1])`: the conjugate.
unfoldable pub fp2conj1271 : F2elm → F2elm
fp2conj1271 a = record a { c1 = fpneg1271 a.c1 }

unfoldable pub fp2sqr1271 : F2elm → F2elm
fp2sqr1271 a =
    let t1 = fpadd1271 a.c0 a.c1 in
    let t2 = fpsub1271 a.c0 a.c1 in
    let t3 = fpmul1271 a.c0 a.c1 in record { c0 = fpmul1271 t1 t2; c1 = fpadd1271 t3 t3 }

unfoldable pub fp2mul1271 : F2elm → F2elm → F2elm
fp2mul1271 a b =
    let t1 = fpmul1271 a.c0 b.c0 in
    let t2 = fpmul1271 a.c1 b.c1 in
    let t3 = fpadd1271 a.c0 a.c1 in
    let t4 = fpadd1271 b.c0 b.c1 in
    let t3 = fpmul1271 t3 t4 in
    let c0 = fpsub1271 t1 t2 in let t3 = fpsub1271 t3 t1 in record { c0 = c0; c1 = fpsub1271 t3 t2 }

unfoldable pub fp2add1271 : F2elm → F2elm → F2elm
fp2add1271 a b = record { c0 = fpadd1271 a.c0 b.c0; c1 = fpadd1271 a.c1 b.c1 }

unfoldable pub fp2sub1271 : F2elm → F2elm → F2elm
fp2sub1271 a b = record { c0 = fpsub1271 a.c0 b.c0; c1 = fpsub1271 a.c1 b.c1 }

-- The new `a` first, then `c`.
unfoldable pub fp2addsub1271 : F2elm → F2elm → F2elm × F2elm
fp2addsub1271 a b = let a' = fp2add1271 a a in (a', fp2sub1271 a' b)
