-- ===== src/Curve.antt =====
-- The group operations of FourQ in crypto/src/riscv_fourq_verify.c. A function that updates the point
-- behind `P` returns the new point; an argument is named for the state that it is read in.
pub mod Points
pub mod Endomorphisms
pub mod Validate
pub mod Range
pub mod Law
pub mod Sum
pub mod Double
pub mod Multiple
pub mod Group
use zkproof_demo.Base.{ℕ, ◌+◌, ◌==◌, ◌&&◌, ◌||◌, Bool, bit_or, true, false}
use zkproof_demo.Word.{add64}
use zkproof_demo.Field.{Felm, mod1271, fpadd1271, fpneg1271, fpmul1271, fpsqr1271, fpinv1271}
use zkproof_demo.Quadratic.{
  F2elm, f2elm_of, fp2_one, fp2neg1271, fp2conj1271, fp2sqr1271, fp2mul1271, fp2add1271, fp2sub1271,
  fp2addsub1271,
}
use Points.{PointAffine, PointExtproj, PointExtprojPrecomp, PointPrecomp}

abbrev pub parameter_d : F2elm
parameter_d = f2elm_of 0x0000000000000142 0x00000000000000E4 0xB3821488F1FC0C8D 0x5E472F846657E0FC

-- The normalised point; `P->z`, which the C function leaves changed, is not read again.
unfoldable pub eccnorm : PointExtproj → PointAffine
eccnorm p =
    let t1 = fpadd1271 (fpsqr1271 p.z.c0) (fpsqr1271 p.z.c1) in
    let t1 = fpinv1271 t1 in
    let z1 = fpneg1271 p.z.c1 in
    let z : F2elm = record { c0 = fpmul1271 p.z.c0 t1; c1 = fpmul1271 z1 t1 } in
    let x = fp2mul1271 p.x z in
    let y = fp2mul1271 p.y z in
    record {
      x = record { c0 = mod1271 x.c0; c1 = mod1271 x.c1 };
      y = record { c0 = mod1271 y.c0; c1 = mod1271 y.c1 };
    }

unfoldable pub r1_to_r2 : PointExtproj → PointExtprojPrecomp
r1_to_r2 p =
    let t2 = fp2add1271 p.ta p.ta in
    let t2' = fp2mul1271 t2 p.tb in
    record {
      xy = fp2add1271 p.x p.y;
      yx = fp2sub1271 p.y p.x;
      z2 = fp2add1271 p.z p.z;
      t2 = fp2mul1271 t2' parameter_d;
    }

unfoldable pub r1_to_r3 : PointExtproj → PointExtprojPrecomp
r1_to_r3 p = record {
  xy = fp2add1271 p.x p.y;
  yx = fp2sub1271 p.y p.x;
  t2 = fp2mul1271 p.ta p.tb;
  z2 = p.z;
}

-- `ta` and `tb` of the result are those that the target had.
unfoldable pub r2_to_r4 : PointExtprojPrecomp → PointExtproj → PointExtproj
r2_to_r4 p q = record q { x = fp2sub1271 p.xy p.yx; y = fp2add1271 p.xy p.yx; z = p.z2 }

unfoldable pub eccdouble : PointExtproj → PointExtproj
eccdouble p =
    let t1 = fp2sqr1271 p.x in
    let t2 = fp2sqr1271 p.y in
    let x = fp2add1271 p.x p.y in
    let tb = fp2add1271 t1 t2 in
    let t1 = fp2sub1271 t2 t1 in
    let ta = fp2sqr1271 x in
    let t2 = fp2sqr1271 p.z in
    let ta = fp2sub1271 ta tb in
    let t2' = (fp2addsub1271 t2 t1).1 in
    record { y = fp2mul1271 t1 tb; x = fp2mul1271 t2' ta; z = fp2mul1271 t1 t2'; ta = ta; tb = tb }

unfoldable pub eccadd_core : PointExtprojPrecomp → PointExtprojPrecomp → PointExtproj
eccadd_core p q =
    let z = fp2mul1271 p.t2 q.t2 in
    let t1 = fp2mul1271 p.z2 q.z2 in
    let x = fp2mul1271 p.xy q.xy in
    let y = fp2mul1271 p.yx q.yx in
    let t2 = fp2sub1271 t1 z in
    let t1 = fp2add1271 t1 z in
    let tb = fp2sub1271 x y in
    let ta = fp2add1271 x y in
    record { x = fp2mul1271 tb t2; z = fp2mul1271 t1 t2; y = fp2mul1271 ta t1; ta = ta; tb = tb }

-- `eccadd(Q, P)`
unfoldable pub eccadd : PointExtprojPrecomp → PointExtproj → PointExtproj
eccadd q p = eccadd_core q (r1_to_r3 p)

unfoldable pub point_setup : PointAffine → PointExtproj
point_setup p = record { x = p.x; y = p.y; ta = p.x; tb = p.y; z = fp2_one }

-- A coordinate that is 0 or p, by its limbs.
unfoldable pub limbs_vanish : Felm → Bool
limbs_vanish t = (bit_or t.lo t.hi == 0) || (bit_or (add64 t.lo 1) (add64 t.hi 1) == 0)

unfoldable pub ecc_point_validate : PointExtproj → Bool
ecc_point_validate p =
    let t1 = fp2sqr1271 p.y in
    let t2 = fp2sqr1271 p.x in
    let t3 = fp2sub1271 t1 t2 in
    let t1 = fp2mul1271 t1 t2 in
    let t2 = fp2mul1271 t1 parameter_d in
    let t2 = fp2add1271 t2 fp2_one in
    let t1 = fp2sub1271 t3 t2 in limbs_vanish t1.c0 && limbs_vanish t1.c1

-- `eccmadd(Q, P)`
unfoldable pub eccmadd : PointPrecomp → PointExtproj → PointExtproj
eccmadd q p =
    let ta = fp2mul1271 p.ta p.tb in
    let t1 = fp2add1271 p.z p.z in
    let ta = fp2mul1271 ta q.t2 in
    let z = fp2add1271 p.x p.y in
    let tb = fp2sub1271 p.y p.x in
    let t2 = fp2sub1271 t1 ta in
    let t1 = fp2add1271 t1 ta in
    let ta = fp2mul1271 q.xy z in
    let x = fp2mul1271 q.yx tb in
    let z = fp2mul1271 t1 t2 in
    let tb = fp2sub1271 ta x in
    let ta = fp2add1271 ta x in
    record { x = fp2mul1271 tb t2; y = fp2mul1271 ta t1; z = z; ta = ta; tb = tb }

unfoldable pub eccneg_extproj_precomp : PointExtprojPrecomp → PointExtprojPrecomp
eccneg_extproj_precomp p = record { t2 = fp2neg1271 p.t2; yx = p.xy; xy = p.yx; z2 = p.z2 }

unfoldable pub eccneg_precomp : PointPrecomp → PointPrecomp
eccneg_precomp p = record { t2 = fp2neg1271 p.t2; yx = p.xy; xy = p.yx }

-- R = 392 * R
unfoldable pub cofactor_clearing : PointExtproj → PointExtproj
cofactor_clearing r =
    let q = r1_to_r2 r in
    let r = eccdouble r in
    let r = eccadd q r in
    let r = eccdouble r in
    let r = eccdouble r in
    let r = eccdouble r in
    let r = eccdouble r in
    let r = eccadd q r in let r = eccdouble r in let r = eccdouble r in eccdouble r
