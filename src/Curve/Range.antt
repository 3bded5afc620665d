-- ===== src/Curve/Range.antt =====
-- The point operations keep every coordinate in 127 bits.
pub mod Maps
use zkproof_demo.Base.{arith}
use zkproof_demo.Field.{Felm, IsFelm}
use zkproof_demo.Field.Range.{add_range, sqr_range, mul_range, neg_range, mod_range, inv_range}
use zkproof_demo.Quadratic.{F2elm, IsF2elm, fp2_one, fp2addsub1271}
use zkproof_demo.Quadratic.Range.{range2_rules, mul2_range}
use zkproof_demo.Curve.{
  parameter_d, eccnorm, r1_to_r2, r1_to_r3, eccdouble, eccadd_core, eccadd, point_setup, eccmadd,
  eccneg_extproj_precomp, eccneg_precomp, cofactor_clearing,
}
use zkproof_demo.Curve.Points.{PointAffine, PointExtproj, PointExtprojPrecomp, PointPrecomp}

pub record AffineRange (p : PointAffine) : Type 0 where
  pub x_range : IsF2elm p.x
  pub y_range : IsF2elm p.y

pub record ExtprojRange (p : PointExtproj) : Type 0 where
  pub x_range : IsF2elm p.x
  pub y_range : IsF2elm p.y
  pub z_range : IsF2elm p.z
  pub ta_range : IsF2elm p.ta
  pub tb_range : IsF2elm p.tb

pub record PrecompRange (p : PointExtprojPrecomp) : Type 0 where
  pub xy_range : IsF2elm p.xy
  pub yx_range : IsF2elm p.yx
  pub z2_range : IsF2elm p.z2
  pub t2_range : IsF2elm p.t2

pub record FixedRange (p : PointPrecomp) : Type 0 where
  pub xy_range : IsF2elm p.xy
  pub yx_range : IsF2elm p.yx
  pub t2_range : IsF2elm p.t2

pub d_range : IsF2elm parameter_d
d_range = omega arith

pub one_range : IsF2elm fp2_one
one_range = omega arith

module _ {p : PointExtproj} (hp : ExtprojRange p) where
  pub r1_to_r2_range : PrecompRange (r1_to_r2 p)
  unfolding r1_to_r2
  r1_to_r2_range = search (range2_rules, d_range)

  pub r1_to_r3_range : PrecompRange (r1_to_r3 p)
  unfolding r1_to_r3
  r1_to_r3_range = search range2_rules

  pub eccdouble_range : ExtprojRange (eccdouble p)
  unfolding eccdouble fp2addsub1271
  eccdouble_range = search range2_rules

  pub eccnorm_range : AffineRange (eccnorm p)
  unfolding eccnorm
  eccnorm_range =
      let z0 = hp.z_range.c0_fits in
      let z1 = hp.z_range.c1_fits in
      let t = inv_range (add_range (sqr_range z0) (sqr_range z1)) in
      let z : IsF2elm _ = record {
        c0_fits = mul_range z0 t;
        c1_fits = mul_range (neg_range z1) t;
      } in
      let x = mul2_range hp.x_range z in
      let y = mul2_range hp.y_range z in
      record {
        x_range = record { c0_fits = mod_range x.c0_fits; c1_fits = mod_range x.c1_fits };
        y_range = record { c0_fits = mod_range y.c0_fits; c1_fits = mod_range y.c1_fits };
      }

pub eccadd_core_range :
    {p q : PointExtprojPrecomp} → PrecompRange p → PrecompRange q → ExtprojRange (eccadd_core p q)
unfolding eccadd_core
eccadd_core_range hp hq = search range2_rules

pub eccadd_range :
    {q : PointExtprojPrecomp} {p : PointExtproj}
    → PrecompRange q
    → ExtprojRange p
    → ExtprojRange (eccadd q p)
unfolding eccadd
eccadd_range hq hp = eccadd_core_range hq (r1_to_r3_range hp)

pub eccmadd_range :
    {q : PointPrecomp} {p : PointExtproj}
    → FixedRange q
    → ExtprojRange p
    → ExtprojRange (eccmadd q p)
unfolding eccmadd
eccmadd_range hq hp = search range2_rules

pub eccneg_extproj_range :
    {p : PointExtprojPrecomp} → PrecompRange p → PrecompRange (eccneg_extproj_precomp p)
unfolding eccneg_extproj_precomp
eccneg_extproj_range hp = search range2_rules

pub eccneg_range : {p : PointPrecomp} → FixedRange p → FixedRange (eccneg_precomp p)
unfolding eccneg_precomp
eccneg_range hp = search range2_rules

pub point_setup_range : {p : PointAffine} → AffineRange p → ExtprojRange (point_setup p)
unfolding point_setup
point_setup_range hp = search one_range

pub cofactor_clearing_range :
    {p : PointExtproj} → ExtprojRange p → ExtprojRange (cofactor_clearing p)
unfolding cofactor_clearing
cofactor_clearing_range hp = search (r1_to_r2_range, eccdouble_range, eccadd_range) depth 20
