-- ===== src/Field/Range.antt =====
-- Every field operation keeps its results in 127 bits.
use zkproof_demo.Base.{ℕ, zero, suc, arith}
use zkproof_demo.Word.{addcarry64, sub64, ◌>>>◌}
use zkproof_demo.Word.Carry.{addcarry64_exact}
use zkproof_demo.Word.Shift.{shiftright128-1}
use zkproof_demo.Base.{bit_and}
use zkproof_demo.Field.{
  Felm, IsFelm, mod1271, fpadd1271, fpsub1271, fpneg1271, fpmul1271, fpsqr1271, sqr_times,
  fpexp1251, fpinv1271, fpdiv1271,
}
use zkproof_demo.Field.Linear.{fpadd1271-IsFelm, fpsub1271-IsFelm, fpneg1271-IsFelm, mod1271_lem}
use zkproof_demo.Field.Multiply.{fpmul1271_lem, fpsqr1271_lem}
use zkproof_demo.Field.Power.{fpexp1251-IsPower, fpinv1271-IsPower}

module _ {a b : Felm} (ha : IsFelm a) (hb : IsFelm b) where
  pub add_range : IsFelm (fpadd1271 a b)
  add_range = fpadd1271-IsFelm a b ha hb

  pub sub_range : IsFelm (fpsub1271 a b)
  sub_range = fpsub1271-IsFelm a b ha hb

  pub mul_range : IsFelm (fpmul1271 a b)
  mul_range = (fpmul1271_lem a b ha hb).0

module _ {a : Felm} (ha : IsFelm a) where
  pub sqr_range : IsFelm (fpsqr1271 a)
  sqr_range = (fpsqr1271_lem a ha).0

  pub neg_range : IsFelm (fpneg1271 a)
  neg_range = fpneg1271-IsFelm a ha

  pub mod_range : IsFelm (mod1271 a)
  mod_range = (mod1271_lem a ha).0

  pub exp_range : IsFelm (fpexp1251 a)
  exp_range = (fpexp1251-IsPower a ha).stands.in_range

  pub inv_range : IsFelm (fpinv1271 a)
  inv_range = (fpinv1271-IsPower a ha).stands.in_range

  pub div_range : IsFelm (fpdiv1271 a)
  unfolding fpdiv1271
  div_range =
      let mask = sub64 0 (bit_and 1 a.lo) in
      let t = addcarry64_exact 0 a.lo mask (omega arith) ha.lo_fits (omega arith) in
      let c = addcarry64 0 a.lo mask in
      let u = addcarry64_exact c.0 a.hi (mask >>> 1) t.2 (omega arith) (omega arith) in
      omega (arith, t, u, shiftright128-1 c.1 (addcarry64 c.0 a.hi (mask >>> 1)).1 t.1)

pub times_range : (n : ℕ) {a : Felm} → IsFelm a → IsFelm (sqr_times n a)
unfolding sqr_times
times_range zero ha = ha
times_range (suc n) ha = times_range n (sqr_range ha)

pub ruleset range_rules = (
  add_range, sub_range, mul_range, sqr_range, neg_range, mod_range, exp_range, inv_range, div_range,
  times_range,
)
