-- ===== src/Quadratic/Range.antt =====
-- Every quadratic operation keeps its results in 127 bits a coordinate.
use zkproof_demo.Field.Range.{range_rules}
use zkproof_demo.Quadratic.{
  F2elm, IsF2elm, fp2neg1271, fp2conj1271, fp2sqr1271, fp2mul1271, fp2add1271, fp2sub1271,
}

module _ {a b : F2elm} (ha : IsF2elm a) (hb : IsF2elm b) where
  pub add2_range : IsF2elm (fp2add1271 a b)
  unfolding fp2add1271
  add2_range = record { c0_fits = search range_rules; c1_fits = search range_rules }

  pub sub2_range : IsF2elm (fp2sub1271 a b)
  unfolding fp2sub1271
  sub2_range = record { c0_fits = search range_rules; c1_fits = search range_rules }

  pub mul2_range : IsF2elm (fp2mul1271 a b)
  unfolding fp2mul1271
  mul2_range = record { c0_fits = search range_rules; c1_fits = search range_rules }

module _ {a : F2elm} (ha : IsF2elm a) where
  pub sqr2_range : IsF2elm (fp2sqr1271 a)
  unfolding fp2sqr1271
  sqr2_range = record { c0_fits = search range_rules; c1_fits = search range_rules }

  pub neg2_range : IsF2elm (fp2neg1271 a)
  unfolding fp2neg1271
  neg2_range = record { c0_fits = search range_rules; c1_fits = search range_rules }

  pub conj2_range : IsF2elm (fp2conj1271 a)
  unfolding fp2conj1271
  conj2_range = record { c0_fits = search range_rules; c1_fits = search range_rules }

pub ruleset range2_rules = (add2_range, sub2_range, mul2_range, sqr2_range, neg2_range, conj2_range)
