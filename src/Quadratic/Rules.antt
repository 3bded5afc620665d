-- ===== src/Quadratic/Rules.antt =====
-- The quadratic operations on limbs stand for the ring operations.
use zkproof_demo.Base.{◌<◌, ◌≡◌, refl, arith}
use mathlib.Core.Path.{subst}
use zkproof_demo.Field.{prime1271}
use zkproof_demo.Quadratic.{F2elm, fp2sqr1271, fp2mul1271, fp2add1271, fp2sub1271, fp2neg1271}
use zkproof_demo.Quadratic.Laws.{
  Fp2, add2, sub2, neg2, mul2, Stands2, fp2neg1271-Stands2, fp2add1271-Stands2, fp2sub1271-Stands2,
  fp2mul1271-Stands2, fp2sqr1271-Stands2,
}
use zkproof_demo.Quadratic.Ring.{◌⊕◌, ◌⊖◌, ◌⊗◌, reduce, neg_one}

pub add2-eq : (x y : Fp2) → add2 x y ≡ x ⊕ y
unfolding add2 ◌⊕◌ reduce
add2-eq x y = refl

pub mul2-eq : (x y : Fp2) → mul2 x y ≡ x ⊗ y
unfolding mul2 ◌⊗◌ reduce
mul2-eq x y = ground arith

pub sub2-eq : (x y : Fp2) → y.re < prime1271 → y.im < prime1271 → sub2 x y ≡ x ⊖ y
unfolding sub2 ◌⊖◌
sub2-eq x y h k = ground arith

module _ {a : F2elm} {x : Fp2} (ha : Stands2 a x) where
  pub Stands2-reduce : reduce x ≡ x
  unfolding reduce
  Stands2-reduce = ground (arith, ha.c0_stands.same, ha.c1_stands.same)

  pub sqr_stands : Stands2 (fp2sqr1271 a) (x ⊗ x)
  sqr_stands = subst (Stands2 _) (mul2-eq x x) (fp2sqr1271-Stands2 ha)

  module _ {b : F2elm} {y : Fp2} (hb : Stands2 b y) where
    pub add_stands : Stands2 (fp2add1271 a b) (x ⊕ y)
    add_stands = subst (Stands2 _) (add2-eq x y) (fp2add1271-Stands2 ha hb)

    pub mul_stands : Stands2 (fp2mul1271 a b) (x ⊗ y)
    mul_stands = subst (Stands2 _) (mul2-eq x y) (fp2mul1271-Stands2 ha hb)

    pub sub_stands : Stands2 (fp2sub1271 a b) (x ⊖ y)
    sub_stands =
        subst (Stands2 _)
          (sub2-eq x y (omega (arith, hb.c0_stands.same)) (omega (arith, hb.c1_stands.same)))
          (fp2sub1271-Stands2 ha hb)

neg2-eq : (x : Fp2) → x.re < prime1271 → x.im < prime1271 → neg2 x ≡ neg_one ⊗ x
unfolding neg2 ◌⊗◌ reduce
neg2-eq x h k = ground arith

pub neg_stands : {a : F2elm} {x : Fp2} → Stands2 a x → Stands2 (fp2neg1271 a) (neg_one ⊗ x)
neg_stands {x} ha =
    subst (Stands2 _)
      (neg2-eq x (omega (arith, ha.c0_stands.same)) (omega (arith, ha.c1_stands.same)))
      (fp2neg1271-Stands2 ha)
