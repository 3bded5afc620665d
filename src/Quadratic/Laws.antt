-- ===== src/Quadratic/Laws.antt =====
-- The quadratic operations are those of GF(p)[i] with i * i = -1, on residues.
use zkproof_demo.Base.{ℕ, ◌+◌, ◌-◌, ◌*◌, ◌<◌, ◌≡◌, ap, arith}
use zkproof_demo.Base.Modulo.{mul-mod}
use zkproof_demo.Field.{prime1271}
use zkproof_demo.Field.Modular.{
  add_mod, sub_mod, mul_mod, neg_mod, Stands, fpadd1271-Stands, fpsub1271-Stands, fpmul1271-Stands,
  fpneg1271-Stands,
}
use zkproof_demo.Quadratic.{
  F2elm, fp2neg1271, fp2conj1271, fp2sqr1271, fp2mul1271, fp2add1271, fp2sub1271,
}
use mathlib.Core.Path.{subst}

-- An element of GF(p)[i] by its two residues.
pub record Fp2 : Type 0 where
  pub re : ℕ
  pub im : ℕ

unfoldable pub add2 : Fp2 → Fp2 → Fp2
add2 x y = record { re = add_mod x.re y.re; im = add_mod x.im y.im }

unfoldable pub sub2 : Fp2 → Fp2 → Fp2
sub2 x y = record { re = sub_mod x.re y.re; im = sub_mod x.im y.im }

unfoldable pub neg2 : Fp2 → Fp2
neg2 x = record { re = neg_mod x.re; im = neg_mod x.im }

unfoldable pub conj2 : Fp2 → Fp2
conj2 x = record { re = x.re; im = neg_mod x.im }

-- (x.re + x.im i) (y.re + y.im i)
unfoldable pub mul2 : Fp2 → Fp2 → Fp2
mul2 x y = record {
  re = sub_mod (mul_mod x.re y.re) (mul_mod x.im y.im);
  im = add_mod (mul_mod x.re y.im) (mul_mod x.im y.re);
}

-- `a` is in range and stands for `x`.
pub record Stands2 (a : F2elm) (x : Fp2) : Type 0 where
  pub c0_stands : Stands a.c0 x.re
  pub c1_stands : Stands a.c1 x.im

-- Three multiplications give the middle coefficient of a product.
karatsuba :
    (x0 x1 y0 y1 : ℕ)
    → sub_mod (sub_mod (mul_mod (add_mod x0 x1) (add_mod y0 y1)) (mul_mod x0 y0)) (mul_mod x1 y1)
      ≡ add_mod (mul_mod x0 y1) (mul_mod x1 y0)
karatsuba x0 x1 y0 y1 = omega (arith, mul-mod (x0 + x1) (y0 + y1) prime1271)

-- A square needs two.
square_real :
    (x0 x1 : ℕ)
    → x1 < prime1271
    → mul_mod (add_mod x0 x1) (sub_mod x0 x1) ≡ sub_mod (mul_mod x0 x0) (mul_mod x1 x1)
square_real x0 x1 below =
    let d = prime1271 - x1 in
    let e : x1 + d ≡ prime1271 = omega arith in
    omega (
      arith,
      mul-mod (x0 + x1) (x0 + d) prime1271,
      ap (λ (t : ℕ). x0 * t) e,
      ap (λ (t : ℕ). x1 * t) e,
    )

module _ {a b : F2elm} {x y : Fp2} (ha : Stands2 a x) (hb : Stands2 b y) where
  pub fp2add1271-Stands2 : Stands2 (fp2add1271 a b) (add2 x y)
  unfolding fp2add1271 add2
  fp2add1271-Stands2 = record {
    c0_stands = fpadd1271-Stands ha.c0_stands hb.c0_stands;
    c1_stands = fpadd1271-Stands ha.c1_stands hb.c1_stands;
  }

  pub fp2sub1271-Stands2 : Stands2 (fp2sub1271 a b) (sub2 x y)
  unfolding fp2sub1271 sub2
  fp2sub1271-Stands2 = record {
    c0_stands = fpsub1271-Stands ha.c0_stands hb.c0_stands;
    c1_stands = fpsub1271-Stands ha.c1_stands hb.c1_stands;
  }

  -- `fp2mul1271` of elements in range that stand for `x` and `y` is in range and stands for their
  -- product in GF(p)[i].
  pub fp2mul1271-Stands2 : Stands2 (fp2mul1271 a b) (mul2 x y)
  unfolding fp2mul1271 mul2
  fp2mul1271-Stands2 =
      let t1 = fpmul1271-Stands ha.c0_stands hb.c0_stands in
      let t2 = fpmul1271-Stands ha.c1_stands hb.c1_stands in
      let t3 = fpadd1271-Stands ha.c0_stands ha.c1_stands in
      let t4 = fpadd1271-Stands hb.c0_stands hb.c1_stands in
      let c1 = fpsub1271-Stands (fpsub1271-Stands (fpmul1271-Stands t3 t4) t1) t2 in
      record {
        c0_stands = fpsub1271-Stands t1 t2;
        c1_stands = subst (Stands _) (karatsuba x.re x.im y.re y.im) c1;
      }

module _ {a : F2elm} {x : Fp2} (ha : Stands2 a x) where
  -- `fp2sqr1271` of an element in range that stands for `x` is in range and stands for `x` times `x`.
  pub fp2sqr1271-Stands2 : Stands2 (fp2sqr1271 a) (mul2 x x)
  unfolding fp2sqr1271 mul2
  fp2sqr1271-Stands2 =
      let t1 = fpadd1271-Stands ha.c0_stands ha.c1_stands in
      let t2 = fpsub1271-Stands ha.c0_stands ha.c1_stands in
      let t3 = fpmul1271-Stands ha.c0_stands ha.c1_stands in
      let below : x.im < prime1271 = omega (arith, ha.c1_stands.same) in
      let swapped : add_mod (mul_mod x.re x.im) (mul_mod x.re x.im)
          ≡ add_mod (mul_mod x.re x.im) (mul_mod x.im x.re) =
        omega arith in
      record {
        c0_stands = subst (Stands _) (square_real x.re x.im below) (fpmul1271-Stands t1 t2);
        c1_stands = subst (Stands _) swapped (fpadd1271-Stands t3 t3);
      }

  pub fp2neg1271-Stands2 : Stands2 (fp2neg1271 a) (neg2 x)
  unfolding fp2neg1271 neg2
  fp2neg1271-Stands2 = record {
    c0_stands = fpneg1271-Stands ha.c0_stands;
    c1_stands = fpneg1271-Stands ha.c1_stands;
  }

  pub fp2conj1271-Stands2 : Stands2 (fp2conj1271 a) (conj2 x)
  unfolding fp2conj1271 conj2
  fp2conj1271-Stands2 = record {
    c0_stands = ha.c0_stands;
    c1_stands = fpneg1271-Stands ha.c1_stands;
  }

pub ruleset fp2_rules = (
  fp2add1271-Stands2, fp2sub1271-Stands2, fp2mul1271-Stands2, fp2sqr1271-Stands2,
  fp2neg1271-Stands2, fp2conj1271-Stands2,
)
