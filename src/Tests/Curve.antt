-- ===== src/Tests/Curve.antt =====
-- The generator of FourQ, its double and its triple; the point of order 2.
use zkproof_demo.Base.{ℕ, zero, suc, ◌+◌, ◌%◌, ◌≡◌, refl, arith}
use mathlib.Core.Path.{subst}
use zkproof_demo.Quadratic.{f2elm_of, fp2add1271, fp2sub1271, fp2mul1271}
use zkproof_demo.Quadratic.Laws.{Fp2, add2, sub2, mul2, Stands2}
use zkproof_demo.Quadratic.Ring.{◌⊕◌, ◌⊖◌, ◌⊗◌, reduce, raw_add, raw_mul, neg_one}
use zkproof_demo.Quadratic.Rules.{add_stands, sub_stands, mul_stands}
use zkproof_demo.Curve.{
  parameter_d, point_setup, r1_to_r2, eccadd, eccmadd, eccdouble, cofactor_clearing,
}
use zkproof_demo.Curve.Points.{PointAffine, PointPrecomp}
use zkproof_demo.Curve.Validate.{OnCurve, d-Stands2, one_value}
use zkproof_demo.Curve.Law.{IsSum, IsAt, IsTabled}
use zkproof_demo.Curve.Sum.{point_setup-IsAt, r1_to_r2-IsPrecomp, eccadd-IsAt, eccmadd-IsAt}
use zkproof_demo.Curve.Double.{eccdouble-IsAt}
use zkproof_demo.Curve.Multiple.{AreMultiples, cofactor_clearing-IsAt}

abbrev g : PointAffine
g = record {
  x = f2elm_of 0x286592AD7B3833AA 0x1A3472237C2FB305 0x96869FB360AC77F6 0x1E1F553F2878AA9C;
  y = f2elm_of 0xB924A2462BCBB287 0x0E3FEE9BA120785A 0x49A7C344844C8B5C 0x6E1C4AF8630E0242;
}

abbrev gx : Fp2
gx = record { re = 0x1a3472237c2fb305286592ad7b3833aa; im = 0x1e1f553f2878aa9c96869fb360ac77f6 }

abbrev gy : Fp2
gy = record { re = 0x0e3fee9ba120785ab924a2462bcbb287; im = 0x6e1c4af8630e024249a7c344844c8b5c }

abbrev double_x : Fp2
double_x = record {
  re = 0x210a7d9f9782a38cdffd6556d311ce43;
  im = 0x58d4179cfc261e7b023c5e59afc61df4;
}

abbrev double_y : Fp2
double_y = record {
  re = 0x2db3fc78c3d93dfe35a2323d01cb626c;
  im = 0x44c04cb98a015452ee7c9525e2919bf8;
}

abbrev triple_x : Fp2
triple_x = record {
  re = 0x6a9819b5c0f0f512821ff2e80dc5e252;
  im = 0x1dd2c4814e7439e77f29641b85d56f5c;
}

abbrev triple_y : Fp2
triple_y = record {
  re = 0x6caaddc6d7b431a8070763c94e098671;
  im = 0x771ca389a001970fb4e0f6026423303e;
}

gx-Stands2 : Stands2 g.x gx
gx-Stands2 = omega arith

gy-Stands2 : Stands2 g.y gy
gy-Stands2 = omega arith

g-OnCurve : OnCurve gx gy
unfolding add2 sub2 mul2
g-OnCurve = refl

g-IsSum : IsSum gx gy gx gy double_x double_y
unfolding ◌⊕◌ ◌⊖◌ ◌⊗◌ reduce raw_add raw_mul
g-IsSum = record {
  x_law = refl;
  y_law = refl;
  x_denominator = (
    record { re = 0x7ed18b53744b07c492d55067541b2e7b; im = 0x59cbb3fdaab3b7497e32106d45a689a8 },
    refl,
  );
  y_denominator = (
    record { re = 0x166262efc7211613618fd7ad6f945e30; im = 0x18066266a12f9cf4dec24530e61807e },
    refl,
  );
}

double-IsSum : IsSum double_x double_y gx gy triple_x triple_y
unfolding ◌⊕◌ ◌⊖◌ ◌⊗◌ reduce raw_add raw_mul
double-IsSum = record {
  x_law = refl;
  y_law = refl;
  x_denominator = (
    record { re = 0x61c75143b54d01a05b0cd22d0f7d3ba8; im = 0x300eb97f3569843bcec53dda029992d3 },
    refl,
  );
  y_denominator = (
    record { re = 0x55ad0babfc1605d91c93f2976d45aa55; im = 0x68dbe40ade589e8428a809a1e928a74c },
    refl,
  );
}

g-IsAt : IsAt (point_setup g) gx gy
g-IsAt = point_setup-IsAt g gx-Stands2 gy-Stands2

eccdouble-IsAt_example : IsAt (eccdouble (point_setup g)) double_x double_y
eccdouble-IsAt_example = eccdouble-IsAt g-IsSum g-OnCurve (point_setup g) g-IsAt

eccadd-IsAt_example :
    IsAt (eccadd (r1_to_r2 (point_setup g)) (eccdouble (point_setup g))) triple_x triple_y
eccadd-IsAt_example =
    eccadd-IsAt double-IsSum (r1_to_r2 (point_setup g)) (eccdouble (point_setup g))
      (r1_to_r2-IsPrecomp (point_setup g) g-IsAt)
      (eccdouble-IsAt g-IsSum g-OnCurve (point_setup g) g-IsAt)

abbrev tabled_g : PointPrecomp
tabled_g = record {
  xy = fp2add1271 g.x g.y;
  yx = fp2sub1271 g.y g.x;
  t2 = fp2mul1271 parameter_d (fp2add1271 (fp2mul1271 g.x g.y) (fp2mul1271 g.x g.y));
}

tabled_g-IsTabled : IsTabled tabled_g gx gy
tabled_g-IsTabled =
    let xy = mul_stands gx-Stands2 gy-Stands2 in
    record {
      xy_stands = add_stands gx-Stands2 gy-Stands2;
      yx_stands = sub_stands gy-Stands2 gx-Stands2;
      t2_stands = mul_stands d-Stands2 (add_stands xy xy);
    }

eccmadd-IsAt_example : IsAt (eccmadd tabled_g (eccdouble (point_setup g))) triple_x triple_y
eccmadd-IsAt_example =
    eccmadd-IsAt double-IsSum tabled_g (eccdouble (point_setup g)) tabled_g-IsTabled
      (eccdouble-IsAt g-IsSum g-OnCurve (point_setup g) g-IsAt)

-- The multiples of (0, -1): the odd ones are this point, the even ones the neutral point.
abbrev origin : Fp2
origin = record { re = 0; im = 0 }

abbrev by_rest : ℕ → Fp2
by_rest zero = one_value
by_rest (suc n) = neg_one

abbrev flip_y : ℕ → Fp2
flip_y n = by_rest (n % 2)

rest-OnCurve : (r : ℕ) → OnCurve origin (by_rest r)
unfolding add2 sub2 mul2
rest-OnCurve zero = refl
rest-OnCurve (suc r) = refl

rest-IsSum : (r : ℕ) → IsSum origin (by_rest r) origin (by_rest r) origin one_value
unfolding ◌⊕◌ ◌⊖◌ ◌⊗◌ reduce raw_add raw_mul
rest-IsSum zero = record {
  x_law = refl;
  y_law = refl;
  x_denominator = (one_value, refl);
  y_denominator = (one_value, refl);
}
rest-IsSum (suc r) = record {
  x_law = refl;
  y_law = refl;
  x_denominator = (one_value, refl);
  y_denominator = (one_value, refl);
}

next-IsSum : (r s : ℕ) → r + s ≡ 1 → IsSum origin (by_rest r) origin neg_one origin (by_rest s)
unfolding ◌⊕◌ ◌⊖◌ ◌⊗◌ reduce raw_add raw_mul
next-IsSum zero zero h = absurd (omega arith)
next-IsSum zero (suc s) h = record {
  x_law = refl;
  y_law = refl;
  x_denominator = (one_value, refl);
  y_denominator = (one_value, refl);
}
next-IsSum (suc r) zero h = record {
  x_law = refl;
  y_law = refl;
  x_denominator = (one_value, refl);
  y_denominator = (one_value, refl);
}
next-IsSum (suc r) (suc s) h = absurd (omega arith)

flips-AreMultiples : AreMultiples (λ n. origin) flip_y
flips-AreMultiples = record {
  on_curve = λ n. rest-OnCurve (n % 2);
  doubles = λ n.
      let even : 0 ≡ (n + n) % 2 = omega arith in
      subst (λ r. IsSum origin (flip_y n) origin (flip_y n) origin (by_rest r)) even
        (rest-IsSum (n % 2));
  next = λ n. next-IsSum (n % 2) ((n + 1) % 2) (omega arith);
}

abbrev flip : PointAffine
flip = record { x = f2elm_of 0 0 0 0; y = f2elm_of 0xFFFFFFFFFFFFFFFE 0x7FFFFFFFFFFFFFFF 0 0 }

flip-IsAt : IsAt (point_setup flip) origin neg_one
flip-IsAt = point_setup-IsAt flip (omega arith) (omega arith)

cofactor_clearing-IsAt_example : IsAt (cofactor_clearing (point_setup flip)) origin one_value
cofactor_clearing-IsAt_example =
    cofactor_clearing-IsAt (point_setup flip) flips-AreMultiples flip-IsAt
