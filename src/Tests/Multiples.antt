-- ===== src/Tests/Multiples.antt =====
-- The two points (0, 1) and (0, -1) as a group of points of the curve.
use zkproof_demo.Base.{
  ℕ, zero, suc, ◌+◌, ◌*◌, ◌%◌, ◌<◌, ◌≤◌, ◌==◌, ◌≡◌, refl, sym, ap, ◌∙◌, inl, inr, Bool, true, false,
  List, [], ◌∷◌, get_or, replicate, arith,
}
use mathlib.Core.Path.{subst}
use zkproof_demo.Word.{◌>>>◌}
use zkproof_demo.Quadratic.{f2elm_of, fp2add1271, fp2sub1271, fp2mul1271}
use zkproof_demo.Quadratic.Laws.{Fp2, add2, sub2, mul2, Stands2}
use zkproof_demo.Quadratic.Ring.{◌⊕◌, ◌⊖◌, ◌⊗◌, reduce, raw_add, raw_mul, neg_one}
use zkproof_demo.Quadratic.Rules.{add_stands, sub_stands, mul_stands}
use zkproof_demo.Curve.{parameter_d, point_setup}
use zkproof_demo.Curve.Points.{PointAffine, PointPrecomp}
use zkproof_demo.Curve.Validate.{OnCurve, one_value, d-Stands2}
use zkproof_demo.Curve.Law.{IsSum, IsAt, IsTabled}
use zkproof_demo.Curve.Sum.{point_setup-IsAt}
use zkproof_demo.Curve.Group.{CurveGroup, multiple}
use zkproof_demo.Scalar.Product.{AllWords, no_words, one_word}
use zkproof_demo.Scalar.Words.{words-get_or}
use zkproof_demo.Scalar.Recode.{ℤ, pos, wnaf_recode}
use zkproof_demo.Scalar.Recode.Digits.{plus, minus, IsDigit}
use zkproof_demo.Scalar.Recode.Loop.{wnaf_recode_lem}
use zkproof_demo.Tables.{no_point}
use zkproof_demo.Verify.MulDouble.{parts_of, mul_loop, neutral}
use zkproof_demo.Verify.MulDouble.Combine.{sum_of_multiples}
use zkproof_demo.Verify.MulDouble.Selected.{Selected}
use zkproof_demo.Verify.MulDouble.Refine.{AllSelected, factors, digits-get_or, mul_loop-Holds}

abbrev null : Fp2
null = record { re = 0; im = 0 }

abbrev y_of : Bool → Fp2
y_of false = one_value
y_of true = neg_one

abbrev differ : Bool → Bool → Bool
differ false b = b
differ true false = true
differ true true = false

differ_comm : (a b : Bool) → differ a b ≡ differ b a
differ_comm false false = refl
differ_comm false true = refl
differ_comm true false = refl
differ_comm true true = refl

differ_assoc : (a b c : Bool) → differ (differ a b) c ≡ differ a (differ b c)
differ_assoc false b c = refl
differ_assoc true false c = refl
differ_assoc true true false = refl
differ_assoc true true true = refl

differ-false : (a : Bool) → differ a false ≡ a
differ-false false = refl
differ-false true = refl

differ_self : (a : Bool) → differ a a ≡ false
differ_self false = refl
differ_self true = refl

null_product : null ≡ neg_one ⊗ null
unfolding ◌⊗◌ reduce raw_mul
null_product = refl

two-OnCurve : (a : Bool) → OnCurve null (y_of a)
unfolding add2 sub2 mul2
two-OnCurve false = refl
two-OnCurve true = refl

two-IsSum : (a b : Bool) → IsSum null (y_of a) null (y_of b) null (y_of (differ a b))
unfolding ◌⊕◌ ◌⊖◌ ◌⊗◌ reduce raw_add raw_mul
two-IsSum false false = record {
  x_law = refl;
  y_law = refl;
  x_denominator = (one_value, refl);
  y_denominator = (one_value, refl);
}
two-IsSum false true = record {
  x_law = refl;
  y_law = refl;
  x_denominator = (one_value, refl);
  y_denominator = (one_value, refl);
}
two-IsSum true false = record {
  x_law = refl;
  y_law = refl;
  x_denominator = (one_value, refl);
  y_denominator = (one_value, refl);
}
two-IsSum true true = record {
  x_law = refl;
  y_law = refl;
  x_denominator = (one_value, refl);
  y_denominator = (one_value, refl);
}

abbrev two_points : CurveGroup Bool
two_points = record {
  origin = false;
  sum = differ;
  opposite = λ a. a;
  sum_comm = differ_comm;
  sum_assoc = differ_assoc;
  sum_origin = differ-false;
  sum_opposite = differ_self;
  x = λ a. null;
  y = y_of;
  x_origin = refl;
  y_origin = refl;
  x_opposite = λ a. null_product;
  y_opposite = λ a. refl;
  on_curve = two-OnCurve;
  sum_law = two-IsSum;
}

abbrev low_point : PointAffine
low_point = record { x = f2elm_of 0 0 0 0; y = f2elm_of 0xFFFFFFFFFFFFFFFE 0x7FFFFFFFFFFFFFFF 0 0 }

low_point-IsAt : IsAt (point_setup low_point) null neg_one
low_point-IsAt = point_setup-IsAt low_point (omega arith) (omega arith)

-- A table that holds the point (0, -1), which is each of its odd multiples, at every index.
abbrev tabled_low : PointPrecomp
tabled_low = record {
  xy = fp2add1271 low_point.x low_point.y;
  yx = fp2sub1271 low_point.y low_point.x;
  t2 =
      fp2mul1271 parameter_d
        (fp2add1271 (fp2mul1271 low_point.x low_point.y) (fp2mul1271 low_point.x low_point.y));
}

tabled_low-IsTabled : IsTabled tabled_low null neg_one
tabled_low-IsTabled =
    let hx : Stands2 low_point.x null = omega arith in
    let hy : Stands2 low_point.y neg_one = omega arith in
    let xy = mul_stands hx hy in
    record {
      xy_stands = add_stands hx hy;
      yx_stands = sub_stands hy hx;
      t2_stands = mul_stands d-Stands2 (add_stands xy xy);
    }

abbrev low_table : List PointPrecomp
low_table = replicate 256 tabled_low

replicate-get_or : (m j : ℕ) → j < m → get_or (replicate m tabled_low) j no_point ≡ tabled_low
replicate-get_or zero j h = absurd (omega arith)
replicate-get_or (suc m) zero h = refl
replicate-get_or (suc m) (suc j) h = replicate-get_or m j (omega arith)

parity : (n : ℕ) → multiple two_points n true ≡ (n % 2 == 1)
unfolding multiple
parity zero = refl
parity (suc n) = ap (differ true) (parity n) ∙ ground arith

abbrev k_scalars : List ℕ
k_scalars = 9 ∷ 201 ∷ 1 ∷ 129 ∷ []

abbrev l_scalars : List ℕ
l_scalars = 5 ∷ 15 ∷ 2 ∷ 7 ∷ []

k_scalars-AllWords : AllWords k_scalars
k_scalars-AllWords =
    one_word (omega arith)
      (one_word (omega arith) (one_word (omega arith) (one_word (omega arith) no_words)))

l_scalars-AllWords : AllWords l_scalars
l_scalars-AllWords =
    one_word (omega arith)
      (one_word (omega arith) (one_word (omega arith) (one_word (omega arith) no_words)))

odd_size :
    (d : ℤ) (n : ℕ) → IsDigit 8 d → plus d + minus d ≡ suc n → (suc n % 2 ≡ 1) × (suc n < 128)
odd_size d n (inl z) e = absurd (omega arith)
odd_size d n (inr (odd, small)) e = (ap (λ m. m % 2) (sym e) ∙ odd, omega arith)

low-Selected :
    (base : ℕ) (d : ℤ) → base ≤ 192 → IsDigit 8 d → Selected two_points low_table base d true
low-Selected base d hb hd n e =
    let (odd, small) = odd_size d n hd e in
    let entry = replicate-get_or 256 (base + (suc n >>> 1)) (omega arith) in
    let at : multiple two_points (suc n) true ≡ true = parity (suc n) ∙ ap (λ m. m == 1) odd in
    subst (λ q. IsTabled q null (y_of (multiple two_points (suc n) true))) (sym entry)
      (subst (λ a. IsTabled tabled_low null (y_of a)) (sym at) tabled_low-IsTabled)

low-AllSelected :
    (base j : ℕ)
    → base ≤ 192
    → AllSelected two_points low_table base (wnaf_recode (get_or k_scalars j 0) 8) true
low-AllSelected base j hb i =
    let k = get_or k_scalars j 0 in
    let r =
      wnaf_recode_lem k 8 (words-get_or k_scalars j k_scalars-AllWords) (omega arith)
        (omega arith) in
    low-Selected base (get_or (wnaf_recode k 8) i (pos 0)) hb
      (digits-get_or 8 (wnaf_recode k 8) i r.3)

-- 340 times and 29 times the point.
mul_loop-Holds_example :
    IsAt
      (mul_loop
        (parts_of low_table k_scalars l_scalars
          (point_setup low_point)
          (point_setup low_point)
          (point_setup low_point)
          (point_setup low_point))
        65
        neutral)
      null
      neg_one
unfolding sum_of_multiples factors multiple
mul_loop-Holds_example =
    mul_loop-Holds two_points k_scalars l_scalars true true true true true true true true low_table
      l_scalars-AllWords low_point-IsAt low_point-IsAt low_point-IsAt low_point-IsAt
      (low-AllSelected 0 0 (omega arith)) (low-AllSelected 64 1 (omega arith))
      (low-AllSelected (2 * 64) 2 (omega arith)) (low-AllSelected (3 * 64) 3 (omega arith))
      k_scalars-AllWords
