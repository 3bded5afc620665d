-- ===== src/Curve/Double.antt =====
-- `eccdouble` follows the addition law.
use zkproof_demo.Base.{◌<◌, arith, ◌≡◌, refl, sym, ap, ap₂, ◌∙◌}
use mathlib.Core.Path.{subst}
use zkproof_demo.Field.{prime1271}
use zkproof_demo.Quadratic.{fp2addsub1271}
use zkproof_demo.Quadratic.Laws.{Fp2, Stands2}
use zkproof_demo.Quadratic.Ring.{
  ◌⊕◌, ◌⊖◌, ◌⊗◌, reduce, ring_rules, mul_comm, add-mul, sub-mul, reduce-mul, mul-swap_factors,
  twice-sub, add_sub,
}
use zkproof_demo.Quadratic.Rules.{
  add2-eq, mul2-eq, sub2-eq, sqr_stands, add_stands, mul_stands, sub_stands,
}
use zkproof_demo.Curve.{eccdouble}
use zkproof_demo.Curve.Points.{PointExtproj}
use zkproof_demo.Curve.Validate.{d_value, one_value, OnCurve}
use zkproof_demo.Curve.Law.{mul-IsUnit, cross, IsSum, IsAt, IsAt-of, one-mul}

below_prime : (x y : Fp2) → ((x ⊗ y).re < prime1271) × ((x ⊗ y).im < prime1271)
unfolding ◌⊗◌ reduce
below_prime x y = (omega arith, omega arith)

-- The curve equation with the ring operations, and the doubling of its points.
OnCurve-ring : (x y : Fp2) → OnCurve x y → y ⊗ y ⊖ x ⊗ x ≡ one_value ⊕ cross x y x y
OnCurve-ring x y h =
    let h' = simp (mul2-eq, add2-eq) at h in
    sym (sub2-eq (y ⊗ y) (x ⊗ x) (below_prime x x).0 (below_prime x x).1)
    ∙ h'
    ∙ reorder d_value one_value
  where
    reorder : (d one : Fp2) → ((y ⊗ y) ⊗ (x ⊗ x)) ⊗ d ⊕ one ≡ one ⊕ d ⊗ ((x ⊗ x) ⊗ (y ⊗ y))
    reorder d one = simp ring_rules

module _ {x y x3 y3 : Fp2} (s : IsSum x y x y x3 y3) (on : OnCurve x y) where
  scaled_difference : (z : Fp2) → (y ⊗ z) ⊗ (y ⊗ z) ⊖ (x ⊗ z) ⊗ (x ⊗ z) ≡ (y ⊗ y ⊖ x ⊗ x) ⊗ (z ⊗ z)
  scaled_difference z =
      ap₂ ◌⊖◌ (mul-swap_factors y z y z) (mul-swap_factors x z x z)
      ∙ sym (sub-mul (y ⊗ y) (x ⊗ x) (z ⊗ z))

  scaled_square :
      (z : Fp2)
      → (x ⊗ z ⊕ y ⊗ z) ⊗ (x ⊗ z ⊕ y ⊗ z)
        ≡ (x ⊗ y ⊕ y ⊗ x) ⊗ (z ⊗ z) ⊕ ((x ⊗ z) ⊗ (x ⊗ z) ⊕ (y ⊗ z) ⊗ (y ⊗ z))
  scaled_square z = simp ring_rules

  scaled_sum : (z : Fp2) → (x ⊗ z) ⊗ (x ⊗ z) ⊕ (y ⊗ z) ⊗ (y ⊗ z) ≡ (y ⊗ y ⊕ x ⊗ x) ⊗ (z ⊗ z)
  scaled_sum z = simp ring_rules

  double_above : (z : Fp2) → (y ⊗ z) ⊗ (y ⊗ z) ⊖ (x ⊗ z) ⊗ (x ⊗ z) ≡ z ⊗ z ⊕ cross x y x y ⊗ (z ⊗ z)
  double_above z =
      scaled_difference z
      ∙ ap (λ t. t ⊗ (z ⊗ z)) (OnCurve-ring x y on)
      ∙ add-mul one_value (cross x y x y) (z ⊗ z)
      ∙ ap (λ t. t ⊕ cross x y x y ⊗ (z ⊗ z)) (one-mul (z ⊗ z) (reduce-mul z z))

  double_x :
      (z : Fp2)
      → (x ⊗ z ⊕ y ⊗ z) ⊗ (x ⊗ z ⊕ y ⊗ z) ⊖ ((x ⊗ z) ⊗ (x ⊗ z) ⊕ (y ⊗ z) ⊗ (y ⊗ z))
        ≡ (x ⊗ y ⊕ y ⊗ x) ⊗ (z ⊗ z)
  double_x z =
      ap (λ t. t ⊖ ((x ⊗ z) ⊗ (x ⊗ z) ⊕ (y ⊗ z) ⊗ (y ⊗ z))) (scaled_square z)
      ∙ add_sub _ _
      ∙ reduce-mul (x ⊗ y ⊕ y ⊗ x) (z ⊗ z)

  -- For a point in range that stands for (x, y) on the curve, with a z that has an inverse, `eccdouble`
  -- gives coordinates in range, again with a z that has an inverse, of every (x3, y3) that is the sum of
  -- (x, y) with itself by the addition law, with denominators that have inverses.
  pub eccdouble-IsAt : (p : PointExtproj) → IsAt p x y → IsAt (eccdouble p) x3 y3
  unfolding eccdouble fp2addsub1271
  eccdouble-IsAt p h =
      let z = h.z in
      let xx = sqr_stands h.x_stands in
      let yy = sqr_stands h.y_stands in
      let kk = sqr_stands h.z_stands in
      let squares = add_stands xx yy in
      let t1 = subst (Stands2 _) (double_above z) (sub_stands yy xx) in
      let ta =
        subst (Stands2 _) (double_x z)
          (sub_stands (sqr_stands (add_stands h.x_stands h.y_stands)) squares) in
      let tb = subst (Stands2 _) (scaled_sum z) squares in
      let t2 =
        subst (Stands2 _) (twice-sub (z ⊗ z) (cross x y x y ⊗ (z ⊗ z)))
          (sub_stands (add_stands kk kk) t1) in
      IsAt-of s (z ⊗ z) (reduce-mul z z) (subst (Stands2 _) (mul_comm _ _) (mul_stands t2 ta))
        (subst (Stands2 _) (mul_comm _ _) (mul_stands t1 tb)) (mul_stands t1 t2) ta tb refl
        (mul-IsUnit z z h.z_unit h.z_unit)
