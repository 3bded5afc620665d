-- ===== src/Curve/Sum.antt =====
-- `eccadd` and `eccmadd` follow the addition law.
use zkproof_demo.Base.{◌≡◌, sym, ap, ap₂, ◌∙◌}
use mathlib.Core.Path.{subst}
use zkproof_demo.Quadratic.{F2elm, fp2mul1271, fp2add1271, fp2sub1271}
use zkproof_demo.Quadratic.Laws.{Fp2, Stands2}
use zkproof_demo.Quadratic.Ring.{
  ◌⊕◌, ◌⊖◌, ◌⊗◌, neg_one, sub-neg, sub-eq-add, add_comm, ring_rules, mul_comm, mul_assoc, add-mul,
  sub-mul, reduce-add, reduce-mul, difference-mul-difference, sum-sub-difference,
  sum-add-difference, mul-swap_factors,
}
use zkproof_demo.Quadratic.Rules.{Stands2-reduce, neg_stands, add_stands, mul_stands, sub_stands}
use zkproof_demo.Curve.{
  r1_to_r2, r1_to_r3, eccadd_core, eccadd, eccmadd, point_setup, eccneg_extproj_precomp,
}
use zkproof_demo.Curve.Points.{PointAffine, PointExtproj, PointExtprojPrecomp, PointPrecomp}
use zkproof_demo.Curve.Validate.{d_value, d-Stands2, one_value, one-Stands2}
use zkproof_demo.Curve.Law.{
  cross, IsSum, IsAt, IsPrecomp, IsTabled, IsAt-of, mul-one, IsUnit, one-IsUnit, mul-IsUnit,
  twice-IsUnit,
}

double_product :
    (ta tb xy z : Fp2) → ta ⊗ tb ≡ xy ⊗ z → (ta ⊕ ta) ⊗ tb ⊗ d_value ≡ d_value ⊗ (xy ⊗ (z ⊕ z))
double_product ta tb xy z e =
    ap (λ t. t ⊗ d_value) (add-mul ta ta tb ∙ ap₂ ◌⊕◌ e e) ∙ distribute d_value xy z
  where
    distribute : (d xy z : Fp2) → (xy ⊗ z ⊕ xy ⊗ z) ⊗ d ≡ d ⊗ (xy ⊗ (z ⊕ z))
    distribute d xy z = simp ring_rules

-- For a point in range that stands for (x, y), `R1_to_R2` gives in range the four multiples
-- ((x + y) z, (y - x) z, 2 z, 2 d x y z) of that point.
pub r1_to_r2-IsPrecomp : (p : PointExtproj) {x y : Fp2} → IsAt p x y → IsPrecomp (r1_to_r2 p) x y
unfolding r1_to_r2
r1_to_r2-IsPrecomp p {x} {y} h = record {
  z = h.z;
  xy_stands = subst (Stands2 _) (sym (add-mul x y h.z)) (add_stands h.x_stands h.y_stands);
  yx_stands = subst (Stands2 _) (sym (sub-mul y x h.z)) (sub_stands h.y_stands h.x_stands);
  z2_stands = add_stands h.z_stands h.z_stands;
  z_unit = h.z_unit;
  t2_stands =
      subst (Stands2 _) (double_product h.ta h.tb (x ⊗ y) h.z h.product)
        (mul_stands (mul_stands (add_stands h.ta_stands h.ta_stands) h.tb_stands) d-Stands2);
}

-- An affine point that `point_setup` takes up stands for itself.
pub point_setup-IsAt :
    (a : PointAffine) {x y : Fp2} → Stands2 a.x x → Stands2 a.y y → IsAt (point_setup a) x y
unfolding point_setup
point_setup-IsAt a {x} {y} hx hy = record {
  z = one_value;
  ta = x;
  tb = y;
  x_stands = subst (Stands2 _) (sym (mul-one x (Stands2-reduce hx))) hx;
  y_stands = subst (Stands2 _) (sym (mul-one y (Stands2-reduce hy))) hy;
  z_stands = one-Stands2;
  z_unit = one-IsUnit;
  ta_stands = hx;
  tb_stands = hy;
  product = sym (mul-one (x ⊗ y) (reduce-mul x y));
}

-- `eccneg_extproj_precomp` prepares the point (-x, y).
pub eccneg_extproj_precomp-IsPrecomp :
    (q : PointExtprojPrecomp) {x y : Fp2}
    → IsPrecomp q x y
    → IsPrecomp (eccneg_extproj_precomp q) (neg_one ⊗ x) y
unfolding eccneg_extproj_precomp
eccneg_extproj_precomp-IsPrecomp q {x} {y} h =
    let xy : (y ⊖ x) ⊗ h.z ≡ (neg_one ⊗ x ⊕ y) ⊗ h.z =
      ap (λ t. t ⊗ h.z) (sub-eq-add y x ∙ add_comm y (neg_one ⊗ x)) in
    let yx : (x ⊕ y) ⊗ h.z ≡ (y ⊖ neg_one ⊗ x) ⊗ h.z = ap (λ t. t ⊗ h.z) (sym (sub-neg x y)) in
    record {
      z = h.z;
      xy_stands = subst (Stands2 _) xy h.yx_stands;
      yx_stands = subst (Stands2 _) yx h.xy_stands;
      z2_stands = h.z2_stands;
      z_unit = h.z_unit;
      t2_stands = subst (Stands2 _) (carry d_value neg_one) (neg_stands h.t2_stands);
    }
  where
    carry : (d e : Fp2) → e ⊗ (d ⊗ (x ⊗ y ⊗ (h.z ⊕ h.z))) ≡ d ⊗ ((e ⊗ x) ⊗ y ⊗ (h.z ⊕ h.z))
    carry d e = simp ring_rules

-- The end that `eccadd_core` and `eccmadd` share.
abbrev close_sum : F2elm → F2elm → F2elm → F2elm → PointExtproj
close_sum a b dk k = record {
  x = fp2mul1271 (fp2sub1271 a b) (fp2sub1271 k dk);
  y = fp2mul1271 (fp2add1271 a b) (fp2add1271 k dk);
  z = fp2mul1271 (fp2add1271 k dk) (fp2sub1271 k dk);
  ta = fp2add1271 a b;
  tb = fp2sub1271 a b;
}

module _ {x1 y1 x2 y2 x3 y3 : Fp2} (s : IsSum x1 y1 x2 y2 x3 y3) where
  abbrev m : Fp2
  m = y1 ⊗ y2 ⊕ x1 ⊗ x2

  abbrev n : Fp2
  n = x1 ⊗ y2 ⊕ y1 ⊗ x2

  twice : (u w : Fp2) → (u ⊕ u) ⊗ w ≡ u ⊗ (w ⊕ w)
  twice u w = simp ring_rules

  close_sum-IsAt :
      {a b dk k : F2elm} (w : Fp2)
      → Stands2 a ((m ⊕ n) ⊗ w)
      → Stands2 b ((m ⊖ n) ⊗ w)
      → Stands2 dk (cross x1 y1 x2 y2 ⊗ (w ⊕ w))
      → Stands2 k (w ⊕ w)
      → IsUnit (w ⊕ w)
      → IsAt (close_sum a b dk k) x3 y3
  close_sum-IsAt w ha hb hdk hk u =
      let hm = reduce-add (y1 ⊗ y2) (x1 ⊗ x2) in
      let hn = reduce-add (x1 ⊗ y2) (y1 ⊗ x2) in
      let ta : (m ⊕ n) ⊗ w ⊕ (m ⊖ n) ⊗ w ≡ m ⊗ (w ⊕ w) =
        sym (add-mul (m ⊕ n) (m ⊖ n) w)
        ∙ ap (λ t. t ⊗ w) (sum-add-difference m n hm hn)
        ∙ twice m w in
      let tb : (m ⊕ n) ⊗ w ⊖ (m ⊖ n) ⊗ w ≡ n ⊗ (w ⊕ w) =
        sym (sub-mul (m ⊕ n) (m ⊖ n) w)
        ∙ ap (λ t. t ⊗ w) (sum-sub-difference m n hm hn)
        ∙ twice n w in
      let hta = subst (Stands2 _) ta (add_stands ha hb) in
      let htb = subst (Stands2 _) tb (sub_stands ha hb) in
      let above = add_stands hk hdk in
      let below = sub_stands hk hdk in
      IsAt-of s (w ⊕ w) (reduce-add w w) (mul_stands htb below) (mul_stands hta above)
        (mul_stands above below) hta htb (mul_comm _ _) u

  sums-of : (z2 z1 : Fp2) → ((x2 ⊕ y2) ⊗ z2) ⊗ (x1 ⊗ z1 ⊕ y1 ⊗ z1) ≡ (m ⊕ n) ⊗ (z2 ⊗ z1)
  sums-of z2 z1 = simp ring_rules

  differences-of : (z2 z1 : Fp2) → ((y2 ⊖ x2) ⊗ z2) ⊗ (y1 ⊗ z1 ⊖ x1 ⊗ z1) ≡ (m ⊖ n) ⊗ (z2 ⊗ z1)
  differences-of z2 z1 =
      ap (λ t. ((y2 ⊖ x2) ⊗ z2) ⊗ t) (sym (sub-mul y1 x1 z1))
      ∙ mul-swap_factors (y2 ⊖ x2) z2 (y1 ⊖ x1) z1
      ∙ ap (λ t. t ⊗ (z2 ⊗ z1))
          (mul_comm (y2 ⊖ x2) (y1 ⊖ x1) ∙ difference-mul-difference x1 y1 x2 y2)

  scale : (z2 z1 : Fp2) → (z2 ⊕ z2) ⊗ z1 ≡ z2 ⊗ z1 ⊕ z2 ⊗ z1
  scale z2 z1 = add-mul z2 z2 z1

  crosses :
      (z2 z1 : Fp2)
      → (d_value ⊗ (x2 ⊗ y2 ⊗ (z2 ⊕ z2))) ⊗ (x1 ⊗ y1 ⊗ z1) ≡ cross x1 y1 x2 y2 ⊗ (z2 ⊗ z1 ⊕ z2 ⊗ z1)
  crosses z2 z1 = with_d d_value
    where
      with_d :
          (d : Fp2)
          → (d ⊗ (x2 ⊗ y2 ⊗ (z2 ⊕ z2))) ⊗ (x1 ⊗ y1 ⊗ z1)
            ≡ d ⊗ (x1 ⊗ x2 ⊗ (y1 ⊗ y2)) ⊗ (z2 ⊗ z1 ⊕ z2 ⊗ z1)
      with_d d = simp ring_rules

  -- For points in range that stand for (x1, y1) and, as `R1_to_R2` leaves it, for (x2, y2), each with a
  -- z that has an inverse, `eccadd` gives coordinates in range, again with a z that has an inverse, of
  -- every (x3, y3) that is their sum by the addition law, with denominators that have inverses.
  pub eccadd-IsAt :
      (q : PointExtprojPrecomp) (p : PointExtproj)
      → IsPrecomp q x2 y2
      → IsAt p x1 y1
      → IsAt (eccadd q p) x3 y3
  unfolding eccadd eccadd_core r1_to_r3
  eccadd-IsAt q p hq hp =
      let z1 = hp.z in
      let z2 = hq.z in
      let a =
        subst (Stands2 _) (sums-of z2 z1)
          (mul_stands hq.xy_stands (add_stands hp.x_stands hp.y_stands)) in
      let b =
        subst (Stands2 _) (differences-of z2 z1)
          (mul_stands hq.yx_stands (sub_stands hp.y_stands hp.x_stands)) in
      let t = subst (Stands2 _) hp.product (mul_stands hp.ta_stands hp.tb_stands) in
      let dk = subst (Stands2 _) (crosses z2 z1) (mul_stands hq.t2_stands t) in
      let k = subst (Stands2 _) (scale z2 z1) (mul_stands hq.z2_stands hp.z_stands) in
      close_sum-IsAt (z2 ⊗ z1) a b dk k
        (twice-IsUnit (z2 ⊗ z1) (reduce-mul z2 z1) (mul-IsUnit z2 z1 hq.z_unit hp.z_unit))

  tabled_sums : (z1 : Fp2) → (x2 ⊕ y2) ⊗ (x1 ⊗ z1 ⊕ y1 ⊗ z1) ≡ (m ⊕ n) ⊗ z1
  tabled_sums z1 = simp ring_rules

  tabled_differences : (z1 : Fp2) → (y2 ⊖ x2) ⊗ (y1 ⊗ z1 ⊖ x1 ⊗ z1) ≡ (m ⊖ n) ⊗ z1
  tabled_differences z1 =
      ap (λ t. (y2 ⊖ x2) ⊗ t) (sym (sub-mul y1 x1 z1))
      ∙ sym (mul_assoc (y2 ⊖ x2) (y1 ⊖ x1) z1)
      ∙ ap (λ t. t ⊗ z1) (mul_comm (y2 ⊖ x2) (y1 ⊖ x1) ∙ difference-mul-difference x1 y1 x2 y2)

  tabled_crosses :
      (z1 : Fp2) → (x1 ⊗ y1 ⊗ z1) ⊗ (d_value ⊗ (x2 ⊗ y2 ⊕ x2 ⊗ y2)) ≡ cross x1 y1 x2 y2 ⊗ (z1 ⊕ z1)
  tabled_crosses z1 = with_d d_value
    where
      with_d :
          (d : Fp2)
          → (x1 ⊗ y1 ⊗ z1) ⊗ (d ⊗ (x2 ⊗ y2 ⊕ x2 ⊗ y2)) ≡ d ⊗ (x1 ⊗ x2 ⊗ (y1 ⊗ y2)) ⊗ (z1 ⊕ z1)
      with_d d = simp ring_rules

  -- For points in range that stand for (x1, y1), with a z that has an inverse, and, with z = 1 as the
  -- tables hold them, for (x2, y2), `eccmadd` gives coordinates in range, again with a z that has an
  -- inverse, of every (x3, y3) that is their sum by the addition law, with denominators that have
  -- inverses.
  pub eccmadd-IsAt :
      (q : PointPrecomp) (p : PointExtproj)
      → IsTabled q x2 y2
      → IsAt p x1 y1
      → IsAt (eccmadd q p) x3 y3
  unfolding eccmadd
  eccmadd-IsAt q p hq hp =
      let z1 = hp.z in
      let a =
        subst (Stands2 _) (tabled_sums z1)
          (mul_stands hq.xy_stands (add_stands hp.x_stands hp.y_stands)) in
      let b =
        subst (Stands2 _) (tabled_differences z1)
          (mul_stands hq.yx_stands (sub_stands hp.y_stands hp.x_stands)) in
      let t = subst (Stands2 _) hp.product (mul_stands hp.ta_stands hp.tb_stands) in
      let dk = subst (Stands2 _) (tabled_crosses z1) (mul_stands t hq.t2_stands) in
      close_sum-IsAt z1 a b dk (add_stands hp.z_stands hp.z_stands)
        (twice-IsUnit z1 (Stands2-reduce hp.z_stands) hp.z_unit)
