-- ===== src/Curve/Law.antt =====
-- The addition law of the curve -x ^ 2 + y ^ 2 = 1 + d x ^ 2 y ^ 2 over GF(p)[i], and what it means
-- that projective coordinates stand for a point.
use zkproof_demo.Base.{◌≡◌, ◌^◌, refl, sym, ap, ap₂, ◌∙◌, arith}
use mathlib.Core.Path.{subst}
use zkproof_demo.Quadratic.Laws.{Fp2, Stands2}
use zkproof_demo.Quadratic.Ring.{
  ◌⊕◌, ◌⊖◌, ◌⊗◌, reduce, raw_add, raw_mul, mul_comm, mul_assoc, add-mul, sub-mul, mul-regroup,
  mul-swap_factors,
}
use zkproof_demo.Curve.Points.{PointExtproj, PointExtprojPrecomp, PointPrecomp}
use zkproof_demo.Curve.Validate.{d_value, one_value}

-- d x1 x2 y1 y2
abbrev pub cross : Fp2 → Fp2 → Fp2 → Fp2 → Fp2
cross x1 y1 x2 y2 = d_value ⊗ (x1 ⊗ x2 ⊗ (y1 ⊗ y2))

-- There is an inverse.
abbrev pub IsUnit : Fp2 → Type 0
IsUnit z = (w : Fp2) × (z ⊗ w ≡ one_value)

-- (x3, y3) is the sum of (x1, y1) and (x2, y2): x3 = (x1 y2 + y1 x2) / (1 + d x1 x2 y1 y2) and
-- y3 = (y1 y2 + x1 x2) / (1 - d x1 x2 y1 y2), without the divisions; both
-- denominators have inverses.
pub record IsSum (x1 y1 x2 y2 x3 y3 : Fp2) : Type 0 where
  pub x_law : x3 ⊗ (one_value ⊕ cross x1 y1 x2 y2) ≡ x1 ⊗ y2 ⊕ y1 ⊗ x2
  pub y_law : y3 ⊗ (one_value ⊖ cross x1 y1 x2 y2) ≡ y1 ⊗ y2 ⊕ x1 ⊗ x2
  pub x_denominator : IsUnit (one_value ⊕ cross x1 y1 x2 y2)
  pub y_denominator : IsUnit (one_value ⊖ cross x1 y1 x2 y2)

-- The coordinates are (x z, y z, z), where z has an inverse, and `ta` times `tb` is x y z.
pub record IsAt (p : PointExtproj) (x y : Fp2) : Type 0 where
  pub z : Fp2
  pub ta : Fp2
  pub tb : Fp2
  pub x_stands : Stands2 p.x (x ⊗ z)
  pub y_stands : Stands2 p.y (y ⊗ z)
  pub z_stands : Stands2 p.z z
  pub ta_stands : Stands2 p.ta ta
  pub tb_stands : Stands2 p.tb tb
  pub z_unit : IsUnit z
  pub product : ta ⊗ tb ≡ x ⊗ y ⊗ z

-- The coordinates are (x + y) z, (y - x) z, 2 z and 2 d x y z, where z has an inverse.
pub record IsPrecomp (q : PointExtprojPrecomp) (x y : Fp2) : Type 0 where
  pub z : Fp2
  pub xy_stands : Stands2 q.xy ((x ⊕ y) ⊗ z)
  pub yx_stands : Stands2 q.yx ((y ⊖ x) ⊗ z)
  pub z2_stands : Stands2 q.z2 (z ⊕ z)
  pub t2_stands : Stands2 q.t2 (d_value ⊗ (x ⊗ y ⊗ (z ⊕ z)))
  pub z_unit : IsUnit z

-- The same with z = 1.
pub record IsTabled (q : PointPrecomp) (x y : Fp2) : Type 0 where
  pub xy_stands : Stands2 q.xy (x ⊕ y)
  pub yx_stands : Stands2 q.yx (y ⊖ x)
  pub t2_stands : Stands2 q.t2 (d_value ⊗ (x ⊗ y ⊕ x ⊗ y))

pub one-mul : (x : Fp2) → reduce x ≡ x → one_value ⊗ x ≡ x
unfolding ◌⊗◌ reduce
one-mul x h = ground (arith, h)

pub mul-one : (x : Fp2) → reduce x ≡ x → x ⊗ one_value ≡ x
mul-one x h = mul_comm x one_value ∙ one-mul x h

pub one-IsUnit : IsUnit one_value
unfolding ◌⊗◌ reduce raw_mul
one-IsUnit = (one_value, refl)

pub mul-IsUnit : (a b : Fp2) → IsUnit a → IsUnit b → IsUnit (a ⊗ b)
unfolding one-IsUnit
mul-IsUnit a b (v, hv) (w, hw) = (v ⊗ w, mul-swap_factors a b v w ∙ ap₂ ◌⊗◌ hv hw ∙ one-IsUnit.1)

-- 2 has the inverse 2 ^ 126.
two-IsUnit : IsUnit (one_value ⊕ one_value)
unfolding ◌⊕◌ ◌⊗◌ reduce raw_add raw_mul
two-IsUnit = (record { re = 2 ^ 126; im = 0 }, refl)

pub twice-IsUnit : (z : Fp2) → reduce z ≡ z → IsUnit z → IsUnit (z ⊕ z)
twice-IsUnit z h u =
    let e : (one_value ⊕ one_value) ⊗ z ≡ z ⊕ z =
      add-mul one_value one_value z ∙ ap₂ ◌⊕◌ (one-mul z h) (one-mul z h) in
    subst IsUnit e (mul-IsUnit (one_value ⊕ one_value) z two-IsUnit u)

-- How the three formulas end: from n k, m k, u = k + D k and v = k - D k.
module _ {x1 y1 x2 y2 x3 y3 : Fp2} (s : IsSum x1 y1 x2 y2 x3 y3) (k : Fp2) (hk : reduce k ≡ k) where
  abbrev pub above : Fp2
  above = k ⊕ cross x1 y1 x2 y2 ⊗ k

  abbrev pub below : Fp2
  below = k ⊖ cross x1 y1 x2 y2 ⊗ k

  abbrev pub sum_x : Fp2
  sum_x = (x1 ⊗ y2 ⊕ y1 ⊗ x2) ⊗ k

  abbrev pub sum_y : Fp2
  sum_y = (y1 ⊗ y2 ⊕ x1 ⊗ x2) ⊗ k

  sum_x-above : sum_x ≡ x3 ⊗ above
  sum_x-above =
      ap (λ t. t ⊗ k) (sym s.x_law)
      ∙ mul_assoc x3 (one_value ⊕ cross x1 y1 x2 y2) k
      ∙ ap (λ t. x3 ⊗ t)
          (add-mul one_value (cross x1 y1 x2 y2) k
            ∙ ap (λ t. t ⊕ cross x1 y1 x2 y2 ⊗ k) (one-mul k hk))

  sum_y-below : sum_y ≡ y3 ⊗ below
  sum_y-below =
      ap (λ t. t ⊗ k) (sym s.y_law)
      ∙ mul_assoc y3 (one_value ⊖ cross x1 y1 x2 y2) k
      ∙ ap (λ t. y3 ⊗ t)
          (sub-mul one_value (cross x1 y1 x2 y2) k
            ∙ ap (λ t. t ⊖ cross x1 y1 x2 y2 ⊗ k) (one-mul k hk))

  above-IsUnit : IsUnit k → IsUnit above
  above-IsUnit u =
      subst IsUnit
        (add-mul one_value (cross x1 y1 x2 y2) k
          ∙ ap (λ t. t ⊕ cross x1 y1 x2 y2 ⊗ k) (one-mul k hk))
        (mul-IsUnit (one_value ⊕ cross x1 y1 x2 y2) k s.x_denominator u)

  below-IsUnit : IsUnit k → IsUnit below
  below-IsUnit u =
      subst IsUnit
        (sub-mul one_value (cross x1 y1 x2 y2) k
          ∙ ap (λ t. t ⊖ cross x1 y1 x2 y2 ⊗ k) (one-mul k hk))
        (mul-IsUnit (one_value ⊖ cross x1 y1 x2 y2) k s.y_denominator u)

  pub IsAt-of :
      {p : PointExtproj} {ta tb : Fp2}
      → Stands2 p.x (sum_x ⊗ below)
      → Stands2 p.y (sum_y ⊗ above)
      → Stands2 p.z (above ⊗ below)
      → Stands2 p.ta ta
      → Stands2 p.tb tb
      → ta ⊗ tb ≡ sum_x ⊗ sum_y
      → IsUnit k
      → IsAt p x3 y3
  IsAt-of {ta} {tb} hx hy hz hta htb e u = record {
    z = above ⊗ below;
    ta = ta;
    tb = tb;
    x_stands = subst (Stands2 _) (ap (λ t. t ⊗ below) sum_x-above ∙ mul_assoc x3 above below) hx;
    y_stands = subst (Stands2 _) (ap (λ t. t ⊗ above) sum_y-below ∙ mul-regroup y3 below above) hy;
    z_stands = hz;
    ta_stands = hta;
    tb_stands = htb;
    z_unit = mul-IsUnit above below (above-IsUnit u) (below-IsUnit u);
    product = e ∙ ap₂ ◌⊗◌ sum_x-above sum_y-below ∙ mul-swap_factors x3 above y3 below;
  }
