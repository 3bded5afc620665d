-- ===== src/Curve/Group.antt =====
-- The points of the curve as a commutative group under the addition law, and the multiples of a
-- point. The group is a parameter of what is proved of the scalar multiplication.
use zkproof_demo.Base.{ℕ, zero, suc, ◌+◌, ◌≡◌, sym, ap, ◌∙◌, arith}
use zkproof_demo.Quadratic.Laws.{Fp2}
use zkproof_demo.Quadratic.Ring.{◌⊗◌, neg_one}
use zkproof_demo.Curve.Points.{PointExtproj, PointExtprojPrecomp, PointPrecomp}
use zkproof_demo.Curve.Validate.{OnCurve, one_value}
use zkproof_demo.Curve.Law.{IsSum, IsAt, IsPrecomp, IsTabled}

-- Points with affine coordinates on the curve, the neutral point (0, 1), opposites (-x, y) and sums by
-- the addition law.
pub record CurveGroup (A : Type 0) : Type 0 where
  pub origin : A
  pub sum : A → A → A
  pub opposite : A → A
  pub sum_comm : (a b : A) → sum a b ≡ sum b a
  pub sum_assoc : (a b c : A) → sum (sum a b) c ≡ sum a (sum b c)
  pub sum_origin : (a : A) → sum a origin ≡ a
  pub sum_opposite : (a : A) → sum a (opposite a) ≡ origin
  pub x : A → Fp2
  pub y : A → Fp2
  pub x_origin : x origin ≡ record { re = 0; im = 0 }
  pub y_origin : y origin ≡ one_value
  pub x_opposite : (a : A) → x (opposite a) ≡ neg_one ⊗ x a
  pub y_opposite : (a : A) → y (opposite a) ≡ y a
  pub on_curve : (a : A) → OnCurve (x a) (y a)
  pub sum_law : (a b : A) → IsSum (x a) (y a) (x b) (y b) (x (sum a b)) (y (sum a b))

module _ {A : Type 0} (g : CurveGroup A) where
  abbrev pub Holds : PointExtproj → A → Type 0
  Holds p a = IsAt p (g.x a) (g.y a)

  abbrev pub Prepares : PointExtprojPrecomp → A → Type 0
  Prepares q a = IsPrecomp q (g.x a) (g.y a)

  abbrev pub Tables : PointPrecomp → A → Type 0
  Tables q a = IsTabled q (g.x a) (g.y a)

  -- n a
  unfoldable pub multiple : ℕ → A → A
  multiple zero a = g.origin
  multiple (suc n) a = g.sum a (multiple n a)

  pub sum_left_comm : (a b c : A) → g.sum a (g.sum b c) ≡ g.sum b (g.sum a c)
  sum_left_comm a b c =
      sym (g.sum_assoc a b c) ∙ ap (λ t. g.sum t c) (g.sum_comm a b) ∙ g.sum_assoc b a c

  pub origin_sum : (a : A) → g.sum g.origin a ≡ a
  origin_sum a = g.sum_comm g.origin a ∙ g.sum_origin a

  pub interchange : (a b c d : A) → g.sum (g.sum a b) (g.sum c d) ≡ g.sum (g.sum a c) (g.sum b d)
  interchange a b c d =
      g.sum_assoc a b (g.sum c d)
      ∙ ap (g.sum a) (sum_left_comm b c d)
      ∙ sym (g.sum_assoc a c (g.sum b d))

  pub multiple_add : (m n : ℕ) (a : A) → multiple (m + n) a ≡ g.sum (multiple m a) (multiple n a)
  unfolding multiple
  multiple_add zero n a =
      let e : 0 + n ≡ n = omega arith in ap (λ t. multiple t a) e ∙ sym (origin_sum (multiple n a))
  multiple_add (suc m) n a =
      let e : suc m + n ≡ suc (m + n) = omega arith in
      ap (λ t. multiple t a) e
      ∙ ap (g.sum a) (multiple_add m n a)
      ∙ sym (g.sum_assoc a (multiple m a) (multiple n a))

  pub multiple_one : (a : A) → multiple 1 a ≡ a
  unfolding multiple
  multiple_one a = g.sum_origin a

  -- An end of a sum determines the other.
  pub sum_cancel : (a b c : A) → g.sum a c ≡ g.sum b c → a ≡ b
  sum_cancel a b c e = sym (drop_end a) ∙ ap (λ t. g.sum t (g.opposite c)) e ∙ drop_end b
    where
      drop_end : (a : A) → g.sum (g.sum a c) (g.opposite c) ≡ a
      drop_end a = g.sum_assoc a c (g.opposite c) ∙ ap (g.sum a) (g.sum_opposite c) ∙ g.sum_origin a
