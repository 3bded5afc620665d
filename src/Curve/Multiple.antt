-- ===== src/Curve/Multiple.antt =====
-- `cofactor_clearing` gives 392 times its point.
use zkproof_demo.Base.{ℕ, ◌+◌}
use zkproof_demo.Quadratic.Laws.{Fp2}
use zkproof_demo.Curve.{cofactor_clearing}
use zkproof_demo.Curve.Points.{PointExtproj}
use zkproof_demo.Curve.Validate.{OnCurve}
use zkproof_demo.Curve.Law.{IsSum, IsAt}
use zkproof_demo.Curve.Sum.{r1_to_r2-IsPrecomp, eccadd-IsAt}
use zkproof_demo.Curve.Double.{eccdouble-IsAt}

-- The affine multiples of a point of the curve: each is on the curve, twice the n-th is the (n + n)-th,
-- and with the first added it is the next.
pub record AreMultiples (x y : ℕ → Fp2) : Type 0 where
  pub on_curve : (n : ℕ) → OnCurve (x n) (y n)
  pub doubles : (n : ℕ) → IsSum (x n) (y n) (x n) (y n) (x (n + n)) (y (n + n))
  pub next : (n : ℕ) → IsSum (x n) (y n) (x 1) (y 1) (x (n + 1)) (y (n + 1))

-- For the multiples of a point of the curve by the addition law, and a point in range that stands for
-- the first of them with a z that has an inverse, `cofactor_clearing` gives coordinates in range of the
-- 392nd, again with a z that has an inverse.
pub cofactor_clearing-IsAt :
    {x y : ℕ → Fp2} (r : PointExtproj)
    → AreMultiples x y
    → IsAt r (x 1) (y 1)
    → IsAt (cofactor_clearing r) (x 392) (y 392)
unfolding cofactor_clearing
cofactor_clearing-IsAt r ms h1 =
    let q = r1_to_r2-IsPrecomp r h1 in
    let h2 = eccdouble-IsAt (ms.doubles 1) (ms.on_curve 1) r h1 in
    let h3 = eccadd-IsAt (ms.next 2) _ _ q h2 in
    let h6 = eccdouble-IsAt (ms.doubles 3) (ms.on_curve 3) _ h3 in
    let h12 = eccdouble-IsAt (ms.doubles 6) (ms.on_curve 6) _ h6 in
    let h24 = eccdouble-IsAt (ms.doubles 12) (ms.on_curve 12) _ h12 in
    let h48 = eccdouble-IsAt (ms.doubles 24) (ms.on_curve 24) _ h24 in
    let h49 = eccadd-IsAt (ms.next 48) _ _ q h48 in
    let h98 = eccdouble-IsAt (ms.doubles 49) (ms.on_curve 49) _ h49 in
    let h196 = eccdouble-IsAt (ms.doubles 98) (ms.on_curve 98) _ h98 in
    eccdouble-IsAt (ms.doubles 196) (ms.on_curve 196) _ h196
