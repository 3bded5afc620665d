-- ===== src/Curve/Points.antt =====
-- The representations of a point: `point_affine`, `point_extproj` (R1), `point_extproj_precomp` (R2,
-- R3) and `point_precomp`.
use zkproof_demo.Quadratic.{F2elm}

pub record PointAffine : Type 0 where
  pub x : F2elm
  pub y : F2elm

pub record PointExtproj : Type 0 where
  pub x : F2elm
  pub y : F2elm
  pub z : F2elm
  pub ta : F2elm
  pub tb : F2elm

pub record PointExtprojPrecomp : Type 0 where
  pub xy : F2elm
  pub yx : F2elm
  pub z2 : F2elm
  pub t2 : F2elm

pub record PointPrecomp : Type 0 where
  pub xy : F2elm
  pub yx : F2elm
  pub t2 : F2elm
