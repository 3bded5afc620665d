-- ===== src/Curve/Range/Maps.antt =====
-- The endomorphisms keep every coordinate in 127 bits.
use zkproof_demo.Base.{arith}
use zkproof_demo.Quadratic.{IsF2elm}
use zkproof_demo.Quadratic.Range.{range2_rules}
use zkproof_demo.Curve.Endomorphisms.{
  ctau1, ctaudual1, cphi0, cphi1, cphi2, cphi3, cphi4, cphi5, cphi6, cphi7, cphi8, cphi9, cpsi1,
  cpsi2, cpsi3, cpsi4, ecc_tau, ecc_tau_dual, ecc_delphidel, ecc_delpsidel, ecc_psi, ecc_phi,
}
use zkproof_demo.Curve.Points.{PointExtproj}
use zkproof_demo.Curve.Range.{ExtprojRange}

ctau1_range : IsF2elm ctau1
ctau1_range = omega arith

ctaudual1_range : IsF2elm ctaudual1
ctaudual1_range = omega arith

cphi0_range : IsF2elm cphi0
cphi0_range = omega arith

cphi1_range : IsF2elm cphi1
cphi1_range = omega arith

cphi2_range : IsF2elm cphi2
cphi2_range = omega arith

cphi3_range : IsF2elm cphi3
cphi3_range = omega arith

cphi4_range : IsF2elm cphi4
cphi4_range = omega arith

cphi5_range : IsF2elm cphi5
cphi5_range = omega arith

cphi6_range : IsF2elm cphi6
cphi6_range = omega arith

cphi7_range : IsF2elm cphi7
cphi7_range = omega arith

cphi8_range : IsF2elm cphi8
cphi8_range = omega arith

cphi9_range : IsF2elm cphi9
cphi9_range = omega arith

cpsi1_range : IsF2elm cpsi1
cpsi1_range = omega arith

cpsi2_range : IsF2elm cpsi2
cpsi2_range = omega arith

cpsi3_range : IsF2elm cpsi3
cpsi3_range = omega arith

cpsi4_range : IsF2elm cpsi4
cpsi4_range = omega arith

ruleset constant_ranges = (
  ctau1_range, ctaudual1_range, cphi0_range, cphi1_range, cphi2_range, cphi3_range, cphi4_range,
  cphi5_range, cphi6_range, cphi7_range, cphi8_range, cphi9_range, cpsi1_range, cpsi2_range,
  cpsi3_range, cpsi4_range,
)

module _ {p : PointExtproj} (hp : ExtprojRange p) where
  pub ecc_tau_range : ExtprojRange (ecc_tau p)
  unfolding ecc_tau
  ecc_tau_range = search (range2_rules, constant_ranges)

  pub ecc_tau_dual_range : ExtprojRange (ecc_tau_dual p)
  unfolding ecc_tau_dual
  ecc_tau_dual_range = search (range2_rules, constant_ranges)

  pub ecc_delphidel_range : ExtprojRange (ecc_delphidel p)
  unfolding ecc_delphidel
  ecc_delphidel_range = search (range2_rules, constant_ranges) depth 40

  pub ecc_delpsidel_range : ExtprojRange (ecc_delpsidel p)
  unfolding ecc_delpsidel
  ecc_delpsidel_range = search (range2_rules, constant_ranges) depth 40

pub ecc_psi_range : {p : PointExtproj} → ExtprojRange p → ExtprojRange (ecc_psi p)
unfolding ecc_psi
ecc_psi_range hp = ecc_tau_dual_range (ecc_delpsidel_range (ecc_tau_range hp))

pub ecc_phi_range : {p : PointExtproj} → ExtprojRange p → ExtprojRange (ecc_phi p)
unfolding ecc_phi
ecc_phi_range hp = ecc_tau_dual_range (ecc_delphidel_range (ecc_tau_range hp))
