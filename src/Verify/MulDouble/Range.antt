-- ===== src/Verify/MulDouble/Range.antt =====
-- `ecc_mul_double` keeps every coordinate in 127 bits, and its digits index within the tables.
use zkproof_demo.Base.{
  ℕ, zero, suc, ◌*◌, ◌≡◌, ◌⊎◌, inl, inr, refl, false, none, some, List, [], ◌∷◌, get_or, Bool-cases,
  arith,
}
use zkproof_demo.Curve.{point_setup, ecc_point_validate}
use zkproof_demo.Curve.Points.{PointAffine, PointExtproj, PointExtprojPrecomp, PointPrecomp}
use zkproof_demo.Curve.Range.{
  AffineRange, ExtprojRange, PrecompRange, FixedRange, r1_to_r2_range, r1_to_r3_range,
  eccdouble_range, eccnorm_range, eccadd_core_range, eccadd_range, eccmadd_range,
  eccneg_extproj_range, eccneg_range, point_setup_range,
}
use zkproof_demo.Curve.Range.Maps.{ecc_psi_range, ecc_phi_range}
use zkproof_demo.Scalar.Recode.{ℤ, pos, negsuc}
use zkproof_demo.Tables.{no_point}
use zkproof_demo.Tables.Range.{double_scalar_table_range}
use zkproof_demo.Verify.MulDouble.{
  ecc_precomp_double, no_multiple, add_multiple, add_fixed, Parts, mul_round, mul_loop, mul_parts,
  neutral, ecc_mul_double,
}

pub data AllMultiples : List PointExtprojPrecomp → Type 0 where
  no_more : AllMultiples []
  one_multiple :
      {p : PointExtprojPrecomp} {ps : List PointExtprojPrecomp}
      → PrecompRange p
      → AllMultiples ps
      → AllMultiples (p ∷ ps)

no_multiple_range : PrecompRange no_multiple
no_multiple_range = omega arith

multiples-get_or :
    (ps : List PointExtprojPrecomp) (i : ℕ)
    → AllMultiples ps
    → PrecompRange (get_or ps i no_multiple)
multiples-get_or [] i h = no_multiple_range
multiples-get_or (p ∷ ps) zero (one_multiple h hs) = h
multiples-get_or (p ∷ ps) (suc i) (one_multiple h hs) = multiples-get_or ps i hs

ecc_precomp_double_range : {p : PointExtproj} → ExtprojRange p → AllMultiples (ecc_precomp_double p)
unfolding ecc_precomp_double
ecc_precomp_double_range hp =
    let t0 = r1_to_r2_range hp in
    let pp = r1_to_r3_range (eccdouble_range hp) in
    let t1 = r1_to_r2_range (eccadd_core_range t0 pp) in
    let t2 = r1_to_r2_range (eccadd_core_range t1 pp) in
    let t3 = r1_to_r2_range (eccadd_core_range t2 pp) in
    one_multiple t0 (one_multiple t1 (one_multiple t2 (one_multiple t3 no_more)))

add_multiple_range :
    (table : List PointExtprojPrecomp) (d : ℤ) {t : PointExtproj}
    → AllMultiples table
    → ExtprojRange t
    → ExtprojRange (add_multiple table d t)
unfolding add_multiple
add_multiple_range table (negsuc n) h ht =
    eccadd_range (eccneg_extproj_range (multiples-get_or table _ h)) ht
add_multiple_range table (pos zero) h ht = ht
add_multiple_range table (pos (suc n)) h ht = eccadd_range (multiples-get_or table _ h) ht

add_fixed_range :
    (dst : List PointPrecomp) (base : ℕ) (d : ℤ) {t : PointExtproj}
    → ((j : ℕ) → FixedRange (get_or dst j no_point))
    → ExtprojRange t
    → ExtprojRange (add_fixed dst base d t)
unfolding add_fixed
add_fixed_range dst base (negsuc n) h ht = eccmadd_range (eccneg_range (h _)) ht
add_fixed_range dst base (pos zero) h ht = ht
add_fixed_range dst base (pos (suc n)) h ht = eccmadd_range (h _) ht

pub record PartsRange (d : Parts) : Type 0 where
  pub table1_range : AllMultiples d.q_table1
  pub table2_range : AllMultiples d.q_table2
  pub table3_range : AllMultiples d.q_table3
  pub table4_range : AllMultiples d.q_table4
  pub dst_range : (j : ℕ) → FixedRange (get_or d.dst j no_point)

mul_round_range :
    (d : Parts) (i : ℕ) {t : PointExtproj}
    → PartsRange d
    → ExtprojRange t
    → ExtprojRange (mul_round d i t)
unfolding mul_round
mul_round_range d i h ht =
    let t = eccdouble_range ht in
    let t = add_multiple_range d.q_table1 (get_or d.digits_l1 i (pos 0)) h.table1_range t in
    let t = add_multiple_range d.q_table2 (get_or d.digits_l2 i (pos 0)) h.table2_range t in
    let t = add_multiple_range d.q_table3 (get_or d.digits_l3 i (pos 0)) h.table3_range t in
    let t = add_multiple_range d.q_table4 (get_or d.digits_l4 i (pos 0)) h.table4_range t in
    let t = add_fixed_range d.dst 0 (get_or d.digits_k1 i (pos 0)) h.dst_range t in
    let t = add_fixed_range d.dst 64 (get_or d.digits_k2 i (pos 0)) h.dst_range t in
    let t = add_fixed_range d.dst (2 * 64) (get_or d.digits_k3 i (pos 0)) h.dst_range t in
    add_fixed_range d.dst (3 * 64) (get_or d.digits_k4 i (pos 0)) h.dst_range t

mul_loop_range :
    (d : Parts) (n : ℕ) {t : PointExtproj}
    → PartsRange d
    → ExtprojRange t
    → ExtprojRange (mul_loop d n t)
unfolding mul_loop
mul_loop_range d zero h ht = ht
mul_loop_range d (suc i) h ht = mul_loop_range d i h (mul_round_range d i h ht)

mul_parts_range : (k l : List ℕ) {q : PointExtproj} → ExtprojRange q → PartsRange (mul_parts k l q)
unfolding mul_parts
mul_parts_range k l hq =
    let q2 = ecc_phi_range hq in
    record {
      table1_range = ecc_precomp_double_range hq;
      table2_range = ecc_precomp_double_range q2;
      table3_range = ecc_precomp_double_range (ecc_psi_range hq);
      table4_range = ecc_precomp_double_range (ecc_psi_range q2);
      dst_range = double_scalar_table_range;
    }

neutral_range : ExtprojRange neutral
neutral_range = omega arith

-- For a point in range, `ecc_mul_double` fails on a point that `ecc_point_validate` refuses, and only
-- then; otherwise the point that it gives is in range: no coordinate leaves 127 bits in the 65 rounds.
pub ecc_mul_double_range :
    (k l : List ℕ) (q : PointAffine)
    → AffineRange q
    → ((ecc_point_validate (point_setup q) ≡ false) × (ecc_mul_double k l q ≡ none))
      ⊎ ((r : PointAffine) × (ecc_mul_double k l q ≡ some r) × AffineRange r)
unfolding ecc_mul_double
ecc_mul_double_range k l q hq =
    let start = point_setup_range hq in
    let loop =
      mul_loop_range (mul_parts k l (point_setup q)) 65 (mul_parts_range k l start) neutral_range in
    elim (Bool-cases (ecc_point_validate (point_setup q))) [
      | inl valid ↦ inr (_, rw (valid, ecc_mul_double) refl, eccnorm_range loop)
      | inr refused ↦ inl (refused, rw (refused, ecc_mul_double) refl)
    ]
