-- ===== src/Verify/MulDouble.antt =====
-- The double scalar multiplication of crypto/src/riscv_fourq_verify.c: `ecc_precomp_double` and
-- `ecc_mul_double`. The digits of a scalar are read from the highest, at index 64, down.
pub mod Range
pub mod Digits
pub mod Combine
pub mod Selected
pub mod Refine
use zkproof_demo.Base.{
  ℕ, zero, suc, ◌+◌, ◌*◌, true, false, Option, none, some, List, [], ◌∷◌, get_or,
}
use zkproof_demo.Word.{◌>>>◌}
use zkproof_demo.Quadratic.{fp2_one, fp2_zero}
use zkproof_demo.Curve.{
  eccnorm, r1_to_r2, r1_to_r3, eccdouble, eccadd_core, eccadd, point_setup, ecc_point_validate,
  eccmadd, eccneg_extproj_precomp, eccneg_precomp,
}
use zkproof_demo.Curve.Points.{PointAffine, PointExtproj, PointExtprojPrecomp, PointPrecomp}
use zkproof_demo.Curve.Endomorphisms.{ecc_phi, ecc_psi}
use zkproof_demo.Scalar.{decompose}
use zkproof_demo.Scalar.Recode.{ℤ, pos, negsuc, wnaf_recode}
use zkproof_demo.Tables.{no_point, double_scalar_table}

-- P, 3P, 5P, 7P
unfoldable pub ecc_precomp_double : PointExtproj → List PointExtprojPrecomp
ecc_precomp_double p =
    let t0 = r1_to_r2 p in
    let pp = r1_to_r3 (eccdouble p) in
    let t1 = r1_to_r2 (eccadd_core t0 pp) in
    let t2 = r1_to_r2 (eccadd_core t1 pp) in
    let t3 = r1_to_r2 (eccadd_core t2 pp) in t0 ∷ t1 ∷ t2 ∷ t3 ∷ []

-- An entry past the end of a table of multiples.
abbrev pub no_multiple : PointExtprojPrecomp
no_multiple = record { xy = fp2_zero; yx = fp2_zero; z2 = fp2_zero; t2 = fp2_zero }

-- The digit of `l` at one index.
unfoldable pub add_multiple : List PointExtprojPrecomp → ℤ → PointExtproj → PointExtproj
add_multiple table (negsuc n) t =
    eccadd (eccneg_extproj_precomp (get_or table (suc n >>> 1) no_multiple)) t
add_multiple table (pos zero) t = t
add_multiple table (pos (suc n)) t = eccadd (get_or table (suc n >>> 1) no_multiple) t

-- The digit of `k` at one index; `base` is the first entry of its part of `DST`.
unfoldable pub add_fixed : List PointPrecomp → ℕ → ℤ → PointExtproj → PointExtproj
add_fixed dst base (negsuc n) t =
    eccmadd (eccneg_precomp (get_or dst (base + (suc n >>> 1)) no_point)) t
add_fixed dst base (pos zero) t = t
add_fixed dst base (pos (suc n)) t = eccmadd (get_or dst (base + (suc n >>> 1)) no_point) t

-- The local variables that the loop reads: the digits of the eight parts, the multiples for those of
-- `l`, and `DST`.
pub record Parts : Type 0 where
  pub digits_k1 : List ℤ
  pub digits_k2 : List ℤ
  pub digits_k3 : List ℤ
  pub digits_k4 : List ℤ
  pub digits_l1 : List ℤ
  pub digits_l2 : List ℤ
  pub digits_l3 : List ℤ
  pub digits_l4 : List ℤ
  pub q_table1 : List PointExtprojPrecomp
  pub q_table2 : List PointExtprojPrecomp
  pub q_table3 : List PointExtprojPrecomp
  pub q_table4 : List PointExtprojPrecomp
  pub dst : List PointPrecomp

unfoldable pub mul_round : Parts → ℕ → PointExtproj → PointExtproj
mul_round d i t =
    let t = eccdouble t in
    let t = add_multiple d.q_table1 (get_or d.digits_l1 i (pos 0)) t in
    let t = add_multiple d.q_table2 (get_or d.digits_l2 i (pos 0)) t in
    let t = add_multiple d.q_table3 (get_or d.digits_l3 i (pos 0)) t in
    let t = add_multiple d.q_table4 (get_or d.digits_l4 i (pos 0)) t in
    let t = add_fixed d.dst 0 (get_or d.digits_k1 i (pos 0)) t in
    let t = add_fixed d.dst 64 (get_or d.digits_k2 i (pos 0)) t in
    let t = add_fixed d.dst (2 * 64) (get_or d.digits_k3 i (pos 0)) t in
    add_fixed d.dst (3 * 64) (get_or d.digits_k4 i (pos 0)) t

-- `for (unsigned int i = 65; i--; )`
unfoldable pub mul_loop : Parts → ℕ → PointExtproj → PointExtproj
mul_loop d zero t = t
mul_loop d (suc i) t = mul_loop d i (mul_round d i t)

-- The digits of the scalars and the multiples of the four points.
abbrev pub parts_of :
    List PointPrecomp
    → List ℕ
    → List ℕ
    → PointExtproj
    → PointExtproj
    → PointExtproj
    → PointExtproj
    → Parts
parts_of dst k_scalars l_scalars q1 q2 q3 q4 = record {
  digits_k1 = wnaf_recode (get_or k_scalars 0 0) 8;
  digits_k2 = wnaf_recode (get_or k_scalars 1 0) 8;
  digits_k3 = wnaf_recode (get_or k_scalars 2 0) 8;
  digits_k4 = wnaf_recode (get_or k_scalars 3 0) 8;
  digits_l1 = wnaf_recode (get_or l_scalars 0 0) 4;
  digits_l2 = wnaf_recode (get_or l_scalars 1 0) 4;
  digits_l3 = wnaf_recode (get_or l_scalars 2 0) 4;
  digits_l4 = wnaf_recode (get_or l_scalars 3 0) 4;
  q_table1 = ecc_precomp_double q1;
  q_table2 = ecc_precomp_double q2;
  q_table3 = ecc_precomp_double q3;
  q_table4 = ecc_precomp_double q4;
  dst = dst;
}

unfoldable pub mul_parts : List ℕ → List ℕ → PointExtproj → Parts
mul_parts k l q1 =
    let q2 = ecc_phi q1 in
    parts_of double_scalar_table (decompose k) (decompose l) q1 q2 (ecc_psi q1) (ecc_psi q2)

-- `T` before the loop; its `ta` and `tb` are not set, and the first doubling does not read them.
abbrev pub neutral : PointExtproj
neutral = record { x = fp2_zero; y = fp2_one; z = fp2_one; ta = fp2_zero; tb = fp2_zero }

unfoldable pub ecc_mul_double : List ℕ → List ℕ → PointAffine → Option PointAffine
ecc_mul_double k l q =
    let q1 = point_setup q in
    elim (ecc_point_validate q1) [
      | false ↦ none
      | true ↦ some (eccnorm (mul_loop (mul_parts k l q1) 65 neutral))
    ]
