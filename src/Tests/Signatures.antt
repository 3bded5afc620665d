-- ===== src/Tests/Signatures.antt =====
-- Verification at the first vector of crypto/tests/vectors/schnorrq_vectors.txt, and the curve at the
-- neutral point.
use zkproof_demo.Base.{ℕ, ◌<◌, ◌≡◌, ◌⊎◌, ◌↔◌, true, false, none, some, List, [], ◌∷◌, drop, arith}
use zkproof_demo.Field.{Felm, felm_value}
use zkproof_demo.Field.Modular.{Stands-self}
use zkproof_demo.Quadratic.{fp2_zero, fp2_one}
use zkproof_demo.Quadratic.Laws.{Fp2, Stands2}
use zkproof_demo.Curve.{limbs_vanish, point_setup, ecc_point_validate}
use zkproof_demo.Curve.Points.{PointAffine, PointExtproj}
use zkproof_demo.Curve.Range.{AffineRange}
use zkproof_demo.Curve.Validate.{OnCurve, one_value, limbs_vanish_lem, ecc_point_validate-OnCurve}
use zkproof_demo.Scalar.{value, curve_order, ell1}
use zkproof_demo.Scalar.Order.{order}
use zkproof_demo.Sponge.{load_lanes}
use zkproof_demo.Sponge.Bytes.{IsBytes}
use zkproof_demo.Verify.{canonical, decode, verify}
use zkproof_demo.Verify.Decode.{Decoded, decode-Decoded}
use zkproof_demo.Verify.Guards.{Accepted, canonical-eq-less, verify-Accepted}
use zkproof_demo.Verify.MulDouble.{mul_parts, ecc_mul_double}
use zkproof_demo.Verify.MulDouble.Digits.{Selects, mul_parts-Selects}
use zkproof_demo.Verify.MulDouble.Range.{ecc_mul_double_range}

abbrev public_key : List ℕ
public_key =
    117 ∷ 222 ∷ 192 ∷ 98 ∷ 193 ∷ 162 ∷ 178 ∷ 84 ∷ 237 ∷ 176 ∷ 168 ∷ 115 ∷ 65 ∷ 135 ∷ 171 ∷ 30 ∷ 19
    ∷ 165 ∷ 8 ∷ 249 ∷ 128 ∷ 141 ∷ 171 ∷ 228 ∷ 137 ∷ 26 ∷ 225 ∷ 220 ∷ 12 ∷ 44 ∷ 106 ∷ 13 ∷ []

abbrev signature : List ℕ
signature =
    166 ∷ 223 ∷ 50 ∷ 150 ∷ 190 ∷ 125 ∷ 2 ∷ 16 ∷ 158 ∷ 169 ∷ 250 ∷ 175 ∷ 176 ∷ 120 ∷ 167 ∷ 68 ∷ 215
    ∷ 128 ∷ 150 ∷ 210 ∷ 60 ∷ 13 ∷ 97 ∷ 15 ∷ 9 ∷ 7 ∷ 230 ∷ 151 ∷ 211 ∷ 149 ∷ 135 ∷ 72 ∷ 168 ∷ 138
    ∷ 15 ∷ 219 ∷ 36 ∷ 225 ∷ 196 ∷ 1 ∷ 12 ∷ 121 ∷ 229 ∷ 237 ∷ 143 ∷ 218 ∷ 15 ∷ 175 ∷ 199 ∷ 110 ∷ 173
    ∷ 187 ∷ 160 ∷ 86 ∷ 217 ∷ 187 ∷ 114 ∷ 227 ∷ 218 ∷ 144 ∷ 62 ∷ 18 ∷ 24 ∷ 0 ∷ []

abbrev message_digest : List ℕ
message_digest =
    19 ∷ 7 ∷ 136 ∷ 15 ∷ 154 ∷ 150 ∷ 208 ∷ 20 ∷ 112 ∷ 153 ∷ 101 ∷ 250 ∷ 234 ∷ 102 ∷ 108 ∷ 34 ∷ 157
    ∷ 93 ∷ 178 ∷ 180 ∷ 181 ∷ 150 ∷ 157 ∷ 73 ∷ 85 ∷ 4 ∷ 5 ∷ 79 ∷ 247 ∷ 210 ∷ 240 ∷ 62 ∷ []

public_key-IsBytes : IsBytes public_key
public_key-IsBytes = omega arith

message_digest-IsBytes : IsBytes message_digest
message_digest-IsBytes = omega arith

signature-IsBytes : IsBytes signature
signature-IsBytes = omega arith

verify-Accepted_example :
    (verify public_key message_digest signature ≡ false)
    ⊎ Accepted public_key message_digest signature
verify-Accepted_example =
    verify-Accepted public_key message_digest signature public_key-IsBytes message_digest-IsBytes
      signature-IsBytes

canonical-eq-less_example :
    (canonical signature ≡ true) ↔ (value (load_lanes 4 (drop 32 signature)) < order)
canonical-eq-less_example = canonical-eq-less signature signature-IsBytes

decode-Decoded_example :
    (decode public_key ≡ none) ⊎ ((p : PointAffine) × (decode public_key ≡ some p) × Decoded p)
decode-Decoded_example = decode-Decoded public_key public_key-IsBytes (omega arith)

abbrev neutral_point : PointAffine
neutral_point = record { x = fp2_zero; y = fp2_one }

neutral_point-AffineRange : AffineRange neutral_point
neutral_point-AffineRange = omega arith

ecc_mul_double_range_example :
    ((ecc_point_validate (point_setup neutral_point) ≡ false)
      × (ecc_mul_double curve_order ell1 neutral_point ≡ none))
    ⊎ ((r : PointAffine) × (ecc_mul_double curve_order ell1 neutral_point ≡ some r) × AffineRange r)
ecc_mul_double_range_example =
    ecc_mul_double_range curve_order ell1 neutral_point neutral_point-AffineRange

abbrev neutral_start : PointExtproj
neutral_start = record { x = fp2_zero; y = fp2_one; z = fp2_one; ta = fp2_zero; tb = fp2_one }

mul_parts-Selects_example :
    (Selects 8 (mul_parts curve_order ell1 neutral_start).digits_k1
      × Selects 8 (mul_parts curve_order ell1 neutral_start).digits_k2)
    × (Selects 8 (mul_parts curve_order ell1 neutral_start).digits_k3
        × Selects 8 (mul_parts curve_order ell1 neutral_start).digits_k4)
    × (Selects 4 (mul_parts curve_order ell1 neutral_start).digits_l1
        × Selects 4 (mul_parts curve_order ell1 neutral_start).digits_l2)
    × (Selects 4 (mul_parts curve_order ell1 neutral_start).digits_l3
        × Selects 4 (mul_parts curve_order ell1 neutral_start).digits_l4)
mul_parts-Selects_example = mul_parts-Selects curve_order ell1 neutral_start

abbrev zero_value : Fp2
zero_value = record { re = 0; im = 0 }

fp2_zero-Stands2 : Stands2 fp2_zero zero_value
fp2_zero-Stands2 = record {
  c0_stands = Stands-self fp2_zero.c0 (omega arith);
  c1_stands = Stands-self fp2_zero.c1 (omega arith);
}

fp2_one-Stands2 : Stands2 fp2_one one_value
fp2_one-Stands2 = record {
  c0_stands = Stands-self fp2_one.c0 (omega arith);
  c1_stands = Stands-self fp2_one.c1 (omega arith);
}

ecc_point_validate-OnCurve_example :
    (ecc_point_validate neutral_start ≡ false) ⊎ OnCurve zero_value one_value
ecc_point_validate-OnCurve_example =
    ecc_point_validate-OnCurve neutral_start zero_value one_value fp2_zero-Stands2 fp2_one-Stands2

-- p, the second representation of zero
abbrev full_zero : Felm
full_zero = record { lo = 0xFFFFFFFFFFFFFFFF; hi = 0x7FFFFFFFFFFFFFFF }

limbs_vanish_lem_example : (limbs_vanish full_zero ≡ true) ↔ (felm_value full_zero ≡ 0)
limbs_vanish_lem_example = limbs_vanish_lem full_zero (omega arith)
