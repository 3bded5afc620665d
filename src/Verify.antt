-- ===== src/Verify.antt =====
-- SchnorrQ verification in crypto/src/riscv_fourq_verify.c: `encode`, `decode`, `verify` and the
-- exported `fourq_verify` and `fourq_verify_signature`. A function that returns FALSE returns `none`
-- in place of a point.
pub mod MulDouble
pub mod Decode
pub mod Meaning
pub mod Guards
use zkproof_demo.Base.{
  ℕ, suc, ◌-◌, ◌^◌, ◌%◌, bit_and, bit_or, Bool, true, false, not, ◌&&◌, ◌||◌, ◌==◌, ltb, flag,
  if◌then◌else◌, Option, none, some, List, [], ◌∷◌, ◌++◌, get_or, length, take, drop,
}
use zkproof_demo.Base.Bytes.{bytes_equal}
use zkproof_demo.Word.{◌<<<◌, ◌>>>◌}
use zkproof_demo.Field.{
  Felm, low63, mod1271, fpadd1271, fpsub1271, fpneg1271, fpmul1271, fpsqr1271, sqr_times, fpexp1251,
  fpdiv1271,
}
use zkproof_demo.Quadratic.{
  F2elm, fp2_one, fp2sqr1271, fp2mul1271, fp2add1271, fp2sub1271, fp2neg1271,
}
use zkproof_demo.Sponge.{load_lanes, lane_bytes, state_bytes}
use zkproof_demo.K12.{kangaroo_twelve}
use zkproof_demo.Curve.{parameter_d, point_setup, ecc_point_validate, cofactor_clearing}
use zkproof_demo.Curve.Points.{PointAffine, PointExtproj}
use zkproof_demo.Scalar.{curve_order}
use MulDouble.{ecc_mul_double}

-- `!a[0] && !a[1]`
unfoldable pub limbs_zero : Felm → Bool
limbs_zero a = (a.lo == 0) && (a.hi == 0)

unfoldable pub encode : PointAffine → List ℕ
encode p =
    let temp1 = bit_and p.x.c1.hi 0x4000000000000000 <<< 1 in
    let temp2 = bit_and p.x.c0.hi 0x4000000000000000 <<< 1 in
    let top = if limbs_zero p.x.c0 then bit_or p.y.c1.hi temp1 else bit_or p.y.c1.hi temp2 in
    state_bytes (p.y.c0.lo ∷ p.y.c0.hi ∷ p.y.c1.lo ∷ top ∷ [])

-- `copyMem(P->y, Pencoded, 32)`, and the sign bit off.
unfoldable pub decode_y : List ℕ → F2elm
decode_y encoded =
    let w = load_lanes 4 encoded in
    record {
      c0 = record { lo = get_or w 0 0; hi = get_or w 1 0 };
      c1 = record { lo = get_or w 2 0; hi = bit_and (get_or w 3 0) low63 };
    }

-- The candidate for `x` that `u = y ^ 2 - 1` and `v = d y ^ 2 + 1` give.
unfoldable pub decode_x : F2elm → F2elm → F2elm
decode_x u v =
    let t0 = fpadd1271 (fpsqr1271 v.c0) (fpsqr1271 v.c1) in
    let t1 = fpadd1271 (fpmul1271 u.c0 v.c0) (fpmul1271 u.c1 v.c1) in
    let t2 = fpsub1271 (fpmul1271 u.c1 v.c0) (fpmul1271 u.c0 v.c1) in
    let t3 = sqr_times 125 (fpadd1271 (fpsqr1271 t1) (fpsqr1271 t2)) in
    let t = mod1271 (fpadd1271 t1 t3) in
    let t = if limbs_zero t then fpsub1271 t1 t3 else t in
    let t = fpadd1271 t t in
    let r = fpexp1251 (fpmul1271 t (fpmul1271 t0 (fpsqr1271 t0))) in
    let t3' = fpmul1271 t0 r in
    let x0 = fpmul1271 t t3' in
    let t1' = fpmul1271 t0 (fpsqr1271 x0) in
    let x0' = fpdiv1271 x0 in
    let x1 = fpmul1271 t2 t3' in
    let t' = mod1271 (fpsub1271 t t1') in
    if limbs_zero t' then record { c0 = x0'; c1 = x1 } else record { c0 = x1; c1 = x0' }

-- The root whose sign is the top bit of the last byte.
unfoldable pub decode_sign : ℕ → F2elm → F2elm
decode_sign sign x =
    let x' = record x { c0 = mod1271 x.c0 } in
    let chosen = if limbs_zero x'.c0 then x'.c1 else x'.c0 in
    if sign == (chosen.hi >>> 62) then x' else fp2neg1271 x'

unfoldable pub decode : List ℕ → Option PointAffine
decode encoded =
    let y = decode_y encoded in
    let u = fp2sqr1271 y in
    let v = fp2add1271 (fp2mul1271 u parameter_d) fp2_one in
    let x = decode_sign (get_or encoded 31 0 >>> 7) (decode_x (fp2sub1271 u fp2_one) v) in
    let p : PointAffine = record { x = x; y = y } in
    let conjugate : PointAffine = record { x = record x { c1 = fpneg1271 x.c1 }; y = y } in
    if ecc_point_validate (point_setup p)
    then some p
    else if ecc_point_validate (record (point_setup p) { x = conjugate.x })
    then some conjugate
    else none

-- `S < curve_order`: limbs from the highest on, `s` and `r` in that order.
unfoldable pub canonical_loop : List ℕ → List ℕ → Bool
canonical_loop (s ∷ ss) (r ∷ rs) =
    let rest = canonical_loop ss rs in if ltb s r then true else if ltb r s then false else rest
canonical_loop ss rs = false

unfoldable pub canonical : List ℕ → Bool
canonical signature =
    let s = load_lanes 4 (drop 32 signature) in
    canonical_loop (get_or s 3 0 ∷ get_or s 2 0 ∷ get_or s 1 0 ∷ get_or s 0 0 ∷ []) (
      get_or curve_order 3 0
      ∷ get_or curve_order 2 0
      ∷ get_or curve_order 1 0
      ∷ get_or curve_order 0 0
      ∷ [])

-- The guard against the neutral point; the first limb is not inspected.
unfoldable pub looks_neutral : List ℕ → Bool
looks_neutral public_key =
    let pk = load_lanes 4 public_key in
    (get_or pk 1 0 == 0) && (get_or pk 2 0 == 0) && (bit_and (get_or pk 3 0) low63 == 0)

-- The guard against keys whose order divides the cofactor.
unfoldable pub low_order : PointAffine → Bool
low_order a =
    let x = (cofactor_clearing (point_setup a)).x in
    let x0 = mod1271 x.c0 in
    let x1 = mod1271 x.c1 in bit_or (bit_or (bit_or x0.lo x0.hi) x1.lo) x1.hi == 0

-- From the hash on, for a decoded key: R is compared with the encoding of [S]G + [h]A.
unfoldable pub check_equation : PointAffine → List ℕ → List ℕ → List ℕ → Bool
check_equation a public_key message_digest signature =
    let r = take 32 signature in
    let h = kangaroo_twelve (r ++ take 32 public_key ++ take 32 message_digest) 64 in
    let s = load_lanes 4 (drop 32 signature) in
    elim (ecc_mul_double s (load_lanes 8 h) a) [ none ↦ false | some p ↦ bytes_equal (encode p) r ]

unfoldable pub verify : List ℕ → List ℕ → List ℕ → Bool
verify public_key message_digest signature =
    elim ((bit_and (get_or public_key 15 0) 0x80 == 0)
      && (bit_and (get_or signature 15 0) 0x80 == 0)) [
        | false ↦ false
        | true ↦ elim (canonical signature) [
          | false ↦ false
          | true ↦ elim (looks_neutral public_key) [
            | true ↦ false
            | false ↦ elim (decode public_key) [
              | none ↦ false
              | some a ↦ elim (low_order a) [
                | true ↦ false
                | false ↦ check_equation a public_key message_digest signature
              ]
            ]
          ]
        ]
      ]

unfoldable pub fourq_verify : List ℕ → List ℕ → List ℕ → ℕ
fourq_verify public_key signature message_digest = flag (verify public_key message_digest signature)

-- The length is cast to an `unsigned int`: the bytes past it are not hashed.
unfoldable pub fourq_verify_signature : List ℕ → List ℕ → List ℕ → ℕ
fourq_verify_signature public_key signature bytes =
    let digest = kangaroo_twelve (take (length bytes % 2 ^ 32) bytes) 32 in
    flag (verify public_key digest signature)
