-- ===== src/Verify/Decode.antt =====
-- What `decode` gives is in range and on the curve.
use zkproof_demo.Base.{
  ℕ, ◌<◌, ◌≡◌, ◌⊎◌, inl, inr, refl, Bool, true, false, if◌then◌else◌, Option, none, some, List,
  drop, get_or, arith,
}
use mathlib.Core.Path.{subst}
use mathlib.Core.Option.{some-injective, none-ne-some}
use zkproof_demo.Word.{◌>>>◌}
use zkproof_demo.Base.Bits.{bit_and_mask}
use zkproof_demo.Field.{Felm, IsFelm}
use zkproof_demo.Field.Modular.{residue, Stands-self}
use zkproof_demo.Field.Range.{
  add_range, sub_range, mul_range, sqr_range, mod_range, exp_range, div_range, times_range,
  neg_range,
}
use zkproof_demo.Quadratic.{F2elm, IsF2elm}
use zkproof_demo.Quadratic.Laws.{Fp2, Stands2}
use zkproof_demo.Quadratic.Range.{sqr2_range, mul2_range, add2_range, sub2_range, neg2_range}
use zkproof_demo.Curve.{point_setup, ecc_point_validate}
use zkproof_demo.Curve.Points.{PointAffine, PointExtproj}
use zkproof_demo.Curve.Range.{AffineRange, one_range, d_range}
use zkproof_demo.Curve.Validate.{OnCurve, validated_equation}
use zkproof_demo.Sponge.{load_lanes}
use zkproof_demo.Sponge.Bytes.{IsBytes, IsBytes-drop}
use zkproof_demo.Scalar.Words.{load_lanes-AllWords, short_lane, get_or-drop, words-get_or}
use zkproof_demo.Verify.{decode_y, decode_x, decode_sign, decode}

decode_y_range :
    (encoded : List ℕ) → IsBytes encoded → get_or encoded 15 0 < 128 → IsF2elm (decode_y encoded)
unfolding decode_y load_lanes
decode_y_range encoded h top =
    let w = load_lanes-AllWords 4 encoded h in
    record {
      c0_fits = record {
        lo_fits = words-get_or _ 0 w;
        hi_fits =
            short_lane 7 (drop 8 encoded) (IsBytes-drop 8 encoded h)
              (rw (get_or-drop 8 7 encoded) top);
      };
      c1_fits = record {
        lo_fits = words-get_or _ 2 w;
        hi_fits = omega (arith, bit_and_mask 63 (get_or (load_lanes 4 encoded) 3 0));
      };
    }

choose_range : {a b : F2elm} (c : Bool) → IsF2elm a → IsF2elm b → IsF2elm (if c then a else b)
choose_range true ha hb = ha
choose_range false ha hb = hb

choose_felm : {a b : Felm} (c : Bool) → IsFelm a → IsFelm b → IsFelm (if c then a else b)
choose_felm true ha hb = ha
choose_felm false ha hb = hb

decode_x_range : (u v : F2elm) → IsF2elm u → IsF2elm v → IsF2elm (decode_x u v)
unfolding decode_x
decode_x_range u v hu hv =
    let t0 = add_range (sqr_range hv.c0_fits) (sqr_range hv.c1_fits) in
    let t1 = add_range (mul_range hu.c0_fits hv.c0_fits) (mul_range hu.c1_fits hv.c1_fits) in
    let t2 = sub_range (mul_range hu.c1_fits hv.c0_fits) (mul_range hu.c0_fits hv.c1_fits) in
    let t3 = times_range 125 (add_range (sqr_range t1) (sqr_range t2)) in
    let t = choose_felm _ (sub_range t1 t3) (mod_range (add_range t1 t3)) in
    let t = add_range t t in
    let r = exp_range (mul_range t (mul_range t0 (sqr_range t0))) in
    let t3' = mul_range t0 r in
    let x0 = div_range (mul_range t t3') in
    let x1 = mul_range t2 t3' in
    choose_range _ (record { c0_fits = x0; c1_fits = x1 }) (record { c0_fits = x1; c1_fits = x0 })

decode_sign_range : (sign : ℕ) (x : F2elm) → IsF2elm x → IsF2elm (decode_sign sign x)
unfolding decode_sign
decode_sign_range sign x hx =
    let h : IsF2elm _ = record { c0_fits = mod_range hx.c0_fits; c1_fits = hx.c1_fits } in
    choose_range _ h (neg2_range h)

abbrev pub value_of : F2elm → Fp2
value_of a = record { re = residue a.c0; im = residue a.c1 }

value_of-Stands2 : {a : F2elm} → IsF2elm a → Stands2 a (value_of a)
value_of-Stands2 {a} h = record {
  c0_stands = Stands-self a.c0 h.c0_fits;
  c1_stands = Stands-self a.c1 h.c1_fits;
}

-- In range, and on the curve.
pub record Decoded (p : PointAffine) : Type 0 where
  pub in_range : AffineRange p
  pub on_curve : OnCurve (value_of p.x) (value_of p.y)

validated :
    (p : PointExtproj) (x y : F2elm)
    → p.x ≡ x
    → p.y ≡ y
    → IsF2elm x
    → IsF2elm y
    → ecc_point_validate p ≡ true
    → OnCurve (value_of x) (value_of y)
validated p x y ex ey hx hy h =
    validated_equation p (value_of x) (value_of y) (rw ex (value_of-Stands2 hx))
      (rw ey (value_of-Stands2 hy)) h

decode_cases :
    (v1 v2 : Bool) (p c q : PointAffine)
    → (v1 ≡ true → Decoded p)
    → (v2 ≡ true → Decoded c)
    → (if v1 then some p else if v2 then some c else none) ≡ some q
    → Decoded q
decode_cases true v2 p c q hp hc e = subst Decoded (some-injective _ _ e) (hp refl)
decode_cases false true p c q hp hc e = subst Decoded (some-injective _ _ e) (hc refl)
decode_cases false false p c q hp hc e = absurd (none-ne-some q e)

pub given_point :
    (encoded : List ℕ) (p : PointAffine)
    → IsBytes encoded
    → get_or encoded 15 0 < 128
    → decode encoded ≡ some p
    → Decoded p
unfolding decode point_setup
given_point encoded p h top e =
    let y = decode_y_range encoded h top in
    let u = sqr2_range y in
    let v = add2_range (mul2_range u d_range) one_range in
    let x =
      decode_sign_range (get_or encoded 31 0 >>> 7) _
        (decode_x_range _ _ (sub2_range u one_range) v) in
    let x' : IsF2elm _ = record { c0_fits = x.c0_fits; c1_fits = neg_range x.c1_fits } in
    decode_cases _ _ _ _ p
      (λ valid. record {
        in_range = record { x_range = x; y_range = y };
        on_curve = validated _ _ _ refl refl x y valid;
      })
      (λ valid. record {
        in_range = record { x_range = x'; y_range = y };
        on_curve = validated _ _ _ refl refl x' y valid;
      })
      e

-- On bytes of which byte 15 has its top bit clear, `decode` fails, or it gives a point that is in range
-- and whose coordinates satisfy the curve equation, whichever of the two candidates for x it takes.
pub decode-Decoded :
    (encoded : List ℕ)
    → IsBytes encoded
    → get_or encoded 15 0 < 128
    → (decode encoded ≡ none) ⊎ ((p : PointAffine) × (decode encoded ≡ some p) × Decoded p)
decode-Decoded encoded h top = either_way (decode encoded) (λ p e. given_point encoded p h top e)
  where
    either_way :
        (o : Option PointAffine)
        → ((p : PointAffine) → o ≡ some p → Decoded p)
        → (o ≡ none) ⊎ ((p : PointAffine) × (o ≡ some p) × Decoded p)
    either_way none f = inl refl
    either_way (some p) f = inr (p, refl, f p refl)
