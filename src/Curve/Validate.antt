-- ===== src/Curve/Validate.antt =====
-- `ecc_point_validate` decides the curve equation.
use zkproof_demo.Base.{
  ℕ, zero, suc, ◌+◌, ◌/◌, ◌%◌, ◌^◌, ◌<◌, bit_or, ◌≡◌, ◌⊎◌, inl, inr, Bool-cases, refl, ap₂, ◌↔◌,
  Bool, true, false, ◌&&◌, arith,
}
use zkproof_demo.Base.Bits.{bit_or_step}
use native.Mathlib.Decide.{ℕ_discrete}
use zkproof_demo.Field.{Felm, IsFelm, felm_value, prime1271}
use zkproof_demo.Field.Modular.{residue, sub_mod, Stands, Stands-self}
use zkproof_demo.Quadratic.{F2elm, fp2_one}
use zkproof_demo.Quadratic.Laws.{
  Fp2, add2, sub2, mul2, Stands2, fp2add1271-Stands2, fp2sub1271-Stands2, fp2mul1271-Stands2,
  fp2sqr1271-Stands2,
}
use zkproof_demo.Curve.{parameter_d, limbs_vanish, ecc_point_validate}
use zkproof_demo.Curve.Points.{PointExtproj}

-- `a | b` is zero only if both are.
bit_or-vanishes : (n a b : ℕ) → a + b < n → bit_or a b ≡ 0 → (a ≡ 0) × (b ≡ 0)
bit_or-vanishes zero a b h e = absurd (omega arith)
bit_or-vanishes (suc n) a b h e = elim (ℕ_discrete (a + b) 0) [
  | yes z ↦ (omega arith, omega arith)
  | no nz ↦
      let step = bit_or_step a b in
      let rest = bit_or-vanishes n (a / 2) (b / 2) (omega arith) (omega arith) in
      omega (arith, rest)
]

-- In range, the test of `ecc_point_validate` on a coordinate holds for both limbs 0 only: it does not
-- hold for the second representation p of zero, whose limbs plus 1 are 0 and 2 ^ 63.
pub limbs_vanish_lem : (a : Felm) → IsFelm a → (limbs_vanish a ≡ true) ↔ (felm_value a ≡ 0)
unfolding limbs_vanish
limbs_vanish_lem a h =
    let low = bit_or-vanishes (suc (a.lo + a.hi)) a.lo a.hi (omega arith) in
    let next = (a.lo + 1) % 2 ^ 64 + (a.hi + 1) % 2 ^ 64 in
    let high =
      bit_or-vanishes (suc next) ((a.lo + 1) % 2 ^ 64) ((a.hi + 1) % 2 ^ 64) (omega arith) in
    (
      λ t. ground (arith, low, high),
      λ r.
          let lo0 : a.lo ≡ 0 = omega arith in
          let hi0 : a.hi ≡ 0 = omega arith in rw (lo0, hi0) refl,
    )

abbrev pub d_value : Fp2
d_value = record { re = residue parameter_d.c0; im = residue parameter_d.c1 }

abbrev pub one_value : Fp2
one_value = record { re = 1; im = 0 }

pub d-Stands2 : Stands2 parameter_d d_value
d-Stands2 = record {
  c0_stands = Stands-self parameter_d.c0 (omega arith);
  c1_stands = Stands-self parameter_d.c1 (omega arith);
}

pub one-Stands2 : Stands2 fp2_one one_value
one-Stands2 = record {
  c0_stands = Stands-self fp2_one.c0 (omega arith);
  c1_stands = Stands-self fp2_one.c1 (omega arith);
}

-- y ^ 2 - x ^ 2 = 1 + d x ^ 2 y ^ 2 in GF(p)[i]
abbrev pub OnCurve : Fp2 → Fp2 → Type 0
OnCurve x y =
    sub2 (mul2 y y) (mul2 x x) ≡ add2 (mul2 (mul2 (mul2 y y) (mul2 x x)) d_value) one_value

sub_mod-vanishes : (x y : ℕ) → x < prime1271 → y < prime1271 → sub_mod x y ≡ 0 → x ≡ y
sub_mod-vanishes x y hx hy e = omega arith

both_true : (a b : Bool) → a && b ≡ true → (a ≡ true) × (b ≡ true)
both_true a b h = ground arith

equal_residues :
    {a : Felm} {r s : ℕ}
    → Stands a (sub_mod r s)
    → r < prime1271
    → s < prime1271
    → limbs_vanish a ≡ true
    → r ≡ s
equal_residues {a} {r} {s} h hr hs v =
    let zero_value = (limbs_vanish_lem a h.in_range).0 v in
    sub_mod-vanishes r s hr hs (omega (arith, h.same, zero_value))

-- A difference that vanishes, of two elements in range.
equal_values :
    {u a b : F2elm} {l r : Fp2}
    → Stands2 a l
    → Stands2 b r
    → Stands2 u (sub2 l r)
    → limbs_vanish u.c0 && limbs_vanish u.c1 ≡ true
    → l ≡ r
unfolding sub2
equal_values {u} {a} {b} {l} {r} ha hb hu h =
    let v = both_true (limbs_vanish u.c0) (limbs_vanish u.c1) h in
    let re =
      equal_residues hu.c0_stands (omega (arith, ha.c0_stands.same))
        (omega (arith, hb.c0_stands.same)) v.0 in
    let im =
      equal_residues hu.c1_stands (omega (arith, ha.c1_stands.same))
        (omega (arith, hb.c1_stands.same)) v.1 in
    ap₂ (λ re im. record { re = re; im = im }) re im

pub validated_equation :
    (p : PointExtproj) (x y : Fp2)
    → Stands2 p.x x
    → Stands2 p.y y
    → ecc_point_validate p ≡ true
    → OnCurve x y
unfolding ecc_point_validate
validated_equation p x y hx hy h =
    let ty = fp2sqr1271-Stands2 hy in
    let tx = fp2sqr1271-Stands2 hx in
    let l = fp2sub1271-Stands2 ty tx in
    let m = fp2mul1271-Stands2 (fp2mul1271-Stands2 ty tx) d-Stands2 in
    let r = fp2add1271-Stands2 m one-Stands2 in equal_values l r (fp2sub1271-Stands2 l r) h

-- For a point in range that stands for (x, y), `ecc_point_validate` refuses, or (x, y) satisfies the
-- curve equation.
pub ecc_point_validate-OnCurve :
    (p : PointExtproj) (x y : Fp2)
    → Stands2 p.x x
    → Stands2 p.y y
    → (ecc_point_validate p ≡ false) ⊎ OnCurve x y
ecc_point_validate-OnCurve p x y hx hy = elim (Bool-cases (ecc_point_validate p)) [
  | inl h ↦ inr (validated_equation p x y hx hy h)
  | inr h ↦ inl h
]
