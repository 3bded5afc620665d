-- ===== src/Verify/Meaning.antt =====
-- What the guards and the final comparison of `verify` mean.
use zkproof_demo.Base.{
  ℕ, ◌%◌, ◌^◌, ◌≤◌, ◌<◌, ◌≡◌, refl, sym, ap, ◌∙◌, ◌==◌, ◌&&◌, bit_and, true, false, Option, none,
  some, List, [], ◌∷◌, ◌++◌, length, length-append, length-take, take, drop, arith,
}
use zkproof_demo.Base.Bits.{bit_and_mask}
use zkproof_demo.Base.Bytes.{bytes_equal, bytes_equal→eq}
use zkproof_demo.Field.{mod1271, low63}
use zkproof_demo.Field.Linear.{mod1271_lem}
use zkproof_demo.Quadratic.Laws.{Fp2, Stands2}
use zkproof_demo.Curve.{point_setup, cofactor_clearing}
use zkproof_demo.Curve.Points.{PointAffine}
use zkproof_demo.K12.{kangaroo_twelve}
use zkproof_demo.K12.Leaves.{IsBytes-append}
use zkproof_demo.K12.Root.{kangaroo_twelve-eq-k12}
use zkproof_demo.K12.Tree.{k12}
use zkproof_demo.Scalar.{value}
use zkproof_demo.Scalar.Words.{load_lanes-AllWords, words-get_or}
use zkproof_demo.Sponge.{load_lanes}
use zkproof_demo.Sponge.Bytes.{IsBytes, IsBytes-take}
use zkproof_demo.Verify.{looks_neutral, low_order, check_equation, encode}
use zkproof_demo.Verify.MulDouble.{ecc_mul_double}

limbs_large :
    (a b c d : ℕ)
    → a < 2 ^ 64
    → b < 2 ^ 64
    → c < 2 ^ 64
    → d < 2 ^ 64
    → (b == 0) && (c == 0) && (bit_and d low63 == 0) ≡ false
    → 2 ^ 64 ≤ value (a ∷ b ∷ c ∷ d ∷ []) % 2 ^ 255
unfolding value
limbs_large a b c d ha hb hc hd h = ground (arith, bit_and_mask 63 d)

-- The number that the key is, without its sign bit, has more than 64 bits; that of the neutral point
-- is 1.
pub looks_neutral-large :
    (public_key : List ℕ)
    → IsBytes public_key
    → looks_neutral public_key ≡ false
    → 2 ^ 64 ≤ value (load_lanes 4 public_key) % 2 ^ 255
unfolding looks_neutral load_lanes
looks_neutral-large pk h e =
    let w = load_lanes-AllWords 4 pk h in
    limbs_large _ _ _ _ (words-get_or _ 0 w) (words-get_or _ 1 w) (words-get_or _ 2 w)
      (words-get_or _ 3 w) e

abbrev pub null_value : Fp2
null_value = record { re = 0; im = 0 }

-- The x coordinate of 392 times the key does not stand for 0.
pub low_order-nonzero :
    (a : PointAffine)
    → low_order a ≡ false
    → ¬ Stands2 (cofactor_clearing (point_setup a)).x null_value
unfolding low_order
low_order-nonzero a e s =
    let x = (cofactor_clearing (point_setup a)).x in
    let m0 = mod1271_lem x.c0 s.c0_stands.in_range in
    let m1 = mod1271_lem x.c1 s.c1_stands.in_range in
    let lo0 : (mod1271 x.c0).lo ≡ 0 = omega (arith, m0.1, s.c0_stands.same) in
    let hi0 : (mod1271 x.c0).hi ≡ 0 = omega (arith, m0.1, s.c0_stands.same) in
    let lo1 : (mod1271 x.c1).lo ≡ 0 = omega (arith, m1.1, s.c1_stands.same) in
    let hi1 : (mod1271 x.c1).hi ≡ 0 = omega (arith, m1.1, s.c1_stands.same) in
    let e' = simp (lo0, hi0, lo1, hi1) at e in absurd (ground (arith, e'))

-- The point that the comparison is about: [S]G + [h]A for the tree hash h of R, A and the digest.
abbrev pub Compares : PointAffine → List ℕ → List ℕ → List ℕ → PointAffine → Type 0
Compares a public_key message_digest signature p =
    (ecc_mul_double (load_lanes 4 (drop 32 signature))
        (load_lanes 8
          (k12 ((take 32 signature ++ take 32 public_key) ++ take 32 message_digest) 64))
        a
      ≡ some p)
    × (encode p ≡ take 32 signature)

some_point :
    (o : Option PointAffine) (r : List ℕ)
    → (elim o [ none ↦ false | some p ↦ bytes_equal (encode p) r ]) ≡ true
    → (p : PointAffine) × (o ≡ some p) × (encode p ≡ r)
some_point none r h = cc
some_point (some p) r h = (p, refl, bytes_equal→eq (encode p) r h)

pub check_equation-Compares :
    (a : PointAffine) (public_key message_digest signature : List ℕ)
    → IsBytes public_key
    → IsBytes message_digest
    → IsBytes signature
    → check_equation a public_key message_digest signature ≡ true
    → (p : PointAffine) × Compares a public_key message_digest signature p
unfolding check_equation
check_equation-Compares a pk md sig hp hm hs h =
    let input = (take 32 sig ++ take 32 pk) ++ take 32 md in
    let bytes =
      IsBytes-append (take 32 sig ++ take 32 pk) (take 32 md)
        (IsBytes-append (take 32 sig) (take 32 pk) (IsBytes-take 32 sig hs) (IsBytes-take 32 pk hp))
        (IsBytes-take 32 md hm) in
    let s = load_lanes 4 (drop 32 sig) in
    let found =
      some_point (ecc_mul_double s (load_lanes 8 (kangaroo_twelve input 64)) a) (take 32 sig) h in
    let fits : length input < 2 ^ 32 = omega (
      arith,
      length-append (take 32 sig ++ take 32 pk) (take 32 md),
      length-append (take 32 sig) (take 32 pk),
      length-take 32 sig,
      length-take 32 pk,
      length-take 32 md,
    ) in
    let hash = kangaroo_twelve-eq-k12 input 64 bytes fits in
    let same = ap (λ t. ecc_mul_double s (load_lanes 8 t) a) (sym hash) in
    (found.0, (same ∙ found.1, found.2))
