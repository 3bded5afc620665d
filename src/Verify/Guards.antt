-- ===== src/Verify/Guards.antt =====
-- What `verify` has checked when it accepts.
use zkproof_demo.Base.{
  ℕ, zero, suc, ◌^◌, ◌<◌, ◌≡◌, ◌⊎◌, inl, inr, Bool-cases, refl, ◌↔◌, Bool, true, false, bit_and,
  not, ◌||◌, ◌&&◌, ◌==◌, ltb, ltb→lt, ◌%◌, ◌≤◌, Option, none, some, List, [], ◌∷◌, drop, get_or,
  arith,
}
use zkproof_demo.Base.Table.{every, every-at}
use zkproof_demo.Quadratic.Laws.{Stands2}
use zkproof_demo.Curve.{point_setup, cofactor_clearing}
use zkproof_demo.Curve.Points.{PointAffine}
use zkproof_demo.Scalar.{value, curve_order}
use zkproof_demo.Scalar.Order.{order}
use zkproof_demo.Scalar.Words.{load_lanes-AllWords, words-get_or}
use zkproof_demo.Sponge.{load_lanes}
use zkproof_demo.Sponge.Bytes.{IsBytes, IsBytes-drop}
use zkproof_demo.Verify.{canonical_loop, canonical, decode, verify}
use zkproof_demo.Verify.Meaning.{
  looks_neutral-large, low_order-nonzero, null_value, Compares, check_equation-Compares,
}
use zkproof_demo.Verify.Decode.{Decoded, given_point}

compare_limbs :
    (s0 s1 s2 s3 : ℕ)
    → s0 < 2 ^ 64
    → s1 < 2 ^ 64
    → s2 < 2 ^ 64
    → s3 < 2 ^ 64
    → (canonical_loop (s3 ∷ s2 ∷ s1 ∷ s0 ∷ []) (
          get_or curve_order 3 0
          ∷ get_or curve_order 2 0
          ∷ get_or curve_order 1 0
          ∷ get_or curve_order 0 0
          ∷ [])
        ≡ true)
      ↔ (value (s0 ∷ s1 ∷ s2 ∷ s3 ∷ []) < order)
unfolding canonical_loop value
compare_limbs s0 s1 s2 s3 h0 h1 h2 h3 = ground arith

-- On a signature of bytes, the limb loop of `verify` compares the scalar S with the curve order.
pub canonical-eq-less :
    (signature : List ℕ)
    → IsBytes signature
    → (canonical signature ≡ true) ↔ (value (load_lanes 4 (drop 32 signature)) < order)
unfolding canonical load_lanes
canonical-eq-less signature h =
    let w = load_lanes-AllWords 4 (drop 32 signature) (IsBytes-drop 32 signature h) in
    compare_limbs _ _ _ _ (words-get_or _ 0 w) (words-get_or _ 1 w) (words-get_or _ 2 w)
      (words-get_or _ 3 w)

passes :
    (b : Bool) {x : Bool} → (elim b [ false ↦ false | true ↦ x ]) ≡ true → (b ≡ true) × (x ≡ true)
passes true h = (refl, h)
passes false h = absurd (ground arith)

escapes :
    (b : Bool) {x : Bool} → (elim b [ true ↦ false | false ↦ x ]) ≡ true → (b ≡ false) × (x ≡ true)
escapes false h = (refl, h)
escapes true h = absurd (ground arith)

gives :
    (o : Option PointAffine) (f : PointAffine → Bool)
    → (elim o [ none ↦ false | some a ↦ f a ]) ≡ true
    → (a : PointAffine) × (o ≡ some a) × (f a ≡ true)
gives none f h = absurd (ground arith)
gives (some a) f h = (a, refl, h)

both_true : (a b : Bool) → a && b ≡ true → (a ≡ true) × (b ≡ true)
both_true a b h = ground arith

bit_table : every (λ b. not (bit_and b 0x80 == 0) || ltb b 128) 256 ≡ true
unfolding every
bit_table = refl

top_clear : (b : ℕ) → b < 256 → (bit_and b 0x80 == 0) ≡ true → b < 128
top_clear b h e = ltb→lt b 128 (ground (arith, every-at _ 256 b h bit_table))

byte-at : (bytes : List ℕ) (i : ℕ) → IsBytes bytes → get_or bytes i 0 < 256
byte-at [] i h = omega arith
byte-at (b ∷ bs) zero h = h.0
byte-at (b ∷ bs) (suc i) h = byte-at bs i h.1

-- What holds of an accepted signature.
pub record Accepted (public_key message_digest signature : List ℕ) : Type 0 where
  pub key_bit : get_or public_key 15 0 < 128
  pub signature_bit : get_or signature 15 0 < 128
  pub scalar_below : value (load_lanes 4 (drop 32 signature)) < order
  pub not_neutral : 2 ^ 64 ≤ value (load_lanes 4 public_key) % 2 ^ 255
  pub key : PointAffine
  pub key_decodes : decode public_key ≡ some key
  pub key_point : Decoded key
  pub not_low_order : ¬ Stands2 (cofactor_clearing (point_setup key)).x null_value
  pub compared : PointAffine
  pub comparison : Compares key public_key message_digest signature compared

accepted :
    (public_key message_digest signature : List ℕ)
    → IsBytes public_key
    → IsBytes message_digest
    → IsBytes signature
    → verify public_key message_digest signature ≡ true
    → Accepted public_key message_digest signature
unfolding verify
accepted pk md sig hp hm hs h =
    let bits = passes _ h in
    let two = both_true _ _ bits.0 in
    let s = passes _ bits.1 in
    let n = escapes _ s.1 in
    let d = gives (decode pk) _ n.1 in
    let l = escapes _ d.2 in
    let top = top_clear _ (byte-at pk 15 hp) two.0 in
    let compared = check_equation-Compares d.0 pk md sig hp hm hs l.1 in
    record {
      key_bit = top;
      signature_bit = top_clear _ (byte-at sig 15 hs) two.1;
      scalar_below = (canonical-eq-less sig hs).0 s.0;
      not_neutral = looks_neutral-large pk hp n.0;
      key = d.0;
      key_decodes = d.1;
      key_point = given_point pk d.0 hp top d.1;
      not_low_order = low_order-nonzero d.0 l.0;
      compared = compared.0;
      comparison = compared.1;
    }

-- On a key, a digest and a signature of bytes, `verify` refuses, or all of this holds: the top bits of
-- byte 15 of key and signature are clear; S is below the curve order; the key without its sign bit is
-- a number of more than 64 bits, so not that of the neutral point; it decodes to a point A in range
-- and on the curve; the x coordinate that `cofactor_clearing` gives for A does not stand for 0; and
-- `ecc_mul_double` for S, for the 64 bytes of the KangarooTwelve tree hash of R, the key and the
-- digest, and for A gives a point whose encoding is R.
pub verify-Accepted :
    (public_key message_digest signature : List ℕ)
    → IsBytes public_key
    → IsBytes message_digest
    → IsBytes signature
    → (verify public_key message_digest signature ≡ false)
      ⊎ Accepted public_key message_digest signature
verify-Accepted pk md sig hp hm hs = elim (Bool-cases (verify pk md sig)) [
  | inl h ↦ inr (accepted pk md sig hp hm hs h)
  | inr h ↦ inl h
]
