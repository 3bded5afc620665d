-- ===== src/K12/Encode.antt =====
-- `encbuf` holds the right-encoded number of leaves and two bytes 0xFF.
use zkproof_demo.Base.{
  ℕ, zero, suc, ◌+◌, ◌*◌, ◌/◌, ◌%◌, ◌^◌, ◌<◌, ◌≤◌, ◌≡◌, ◌≢◌, refl, sym, ap, ap₂, ◌∙◌, ne→==, eq→==,
  [], ◌∷◌, ◌++◌, length, arith,
}
use zkproof_demo.Base.Modulo.{pow-add}
use zkproof_demo.K12.{encode_len, encode_bytes, encbuf}
use zkproof_demo.K12.Tree.{big_endian, right_encode}
use native.Mathlib.Nat.{div-div-eq-div-mul}
use mathlib.Core.List.{append_assoc}
use native.Mathlib.Decide.{ℕ_discrete}

-- The lowest byte comes last.
encode_bytes-snoc : (m v : ℕ) → encode_bytes (suc m) v ≡ encode_bytes m (v / 256) ++ (v % 256 ∷ [])
unfolding encode_bytes
encode_bytes-snoc zero v = let e : v / 1 ≡ v = omega arith in ap (λ t. t % 256 ∷ []) e
encode_bytes-snoc (suc m) v = ap₂ (λ s t. s % 256 ∷ t) high (encode_bytes-snoc m v)
  where
    high : v / 2 ^ (8 * suc m) ≡ v / 256 / 2 ^ (8 * m)
    high =
        let e : 8 * suc m ≡ 8 + 8 * m = omega arith in
        ap (λ t. v / 2 ^ t) e
        ∙ ap (λ t. v / t) (pow-add 2 8 (8 * m))
        ∙ sym (div-div-eq-div-mul v 256 (2 ^ (8 * m)))

encode_len-add : (fuel v n : ℕ) → encode_len fuel v n ≡ n + encode_len fuel v 0
unfolding encode_len
encode_len-add zero v n = omega arith
encode_len-add (suc fuel) v n = elim (ℕ_discrete v 0) [
  | yes e ↦ rw (eq→== v 0 e, encode_len) (omega arith)
  | no ne ↦
      rw (ne→== v 0 ne, encode_len)
        (omega
          (arith, encode_len-add fuel (v / 256) (n + 1), encode_len-add fuel (v / 256) (0 + 1)))
]

encode_len-suc : (m v : ℕ) → v ≢ 0 → encode_len (suc m) v 0 ≡ suc (encode_len m (v / 256) 0)
unfolding encode_len
encode_len-suc m v ne =
    rw (ne→== v 0 ne, encode_len) (encode_len-add m (v / 256) (0 + 1) ∙ omega arith)

encode_len-zero : (m : ℕ) → encode_len m 0 0 ≡ 0
unfolding encode_len
encode_len-zero zero = refl
encode_len-zero (suc m) = refl

big_endian-zero : (g : ℕ) → big_endian g 0 ≡ []
unfolding big_endian
big_endian-zero zero = refl
big_endian-zero (suc g) = refl

big_endian-suc : (g v : ℕ) → v ≢ 0 → big_endian (suc g) v ≡ big_endian g (v / 256) ++ (v % 256 ∷ [])
unfolding big_endian
big_endian-suc g v ne = rw (ne→== v 0 ne, big_endian) refl

-- The loops write the bytes of `v`, where `m` bytes are enough for it.
bytes-eq-big_endian :
    (m g v : ℕ) → v < 2 ^ (8 * m) → v ≤ g → encode_bytes (encode_len m v 0) v ≡ big_endian g v
bytes-eq-big_endian m g zero fits enough =
    ap (λ t. encode_bytes t 0) (encode_len-zero m) ∙ unfold encode_bytes in sym (big_endian-zero g)
bytes-eq-big_endian zero g (suc v) fits enough = absurd (omega arith)
bytes-eq-big_endian (suc m) zero (suc v) fits enough = absurd (omega arith)
bytes-eq-big_endian (suc m) (suc g) (suc v) fits enough =
    ap (λ t. encode_bytes t (suc v)) (encode_len-suc m (suc v) (λ z. omega arith))
    ∙ encode_bytes-snoc (encode_len m (suc v / 256) 0) (suc v)
    ∙ ap (λ t. t ++ (suc v % 256 ∷ [])) (bytes-eq-big_endian m g (suc v / 256) below (omega arith))
    ∙ sym (big_endian-suc g (suc v) (λ z. omega arith))
  where
    below : suc v / 256 < 2 ^ (8 * m)
    below =
        let e : 8 * suc m ≡ 8 + 8 * m = omega arith in
        omega (arith, ap (λ (t : ℕ). 2 ^ t) e, pow-add 2 8 (8 * m))

length-encode_bytes : (n v : ℕ) → length (encode_bytes n v) ≡ n
unfolding encode_bytes
length-encode_bytes zero v = refl
length-encode_bytes (suc n) v = ap suc (length-encode_bytes n v)

-- For a number below 2 ^ 64, `encbuf` is its right_encode followed by 0xFF, 0xFF.
pub encbuf-eq-right_encode : (v : ℕ) → v < 2 ^ 64 → encbuf v ≡ right_encode v ++ (0xFF ∷ 0xFF ∷ [])
unfolding encbuf right_encode
encbuf-eq-right_encode v h =
    ap₂ (λ bytes n. bytes ++ (n ∷ 0xFF ∷ 0xFF ∷ [])) same
      (sym (length-encode_bytes (encode_len 8 v 0) v) ∙ ap length same)
    ∙ sym (append_assoc (big_endian v v) (length (big_endian v v) ∷ []) (0xFF ∷ 0xFF ∷ []))
  where
    same : encode_bytes (encode_len 8 v 0) v ≡ big_endian v v
    same = bytes-eq-big_endian 8 v v h (omega arith)
