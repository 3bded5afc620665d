-- ===== src/Sponge/LaneLoops.antt =====
-- The lane loops of `KangarooTwelve_F_Absorb` do what their bytes would do one by one.
use zkproof_demo.Base.{
  ℕ, zero, suc, ◌+◌, ◌-◌, ◌*◌, ◌%◌, ◌^◌, ◌<◌, ◌≤◌, ◌≡◌, refl, sym, ap, ap₂, ◌∙◌, ltb, if◌then◌else◌,
  ne→==, lt→ltb, le→ltb, List, length, take, drop, take-add, length-take, length-drop, arith,
}
use zkproof_demo.Base.Modulo.{pow-add}
use zkproof_demo.Word.{◌<<<◌}
use zkproof_demo.Sponge.{load_lane, xor_lane, xor_lanes, xor_offset}
use zkproof_demo.Sponge.Bytes.{
  IsBytes, IsBytes-take, IsBytes-drop, xor_bytes, xor_bytes-append, xor_bytes-lane, load_lane-lt,
  scaled,
}
use native.Mathlib.Nat.{pow-le-pow_right, one-le-pow, mod-eq_of_lt}
use native.Mathlib.Decide.{dec_lt}

-- The bytes of lane `j` from its place `off`, and then the others.
xor_bytes-split :
    (s : List ℕ) (j off k n : ℕ) (bytes : List ℕ)
    → IsBytes bytes
    → k ≤ length bytes
    → off + k ≤ 8
    → xor_bytes s (8 * j + off) (take (k + n) bytes)
      ≡ xor_bytes
          (xor_lane s j (load_lane (take k bytes) * 2 ^ (8 * off)))
          (8 * j + off + k)
          (take n (drop k bytes))
xor_bytes-split s j off k n bytes h have fits =
    ap (xor_bytes s (8 * j + off)) (take-add k n bytes)
    ∙ xor_bytes-append s (8 * j + off) (take k bytes) (take n (drop k bytes))
    ∙ ap₂ (λ t l. xor_bytes t (8 * j + off + l) (take n (drop k bytes)))
        (xor_bytes-lane s j off (take k bytes) (IsBytes-take k bytes h) (rw size (omega arith)))
        size
  where
    size : length (take k bytes) ≡ k
    size = omega (arith, length-take k bytes)

pub xor_lanes-eq-xor_bytes :
    (n j : ℕ) (s bytes : List ℕ)
    → IsBytes bytes
    → 8 * n ≤ length bytes
    → xor_lanes n j s bytes ≡ xor_bytes s (8 * j) (take (8 * n) bytes)
unfolding xor_lanes xor_bytes
xor_lanes-eq-xor_bytes zero j s bytes h have = refl
xor_lanes-eq-xor_bytes (suc n) j s bytes h have =
    let lane = load_lane (take 8 bytes) in
    let more : 8 * suc n ≡ 8 + 8 * n = omega arith in
    let start : 8 * j ≡ 8 * j + 0 = omega arith in
    let next : 8 * (j + 1) ≡ 8 * j + 0 + 8 = omega arith in
    let whole : lane ≡ lane * 2 ^ (8 * 0) = omega arith in
    xor_lanes-eq-xor_bytes n (j + 1) (xor_lane s j lane) (drop 8 bytes) (IsBytes-drop 8 bytes h)
      (omega (arith, length-drop 8 bytes))
    ∙ ap₂ (λ k v. xor_bytes (xor_lane s j v) k (take (8 * n) (drop 8 bytes))) next whole
    ∙ sym (xor_bytes-split s j 0 8 (8 * n) bytes h (omega arith) (omega arith))
    ∙ ap₂ (λ k m. xor_bytes s k (take m bytes)) (sym start) (sym more)

xor_offset-zero : (fuel j off : ℕ) (s bytes : List ℕ) → xor_offset fuel 0 j off s bytes ≡ s
unfolding xor_offset
xor_offset-zero zero j off s bytes = refl
xor_offset-zero (suc fuel) j off s bytes = refl

-- The shift into place loses nothing.
shift_fits :
    (bs : List ℕ) (off : ℕ)
    → IsBytes bs
    → off + length bs ≤ 8
    → load_lane bs <<< (off * 2 ^ 3) ≡ load_lane bs * 2 ^ (8 * off)
shift_fits bs off h fits = ap (λ t. load_lane bs * 2 ^ t % 2 ^ 64) place ∙ mod-eq_of_lt below
  where
    place : off * 2 ^ 3 ≡ 8 * off
    place = omega arith

    below : load_lane bs * 2 ^ (8 * off) < 2 ^ 64
    below = omega (
      arith,
      scaled (load_lane bs) (2 ^ (8 * length bs)) (2 ^ (8 * off)) (load_lane-lt bs h)
          (one-le-pow (8 * off) 2 (omega arith)),
      pow-add 2 (8 * length bs) (8 * off),
      pow-le-pow_right {n = 2} (omega arith) {i = 8 * length bs + 8 * off} {j = 64} (omega arith),
    )

-- One round of the loop over a part of `k` bytes.
offset_round :
    (s : List ℕ) (j off k : ℕ) (bytes : List ℕ)
    → IsBytes bytes
    → k ≤ length bytes
    → off + k ≤ 8
    → xor_lane s j (load_lane (take k bytes) <<< (off * 2 ^ 3))
      ≡ xor_lane s j (load_lane (take k bytes) * 2 ^ (8 * off))
offset_round s j off k bytes h have fits =
    ap (xor_lane s j)
      (shift_fits (take k bytes) off (IsBytes-take k bytes h) (omega (arith, length-take k bytes)))

-- A round of the loop, where it takes `k` bytes.
xor_offset-suc :
    (fuel size j off k : ℕ) (s bytes : List ℕ)
    → (if ltb (suc size) (8 - off) then suc size else 8 - off) ≡ k
    → 1 ≤ k
    → IsBytes bytes
    → k ≤ length bytes
    → off + k ≤ 8
    → xor_offset (suc fuel) (suc size) j off s bytes
      ≡ xor_offset fuel
          (suc size - k)
          (j + 1)
          0
          (xor_lane s j (load_lane (take k bytes) * 2 ^ (8 * off)))
          (drop k bytes)
unfolding xor_offset
xor_offset-suc fuel size j off k s bytes e pos h have fits =
    rw (ne→== (suc size) 0 (λ z. omega arith), xor_offset)
      (rw (e, ne→== k 0 (λ z. omega arith))
        (ap (λ t. xor_offset fuel (suc size - k) (j + 1) 0 t (drop k bytes))
          (offset_round s j off k bytes h have fits)))

pub xor_offset-eq-xor_bytes :
    (fuel size j off : ℕ) (s bytes : List ℕ)
    → IsBytes bytes
    → size ≤ fuel
    → size ≤ length bytes
    → off < 8
    → xor_offset fuel size j off s bytes ≡ xor_bytes s (8 * j + off) (take size bytes)
xor_offset-eq-xor_bytes fuel zero j off s bytes h enough have place =
    xor_offset-zero fuel j off s bytes ∙ unfold xor_bytes in refl
xor_offset-eq-xor_bytes zero (suc size) j off s bytes h enough have place = absurd (omega arith)
xor_offset-eq-xor_bytes (suc fuel) (suc size) j off s bytes h enough have place =
    elim (dec_lt (suc size) (8 - off)) [
      | yes p ↦
          let all : suc size - suc size ≡ 0 = omega arith in
          let used = take (suc size) bytes in
          let s' = xor_lane s j (load_lane used * 2 ^ (8 * off)) in
          xor_offset-suc fuel size j off (suc size) s bytes
            (rw (lt→ltb (suc size) (8 - off) p) refl) (omega arith) h have (omega arith)
          ∙ ap (λ t. xor_offset fuel t (j + 1) 0 s' (drop (suc size) bytes)) all
          ∙ xor_offset-zero fuel (j + 1) 0 s' (drop (suc size) bytes)
          ∙ sym (
              xor_bytes-lane s j off used (IsBytes-take (suc size) bytes h)
                (omega (arith, length-take (suc size) bytes)))
      | no p ↦
          let k = 8 - off in
          let left : k + (suc size - k) ≡ suc size = omega arith in
          let next : 8 * (j + 1) + 0 ≡ 8 * j + off + k = omega arith in
          let s' = xor_lane s j (load_lane (take k bytes) * 2 ^ (8 * off)) in
          xor_offset-suc fuel size j off k s bytes
            (rw (le→ltb (suc size) (8 - off) (omega arith)) refl) (omega arith) h (omega arith)
            (omega arith)
          ∙ xor_offset-eq-xor_bytes fuel (suc size - k) (j + 1) 0 s' (drop k bytes)
              (IsBytes-drop k bytes h) (omega arith) (omega (arith, length-drop k bytes))
              (omega arith)
          ∙ ap (λ t. xor_bytes s' t (take (suc size - k) (drop k bytes))) next
          ∙ sym (xor_bytes-split s j off k (suc size - k) bytes h (omega arith) (omega arith))
          ∙ ap (λ t. xor_bytes s (8 * j + off) (take t bytes)) left
    ]
