-- ===== src/Sponge/Partial.antt =====
-- A partial block of `KangarooTwelve_F_Absorb` is fed byte by byte.
use zkproof_demo.Base.{
  ℕ, ◌+◌, ◌*◌, ◌/◌, ◌%◌, ◌^◌, ◌<◌, ◌≤◌, bit_and, ◌≡◌, refl, sym, ap, ap₂, ◌∙◌, ◌==◌, if◌then◌else◌,
  true, ==_iff, ne→==, eq→==, List, length, take, drop, take-add, length-take, arith,
}
use zkproof_demo.Base.Bits.{bit_and_mask}
use zkproof_demo.Sponge.{
  KangarooTwelveF, load_lane, xor_lane, xor_lanes, xor_offset, xor_aligned, partial_block,
  absorb_partial, rate_in_bytes,
}
use zkproof_demo.Sponge.Bytes.{
  IsBytes, IsBytes-take, IsBytes-drop, xor_bytes, xor_bytes-append, xor_bytes-lane,
}
use zkproof_demo.Sponge.LaneLoops.{xor_lanes-eq-xor_bytes, xor_offset-eq-xor_bytes}
use zkproof_demo.Sponge.Feed.{IsNode, feed_all, feed_all-inside, feed_all-full}
use zkproof_demo.Base.Table.{every, every-at}
use native.Mathlib.Decide.{ℕ_discrete}

mask_table : every (λ p. bit_and p 0xFFFFFFF8 == 8 * (p / 8)) 256 ≡ true
unfolding every
mask_table = refl

-- `p & 0xFFFFFFF8` on an `unsigned char`.
clear_low3 : (p : ℕ) → p < 256 → bit_and p 0xFFFFFFF8 ≡ 8 * (p / 8)
clear_low3 p h = (==_iff _ _).0 (every-at _ 256 p h mask_table)

pub xor_aligned-eq-xor_bytes :
    (p : ℕ) (s bytes : List ℕ)
    → IsBytes bytes
    → p < 256
    → p ≤ length bytes
    → xor_aligned p s bytes ≡ xor_bytes s 0 (take p bytes)
unfolding xor_aligned
xor_aligned-eq-xor_bytes p s bytes h small have = elim (ℕ_discrete (p % 8) 0) [
  | yes e ↦
      rw (eq→== (bit_and p 7) 0 (bit_and_mask 3 p ∙ e))
        (whole ∙ ap (λ t. xor_bytes s 0 (take t bytes)) (omega arith))
  | no ne ↦
      rw
        (
          ne→== (bit_and p 7) 0 (λ z. ne (sym (bit_and_mask 3 p) ∙ z)),
          bit_and_mask 3 p,
          clear_low3 p small,
        )
        (ap (xor_lane lanes (p / 8)) plain
          ∙ sym (xor_bytes-lane lanes (p / 8) 0 rest rest_bytes (omega (arith, rest_size)))
          ∙ ap₂ (λ w k. xor_bytes w k rest) whole start
          ∙ sym (xor_bytes-append s 0 (take (8 * (p / 8)) bytes) rest)
          ∙ ap (xor_bytes s 0) (sym (take-add (8 * (p / 8)) (p % 8) bytes))
          ∙ ap (λ t. xor_bytes s 0 (take t bytes)) (omega arith))
]
  where
    lanes : List ℕ
    lanes = xor_lanes (p / 8) 0 s bytes

    rest : List ℕ
    rest = take (p % 8) (drop (8 * (p / 8)) bytes)

    rest_bytes : IsBytes rest
    rest_bytes = IsBytes-take (p % 8) _ (IsBytes-drop (8 * (p / 8)) bytes h)

    rest_size : length rest ≤ p % 8
    rest_size = omega (arith, length-take (p % 8) (drop (8 * (p / 8)) bytes))

    plain : load_lane rest ≡ load_lane rest * 2 ^ (8 * 0)
    plain = omega arith

    start : 8 * (p / 8) + 0 ≡ 0 + length (take (8 * (p / 8)) bytes)
    start = omega (arith, length-take (8 * (p / 8)) bytes)

    whole : xor_lanes (p / 8) 0 s bytes ≡ xor_bytes s 0 (take (8 * (p / 8)) bytes)
    whole = xor_lanes-eq-xor_bytes (p / 8) 0 s bytes h (omega arith)

-- A partial block takes at least a byte, and ends in its block.
pub partial_block_bounds :
    (i n : ℕ)
    → i < rate_in_bytes
    → 0 < n
    → (1 ≤ partial_block i n) × (partial_block i n ≤ n) × (i + partial_block i n ≤ rate_in_bytes)
unfolding partial_block
partial_block_bounds i n hi hn = ground arith

module _ (f : KangarooTwelveF) (bytes : List ℕ) (n : IsNode f) (h : IsBytes bytes) where
  -- Both ways to enter the block's bytes.
  block_entered :
      (p : ℕ)
      → f.byte_io_index + p ≤ rate_in_bytes
      → p ≤ length bytes
      → (if f.byte_io_index == 0
          then xor_aligned p f.state bytes
          else xor_offset p p (f.byte_io_index / 2 ^ 3) (bit_and f.byte_io_index 7) f.state bytes)
        ≡ xor_bytes f.state f.byte_io_index (take p bytes)
  block_entered p fits have = elim (ℕ_discrete f.byte_io_index 0) [
    | yes e ↦ rw (eq→== f.byte_io_index 0 e) (
        xor_aligned-eq-xor_bytes p f.state bytes h (omega arith) have
        ∙ ap (λ t. xor_bytes f.state t (take p bytes)) (sym e))
    | no ne ↦
        rw (ne→== f.byte_io_index 0 ne, bit_and_mask 3 f.byte_io_index)
          (xor_offset-eq-xor_bytes p p (f.byte_io_index / 8) (f.byte_io_index % 8) f.state bytes h
              (omega arith) have (omega arith)
            ∙ ap (λ t. xor_bytes f.state t (take p bytes)) (omega arith))
  ]

  pub absorb_partial-eq-feed_all :
      0 < length bytes
      → let p = partial_block f.byte_io_index (length bytes) in
        absorb_partial f bytes ≡ (feed_all f (take p bytes), drop p bytes)
  unfolding absorb_partial
  absorb_partial-eq-feed_all pos =
      let i = f.byte_io_index in
      let p = partial_block i (length bytes) in
      let within = partial_block_bounds i (length bytes) n.in_block pos in
      let unwrapped : (i + p) % 256 ≡ i + p = omega (arith, within) in
      let size : length (take p bytes) ≡ p = omega (arith, within, length-take p bytes) in
      rw (block_entered p within.2 within.1, unwrapped)
        (ap (λ t. (t, drop p bytes))
          (elim (ℕ_discrete (i + p) rate_in_bytes) [
            | yes e ↦
                rw (eq→== (i + p) rate_in_bytes e)
                  (sym (feed_all-full f.state i (take p bytes) n.in_block (rw size e)))
            | no ne ↦ rw (ne→== (i + p) rate_in_bytes ne) (
                ap
                  (λ t. record {
                    state = xor_bytes f.state i (take p bytes);
                    byte_io_index = i + t;
                  })
                  (sym size)
                ∙ sym (feed_all-inside f.state i (take p bytes) (omega (arith, within, size))))
          ]))
