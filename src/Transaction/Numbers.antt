-- ===== src/Transaction/Numbers.antt =====
-- Numbers that are put are got back.
use zkproof_demo.Base.{
  ℕ, ◌+◌, ◌*◌, ◌/◌, ◌%◌, ◌^◌, ◌<◌, bit_and, bit_or, ◌≡◌, ap₂, ◌∙◌, List, ◌++◌, arith,
}
use zkproof_demo.Base.Bits.{bit_and_mask, bit_or_low}
use zkproof_demo.Transaction.{put_u16, put_u32, put_u64, put_bytes, get_u16, get_u32, get_u64}

-- Four bytes, each in its place.
join_bytes :
    (a b c d : ℕ)
    → a < 256
    → b < 256
    → c < 256
    → bit_or (bit_or (bit_or a (b * 2 ^ 8)) (c * 2 ^ 16)) (d * 2 ^ 24)
      ≡ a + b * 2 ^ 8 + c * 2 ^ 16 + d * 2 ^ 24
join_bytes a b c d ha hb hc =
    rw
      (
        bit_or_low 8 b a ha,
        bit_or_low 16 c (b * 2 ^ 8 + a) (omega arith),
        bit_or_low 24 d (c * 2 ^ 16 + (b * 2 ^ 8 + a)) (omega arith),
      )
      (omega arith)

pub get_u16-put_u16 : (v : ℕ) (rest : List ℕ) → v < 2 ^ 16 → get_u16 (put_u16 v ++ rest) ≡ v
unfolding get_u16 put_u16
get_u16-put_u16 v rest h =
    rw (bit_and_mask 8 v, bit_or_low 8 (v / 2 ^ 8 % 2 ^ 8) (v % 2 ^ 8) (omega arith)) (omega arith)

pub get_u32-put_u32 : (v : ℕ) (rest : List ℕ) → get_u32 (put_u32 v ++ rest) ≡ v % 2 ^ 32
unfolding get_u32 put_u32 put_bytes
get_u32-put_u32 v rest =
    let m0 = bit_and_mask 8 (v / 2 ^ 0) in
    let m1 = bit_and_mask 8 (v / 2 ^ 8) in
    let m2 = bit_and_mask 8 (v / 2 ^ 16) in
    let m3 = bit_and_mask 8 (v / 2 ^ 24) in
    join_bytes _ _ _ _ (omega (arith, m0)) (omega (arith, m1)) (omega (arith, m2))
    ∙ omega (arith, m0, m1, m2, m3)

-- The 8 bytes that `put_u64` writes for a number below 2 ^ 64 are read by `get_u64` as that number,
-- whatever follows them.
pub get_u64-put_u64 : (v : ℕ) (rest : List ℕ) → v < 2 ^ 64 → get_u64 (put_u64 v ++ rest) ≡ v
unfolding get_u64 get_u32 put_u64 put_bytes
get_u64-put_u64 v rest h =
    let m0 = bit_and_mask 8 (v / 2 ^ 0) in
    let m1 = bit_and_mask 8 (v / 2 ^ 8) in
    let m2 = bit_and_mask 8 (v / 2 ^ 16) in
    let m3 = bit_and_mask 8 (v / 2 ^ 24) in
    let m4 = bit_and_mask 8 (v / 2 ^ 32) in
    let m5 = bit_and_mask 8 (v / 2 ^ 40) in
    let m6 = bit_and_mask 8 (v / 2 ^ 48) in
    let m7 = bit_and_mask 8 (v / 2 ^ 56) in
    let low =
      join_bytes (bit_and (v / 2 ^ 0) 0xff) (bit_and (v / 2 ^ 8) 0xff) (bit_and (v / 2 ^ 16) 0xff)
        (bit_and (v / 2 ^ 24) 0xff) (omega (arith, m0)) (omega (arith, m1)) (omega (arith, m2)) in
    let high =
      join_bytes (bit_and (v / 2 ^ 32) 0xff) (bit_and (v / 2 ^ 40) 0xff) (bit_and (v / 2 ^ 48) 0xff)
        (bit_and (v / 2 ^ 56) 0xff) (omega (arith, m4)) (omega (arith, m5)) (omega (arith, m6)) in
    ap₂ (λ a b. bit_or a (b * 2 ^ 32)) low high
    ∙ bit_or_low 32 _ _ (omega (arith, m0, m1, m2, m3))
    ∙ omega (arith, m0, m1, m2, m3, m4, m5, m6, m7)
