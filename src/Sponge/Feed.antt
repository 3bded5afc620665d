-- ===== src/Sponge/Feed.antt =====
-- What absorbing means: one byte at a time, with a permutation when the block is full.
use zkproof_demo.Base.{
  ℕ, suc, ◌+◌, ◌*◌, ◌/◌, ◌%◌, ◌^◌, ◌<◌, ◌≡◌, refl, ap, ◌∙◌, ◌==◌, if◌then◌else◌, ne→==, eq→==, List,
  [], ◌∷◌, ◌++◌, length, arith,
}
use zkproof_demo.Keccak.{copy_to_state, permute_12rounds}
use zkproof_demo.Sponge.{KangarooTwelveF, rate_in_bytes, xor_byte}
use zkproof_demo.Sponge.Bytes.{xor_bytes, length-xor_lane}

-- The node after a block: permuted, at index 0.
abbrev pub permuted : List ℕ → KangarooTwelveF
permuted s = record { state = permute_12rounds s; byte_io_index = 0 }

unfoldable pub feed : KangarooTwelveF → ℕ → KangarooTwelveF
feed f b =
    let s = xor_byte f.state f.byte_io_index b in
    if f.byte_io_index + 1 == rate_in_bytes
    then permuted s
    else record { state = s; byte_io_index = f.byte_io_index + 1 }

unfoldable pub feed_all : KangarooTwelveF → List ℕ → KangarooTwelveF
feed_all f [] = f
feed_all f (b ∷ bs) = feed_all (feed f b) bs

-- Between two calls a node has 25 lanes and an index inside the block.
pub record IsNode (f : KangarooTwelveF) : Type 0 where
  pub lanes : length f.state ≡ 25
  pub in_block : f.byte_io_index < rate_in_bytes

pub length-permute_12rounds : (s : List ℕ) → length (permute_12rounds s) ≡ 25
unfolding permute_12rounds copy_to_state
length-permute_12rounds s = refl

pub feed-IsNode : (f : KangarooTwelveF) (b : ℕ) → IsNode f → IsNode (feed f b)
unfolding feed xor_byte
feed-IsNode f b n = ground (
  arith,
  length-permute_12rounds (xor_byte f.state f.byte_io_index b),
  length-xor_lane f.state (f.byte_io_index / 8) (b * 2 ^ (8 * (f.byte_io_index % 8))),
)

pub feed_all-IsNode : (f : KangarooTwelveF) (bs : List ℕ) → IsNode f → IsNode (feed_all f bs)
unfolding feed_all
feed_all-IsNode f [] n = n
feed_all-IsNode f (b ∷ bs) n = feed_all-IsNode (feed f b) bs (feed-IsNode f b n)

pub feed_all-append :
    (f : KangarooTwelveF) (xs ys : List ℕ) → feed_all f (xs ++ ys) ≡ feed_all (feed_all f xs) ys
unfolding feed_all
feed_all-append f [] ys = refl
feed_all-append f (x ∷ xs) ys = feed_all-append (feed f x) xs ys

-- Short of the end of the block only the state and the index move.
pub feed_all-inside :
    (s : List ℕ) (i : ℕ) (bs : List ℕ)
    → i + length bs < rate_in_bytes
    → feed_all (record { state = s; byte_io_index = i }) bs
      ≡ record { state = xor_bytes s i bs; byte_io_index = i + length bs }
unfolding feed_all feed xor_bytes
feed_all-inside s i [] h =
    let e : i ≡ i + 0 = omega arith in ap (λ t. record { state = s; byte_io_index = t }) e
feed_all-inside s i (b ∷ bs) h =
    let e : i + 1 + length bs ≡ i + suc (length bs) = omega arith in
    rw (ne→== (i + 1) rate_in_bytes (λ e. omega arith)) (
      feed_all-inside (xor_byte s i b) (i + 1) bs (omega arith)
      ∙ ap (λ t. record { state = xor_bytes (xor_byte s i b) (i + 1) bs; byte_io_index = t }) e)

-- The byte that fills the block permutes it.
pub feed_all-full :
    (s : List ℕ) (i : ℕ) (bs : List ℕ)
    → i < rate_in_bytes
    → i + length bs ≡ rate_in_bytes
    → feed_all (record { state = s; byte_io_index = i }) bs ≡ permuted (xor_bytes s i bs)
unfolding feed_all feed xor_bytes
feed_all-full s i [] below h = absurd (omega arith)
feed_all-full s i (b ∷ []) below h = rw (eq→== (i + 1) rate_in_bytes (omega arith)) refl
feed_all-full s i (b ∷ c ∷ bs) below h =
    rw (ne→== (i + 1) rate_in_bytes (λ e. omega arith))
      (feed_all-full (xor_byte s i b) (i + 1) (c ∷ bs) (omega arith) (omega arith))
