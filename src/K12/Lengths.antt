-- ===== src/K12/Lengths.antt =====
-- The lengths that `KangarooTwelve` computes without branches, and where the index stands.
use zkproof_demo.Base.{
  ℕ, ◌+◌, ◌-◌, ◌%◌, ◌^◌, ◌<◌, min, bit_and, bit_xor, ◌≡◌, sym, ap, ◌∙◌, lt→ltb, le→ltb, List, [],
  ◌∷◌, length, arith,
}
use zkproof_demo.Base.Bits.{bit_and_mask, bit_and-zero, bit_xor-zero}
use zkproof_demo.Base.Bits.Xor.{bit_xor_assoc, bit_xor_comm, bit_xor_self, zero-bit_xor, bit_xor-lt}
use zkproof_demo.Sponge.{KangarooTwelveF, rate_in_bytes}
use zkproof_demo.Sponge.Feed.{IsNode, feed, feed_all, feed-IsNode}
use zkproof_demo.K12.{chunk_size, first_len, chunk_len}
use native.Mathlib.Decide.{dec_lt}
use native.Mathlib.Nat.{mod-eq_of_lt}

-- `a ^ (b ^ a)` is `b`.
xor_swap : (a b : ℕ) → bit_xor a (bit_xor b a) ≡ b
xor_swap a b =
    ap (bit_xor a) (bit_xor_comm b a)
    ∙ sym (bit_xor_assoc a a b)
    ∙ ap (λ t. bit_xor t b) (bit_xor_self a)
    ∙ zero-bit_xor b

-- The mask of a true comparison keeps a word, that of a false one clears it.
kept : (a b : ℕ) → a < 2 ^ 32 → b < 2 ^ 32 → bit_xor a (bit_and (bit_xor b a) (2 ^ 32 - 1)) ≡ b
kept a b ha hb =
    ap (bit_xor a) (bit_and_mask 32 (bit_xor b a) ∙ mod-eq_of_lt (bit_xor-lt 32 b a hb ha))
    ∙ xor_swap a b

cleared : (a b : ℕ) → bit_xor a (bit_and (bit_xor b a) 0) ≡ a
cleared a b = ap (bit_xor a) (bit_and-zero (bit_xor b a)) ∙ bit_xor-zero a

pub first_len-eq-min : (n : ℕ) → n < 2 ^ 32 → first_len n ≡ min n chunk_size
unfolding first_len
first_len-eq-min n h = elim (dec_lt chunk_size n) [
  | yes p ↦ rw (lt→ltb chunk_size n p) (kept n chunk_size h (omega arith) ∙ omega arith)
  | no p ↦ rw (le→ltb chunk_size n (omega arith)) (cleared n chunk_size ∙ omega arith)
]

pub chunk_len-eq-min : (n : ℕ) → n < 2 ^ 32 → chunk_len n ≡ min n chunk_size
unfolding chunk_len
chunk_len-eq-min n h = elim (dec_lt n chunk_size) [
  | yes p ↦ rw (lt→ltb n chunk_size p) (kept chunk_size n (omega arith) h ∙ omega arith)
  | no p ↦ rw (le→ltb n chunk_size (omega arith)) (cleared chunk_size n ∙ omega arith)
]

index-feed :
    (f : KangarooTwelveF) (b : ℕ)
    → f.byte_io_index < rate_in_bytes
    → (feed f b).byte_io_index ≡ (f.byte_io_index + 1) % rate_in_bytes
unfolding feed
index-feed f b h = ground arith

pub index-feed_all :
    (f : KangarooTwelveF) (bs : List ℕ)
    → IsNode f
    → (feed_all f bs).byte_io_index ≡ (f.byte_io_index + length bs) % rate_in_bytes
unfolding feed_all
index-feed_all f [] n = omega (arith, n.in_block)
index-feed_all f (b ∷ bs) n =
    omega (arith, index-feed_all (feed f b) bs (feed-IsNode f b n), index-feed f b n.in_block)
