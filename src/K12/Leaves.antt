-- ===== src/K12/Leaves.antt =====
-- The loop over the chunks, and the code after it, absorb the chaining values of the leaves.
use zkproof_demo.Base.{
  ℕ, zero, suc, ◌+◌, ◌*◌, ◌/◌, ◌%◌, ◌^◌, ◌<◌, ◌≡◌, refl, sym, ap, ◌∙◌, ne→==, eq→==, List, [], ◌∷◌,
  ◌++◌, length, take, arith,
}
use zkproof_demo.Sponge.{
  KangarooTwelveF, zero_node, capacity_in_bytes, xor_byte, xor_lane, lane_bytes, state_bytes,
  absorb,
}
use zkproof_demo.Sponge.Bytes.{IsBytes, IsBytes-take, xor_lane-zero}
use zkproof_demo.Sponge.Feed.{IsNode, feed, feed_all, feed_all-append, feed_all-IsNode}
use zkproof_demo.Sponge.Absorb.{absorb-eq-feed_all}
use zkproof_demo.K12.{
  Hash, chunk_size, suffix_leaf, step_index, close_node, close_leaf, end_chunks, close_open_leaf,
}
use zkproof_demo.K12.Tree.{close, sponge, leaf, chaining_values}
use mathlib.Core.List.{append-nil}
use native.Mathlib.Decide.{ℕ_discrete}
use native.Mathlib.Nat.{mod-eq_of_lt}

pub IsBytes-append : (xs ys : List ℕ) → IsBytes xs → IsBytes ys → IsBytes (xs ++ ys)
IsBytes-append [] ys hx hy = hy
IsBytes-append (x ∷ xs) ys hx hy = (hx.0, IsBytes-append xs ys hx.1 hy)

lane_bytes-IsBytes : (n x : ℕ) → IsBytes (lane_bytes n x)
unfolding lane_bytes
lane_bytes-IsBytes zero x = tt
lane_bytes-IsBytes (suc n) x = (omega arith, lane_bytes-IsBytes n (x / 256))

pub state_bytes-IsBytes : (s : List ℕ) → IsBytes (state_bytes s)
unfolding state_bytes
state_bytes-IsBytes [] = tt
state_bytes-IsBytes (x ∷ s) =
    IsBytes-append (lane_bytes 8 x) (state_bytes s) (lane_bytes-IsBytes 8 x) (state_bytes-IsBytes s)

pub zero_node-IsNode : IsNode zero_node
zero_node-IsNode = record { lanes = refl; in_block = omega arith }

pub close_node-eq-close : (suffix : ℕ) (f : KangarooTwelveF) → close_node suffix f ≡ close suffix f
unfolding close_node close
close_node-eq-close suffix f = refl

pub xor_byte-zero : (s : List ℕ) (k : ℕ) → xor_byte s k 0 ≡ s
unfolding xor_byte
xor_byte-zero s k =
    let e : 0 * 2 ^ (8 * (k % 8)) ≡ 0 = omega arith in
    ap (xor_lane s (k / 8)) e ∙ xor_lane-zero s (k / 8)

-- Stepping the index is absorbing a zero byte.
pub step_index-eq-feed : (f : KangarooTwelveF) → IsNode f → step_index f ≡ feed f 0
unfolding step_index feed
step_index-eq-feed f n =
    let e : (f.byte_io_index + 1) % 256 ≡ f.byte_io_index + 1 = omega (arith, n.in_block) in
    rw (e, xor_byte-zero f.state f.byte_io_index) refl

-- The chaining value of a node whose chunk is absorbed goes to the final node.
pub absorb-leaf :
    (final queue : KangarooTwelveF) (chunk : List ℕ)
    → IsNode final
    → queue ≡ feed_all zero_node chunk
    → absorb final (take capacity_in_bytes (state_bytes (close_node suffix_leaf queue)))
      ≡ feed_all final (leaf chunk)
unfolding leaf sponge
absorb-leaf final queue chunk n e =
    absorb-eq-feed_all final _ n (IsBytes-take 32 _ (state_bytes-IsBytes _))
    ∙ ap (λ q. feed_all final (take 32 (state_bytes q)))
        (close_node-eq-close suffix_leaf queue ∙ ap (close suffix_leaf) e)

-- What the leaves `cs` do to the final node and to the block number.
pub record Closed (h : Hash) (cs : List (List ℕ)) (out : Hash) : Type 0 where
  pub final : out.final_node ≡ feed_all h.final_node (chaining_values cs)
  pub number : out.block_number ≡ h.block_number + length cs

abbrev pub finished : Hash → Hash
finished h = close_open_leaf (end_chunks h)

first_zero : record zero_node { byte_io_index = 1 } ≡ feed_all zero_node (0 ∷ [])
unfolding feed_all feed xor_byte xor_lane
first_zero = refl

-- One leaf alone.
one_leaf : (c : List ℕ) → chaining_values (c ∷ []) ≡ leaf c
unfolding chaining_values
one_leaf c = append-nil (leaf c)

-- No chunk is open: the zero byte is a leaf of its own.
pub no_open_leaf :
    (h : Hash)
    → IsNode h.final_node
    → h.queue_absorbed_len ≡ 0
    → h.block_number + 1 < 2 ^ 32
    → Closed h ((0 ∷ []) ∷ []) (finished h)
unfolding end_chunks close_open_leaf
no_open_leaf h n e fits =
    rw (e, end_chunks)
      (record {
        final =
            absorb-leaf h.final_node _ (0 ∷ []) n first_zero
            ∙ ap (feed_all h.final_node) (sym (one_leaf (0 ∷ [])));
        number = mod-eq_of_lt fits;
      })

-- A chunk is open: the zero byte ends it, and the leaf is closed in one place or the other.
pub open_leaf :
    (h : Hash) (chunk : List ℕ)
    → IsNode h.final_node
    → h.queue_node ≡ feed_all zero_node chunk
    → h.queue_absorbed_len ≡ length chunk
    → 0 < length chunk
    → length chunk < chunk_size
    → h.block_number + 1 < 2 ^ 32
    → Closed h ((chunk ++ (0 ∷ [])) ∷ []) (finished h)
unfolding end_chunks close_open_leaf close_leaf
open_leaf h chunk n queue len pos short fits =
    rw (ne→== h.queue_absorbed_len 0 (λ z. omega arith), end_chunks, wrap)
      (elim (ℕ_discrete (h.queue_absorbed_len + 1) chunk_size) [
        | yes e ↦
            rw (eq→== (h.queue_absorbed_len + 1) chunk_size e)
              (record { final = absorbed; number = mod-eq_of_lt fits })
        | no ne ↦
            rw
              (
                ne→== (h.queue_absorbed_len + 1) chunk_size ne,
                ne→== (h.queue_absorbed_len + 1) 0 (λ z. omega arith),
              )
              (record { final = absorbed; number = mod-eq_of_lt fits })
      ])
  where
    wrap : (h.queue_absorbed_len + 1) % 2 ^ 32 ≡ h.queue_absorbed_len + 1
    wrap = omega arith

    ended : step_index h.queue_node ≡ feed_all zero_node (chunk ++ (0 ∷ []))
    ended =
        ap step_index queue
        ∙ step_index-eq-feed (feed_all zero_node chunk)
            (feed_all-IsNode zero_node chunk zero_node-IsNode)
        ∙ unfold feed_all in sym (feed_all-append zero_node chunk (0 ∷ []))

    absorbed :
        absorb h.final_node
          (take capacity_in_bytes (state_bytes (close_node suffix_leaf (step_index h.queue_node))))
        ≡ feed_all h.final_node (chaining_values ((chunk ++ (0 ∷ [])) ∷ []))
    absorbed =
        absorb-leaf h.final_node (step_index h.queue_node) (chunk ++ (0 ∷ [])) n ended
        ∙ ap (feed_all h.final_node) (sym (one_leaf (chunk ++ (0 ∷ []))))
