-- ===== src/K12/Chunks.antt =====
-- The whole loop over the chunks, by induction on its rounds.
use zkproof_demo.Base.{
  ℕ, zero, suc, ◌+◌, ◌^◌, ◌<◌, ◌≤◌, ◌≡◌, refl, sym, ap, ◌∙◌, ne→==, le→leb, lt→leb, List, [], ◌∷◌,
  ◌++◌, length, take, drop, length-append, length-drop, take-append_le, drop-append_le, take_all,
  drop_all, arith,
}
use zkproof_demo.Sponge.{zero_node, absorb}
use zkproof_demo.Sponge.Bytes.{IsBytes, IsBytes-take, IsBytes-drop}
use zkproof_demo.Sponge.Feed.{IsNode, feed_all, feed_all-append, feed_all-IsNode}
use zkproof_demo.Sponge.Absorb.{absorb-eq-feed_all}
use zkproof_demo.K12.{Hash, chunk_size, chunk_len, close_leaf, chunk_step, chunk_loop}
use zkproof_demo.K12.Lengths.{chunk_len-eq-min}
use zkproof_demo.K12.Leaves.{
  Closed, finished, no_open_leaf, open_leaf, absorb-leaf, zero_node-IsNode,
}
use zkproof_demo.K12.Tree.{leaf, chunks, chaining_values}
use native.Mathlib.Decide.{dec_lt}
use native.Mathlib.Nat.{mod-eq_of_lt}

chunks_short : (g : ℕ) (s : List ℕ) → length s ≤ 8192 → chunks (suc g) s ≡ s ∷ []
unfolding chunks
chunks_short g s h = rw (le→leb (length s) 8192 h, chunks) refl

chunks_long :
    (g : ℕ) (s : List ℕ) → 8192 < length s → chunks (suc g) s ≡ take 8192 s ∷ chunks g (drop 8192 s)
unfolding chunks
chunks_long g s h = rw (lt→leb (length s) 8192 h, chunks) refl

-- A round that finds a chunk's bytes in the queue.
queue_absorbs :
    (input : List ℕ) (n : ℕ)
    → IsBytes input
    → absorb zero_node (take n input) ≡ feed_all zero_node (take n input)
queue_absorbs input n h =
    absorb-eq-feed_all zero_node (take n input) zero_node-IsNode (IsBytes-take n input h)

chunk_loop-nil : (fuel : ℕ) (h : Hash) → chunk_loop fuel h [] ≡ h
unfolding chunk_loop
chunk_loop-nil zero h = refl
chunk_loop-nil (suc fuel) h = refl

chunk_loop-suc :
    (fuel n : ℕ) (h : Hash) (input : List ℕ)
    → 0 < length input
    → chunk_len (length input) ≡ n
    → chunk_loop (suc fuel) h input ≡ chunk_loop fuel (chunk_step h input) (drop n input)
unfolding chunk_loop
chunk_loop-suc fuel n h input pos e =
    rw (ne→== (length input) 0 (λ z. omega arith), chunk_loop)
      (ap (λ t. chunk_loop fuel (chunk_step h input) (drop t input)) e)

-- A round over a whole chunk closes its leaf.
full_chunk :
    (h : Hash) (input : List ℕ)
    → IsNode h.final_node
    → IsBytes input
    → chunk_len (length input) ≡ chunk_size
    → h.block_number + 1 < 2 ^ 32
    → ((chunk_step h input).final_node ≡ feed_all h.final_node (leaf (take 8192 input)))
      × ((chunk_step h input).block_number ≡ h.block_number + 1)
      × ((chunk_step h input).queue_absorbed_len ≡ h.queue_absorbed_len)
unfolding chunk_step close_leaf
full_chunk h input n b e fits = rw e (
  absorb-leaf h.final_node _ (take 8192 input) n (queue_absorbs input 8192 b),
  mod-eq_of_lt fits,
  refl,
)

-- A round over less leaves the chunk open.
short_chunk :
    (h : Hash) (input : List ℕ)
    → IsBytes input
    → chunk_len (length input) ≡ length input
    → length input < chunk_size
    → ((chunk_step h input).queue_node ≡ feed_all zero_node input)
      × ((chunk_step h input).queue_absorbed_len ≡ length input)
      × ((chunk_step h input).final_node ≡ h.final_node)
      × ((chunk_step h input).block_number ≡ h.block_number)
unfolding chunk_step
short_chunk h input b e short =
    rw (e, ne→== (length input) chunk_size (λ z. omega arith))
      (
        queue_absorbs input (length input) b
            ∙ ap (feed_all zero_node) (take_all (length input) input (omega arith)),
        refl,
        refl,
        refl,
      )

module _ (h : Hash) (input : List ℕ) (n : IsNode h.final_node) (b : IsBytes input)
    (start : h.queue_absorbed_len ≡ 0) (fits : h.block_number + length input + 1 < 2 ^ 32) where
  -- The last round: fewer bytes than a chunk.
  last_round :
      (fuel g : ℕ)
      → 0 < length input
      → length input < chunk_size
      → Closed h (chunks (suc g) (input ++ (0 ∷ []))) (finished (chunk_loop (suc fuel) h input))
  last_round fuel g pos short =
      let len : chunk_len (length input) ≡ length input =
        chunk_len-eq-min (length input) (omega arith) ∙ omega arith in
      let k = chunk_step h input in
      let at = short_chunk h input b len short in
      let ends : chunk_loop (suc fuel) h input ≡ k =
        chunk_loop-suc fuel (length input) h input pos len
        ∙ ap (chunk_loop fuel k) (drop_all (length input) input (omega arith))
        ∙ chunk_loop-nil fuel k in
      let closed = open_leaf k input (rw at.2 n) at.0 at.1 pos short (omega (arith, at.3)) in
      let whole : length (input ++ (0 ∷ [])) ≤ 8192 = omega (arith, length-append input (0 ∷ [])) in
      rw (ends, chunks_short g (input ++ (0 ∷ [])) whole)
        (record {
          final =
              closed.final ∙ ap (λ t. feed_all t (chaining_values ((input ++ (0 ∷ [])) ∷ []))) at.2;
          number = closed.number ∙ ap (λ t. t + 1) at.3;
        })

  -- A round over a whole chunk, with what the rest of the loop does.
  full_round :
      (fuel g : ℕ)
      → chunk_size ≤ length input
      → (let k = chunk_step h input in
          IsNode k.final_node
          → k.queue_absorbed_len ≡ 0
          → k.block_number + length (drop 8192 input) + 1 < 2 ^ 32
          → Closed k
              (chunks g (drop 8192 input ++ (0 ∷ [])))
              (finished (chunk_loop fuel k (drop 8192 input))))
      → Closed h (chunks (suc g) (input ++ (0 ∷ []))) (finished (chunk_loop (suc fuel) h input))
  full_round fuel g full ih =
      let len : chunk_len (length input) ≡ chunk_size =
        chunk_len-eq-min (length input) (omega arith) ∙ omega arith in
      let at = full_chunk h input n b len (omega arith) in
      let node : IsNode (chunk_step h input).final_node =
        rw at.0 (feed_all-IsNode h.final_node (leaf (take 8192 input)) n) in
      let rest = ih node (at.2 ∙ start) (omega (arith, at.1, length-drop 8192 input)) in
      let longer : 8192 < length (input ++ (0 ∷ [])) =
        omega (arith, length-append input (0 ∷ [])) in
      rw
        (
          chunk_loop-suc fuel chunk_size h input (omega arith) len,
          chunks_long g (input ++ (0 ∷ [])) longer,
          take-append_le 8192 input (0 ∷ []) full,
          drop-append_le 8192 input (0 ∷ []) full,
        )
        (record {
          final =
              rest.final
              ∙ ap (λ t. feed_all t (chaining_values (chunks g (drop 8192 input ++ (0 ∷ []))))) at.0
              ∙ joined (take 8192 input) (chunks g (drop 8192 input ++ (0 ∷ [])));
          number = omega (arith, rest.number, at.1);
        })
    where
      joined :
          (c : List ℕ) (cs : List (List ℕ))
          → feed_all (feed_all h.final_node (leaf c)) (chaining_values cs)
            ≡ feed_all h.final_node (chaining_values (c ∷ cs))
      joined c cs =
          unfold chaining_values in sym (feed_all-append h.final_node (leaf c) (chaining_values cs))

-- The loop, the code after it and the last leaf absorb the chaining value of every chunk of the
-- input with its zero byte, and count the chunks.
pub chunk_loop-Closed :
    (fuel g : ℕ) (h : Hash) (input : List ℕ)
    → length input ≤ fuel
    → length input < g
    → IsNode h.final_node
    → IsBytes input
    → h.queue_absorbed_len ≡ 0
    → h.block_number + length input + 1 < 2 ^ 32
    → Closed h (chunks g (input ++ (0 ∷ []))) (finished (chunk_loop fuel h input))
chunk_loop-Closed fuel zero h input enough more n b start fits = absurd (omega arith)
chunk_loop-Closed fuel (suc g) h [] enough more n b start fits =
    rw (chunk_loop-nil fuel h, chunks_short g (0 ∷ []) (omega arith))
      (no_open_leaf h n start (omega arith))
chunk_loop-Closed zero (suc g) h (x ∷ xs) enough more n b start fits = absurd (omega arith)
chunk_loop-Closed (suc fuel) (suc g) h (x ∷ xs) enough more n b start fits =
    let input = x ∷ xs in
    elim (dec_lt (length input) chunk_size) [
      | yes p ↦ last_round h input n b start fits fuel g (omega arith) p
      | no p ↦ full_round h input n b start fits fuel g (omega arith) λ kn ks kf.
          chunk_loop-Closed fuel g (chunk_step h input) (drop 8192 input)
            (omega (arith, length-drop 8192 input)) (omega (arith, length-drop 8192 input)) kn
            (IsBytes-drop 8192 input b) ks kf
    ]
