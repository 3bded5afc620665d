-- ===== src/K12/Root.antt =====
-- `KangarooTwelve` is the tree hash.
use zkproof_demo.Base.{
  ℕ, zero, suc, ◌+◌, ◌-◌, ◌/◌, ◌%◌, ◌^◌, ◌<◌, ◌≤◌, ◌≡◌, refl, sym, ap, ap₂, ◌∙◌, ne→==, eq→==,
  le→leb, lt→leb, List, [], ◌∷◌, ◌++◌, length, take, drop, length-append, length-take, length-drop,
  take-append_le, drop-append_le, take_all, drop_all, arith,
}
use zkproof_demo.Sponge.{KangarooTwelveF, zero_node, state_bytes, absorb}
use zkproof_demo.Sponge.Bytes.{IsBytes, IsBytes-take, IsBytes-drop, xor_bytes}
use zkproof_demo.Sponge.Feed.{IsNode, feed_all, feed_all-append, feed_all-IsNode, feed_all-inside}
use zkproof_demo.Sponge.Absorb.{absorb-eq-feed_all}
use zkproof_demo.K12.{
  Hash, chunk_size, first_len, step_index, end_first_chunk, chunk_loop, end_chunks, encode_len,
  encode_bytes, encbuf, end_tree, hash_rest, kangaroo_twelve,
}
use zkproof_demo.K12.Lengths.{first_len-eq-min, index-feed_all}
use zkproof_demo.K12.Encode.{encbuf-eq-right_encode}
use zkproof_demo.K12.Leaves.{
  Closed, finished, zero_node-IsNode, close_node-eq-close, step_index-eq-feed, xor_byte-zero,
  IsBytes-append,
}
use zkproof_demo.K12.Chunks.{chunk_loop-Closed}
use zkproof_demo.K12.Tree.{close, sponge, chunks, chaining_values, right_encode, final_input, k12}
use native.Mathlib.Decide.{dec_lt, ℕ_discrete}

abbrev marker : List ℕ
marker = 3 ∷ 0 ∷ 0 ∷ 0 ∷ 0 ∷ 0 ∷ 0 ∷ 0 ∷ []

-- After a full chunk the index is 128, and the marker fits the block.
end_at_128 :
    (s : List ℕ)
    → end_first_chunk (record { state = s; byte_io_index = 128 })
      ≡ feed_all (record { state = s; byte_io_index = 128 }) marker
end_at_128 s = opened ∙ sym (feed_all-inside s 128 marker (omega arith))
  where
    opened :
        end_first_chunk (record { state = s; byte_io_index = 128 })
        ≡ record { state = xor_bytes s 128 marker; byte_io_index = 128 + 8 }
    opened = unfold end_first_chunk xor_bytes in simp xor_byte-zero

end_first_chunk-eq-feed_all :
    (f : KangarooTwelveF) → f.byte_io_index ≡ 128 → end_first_chunk f ≡ feed_all f marker
end_first_chunk-eq-feed_all f e =
    ap end_first_chunk here ∙ end_at_128 f.state ∙ ap (λ t. feed_all t marker) (sym here)
  where
    here : f ≡ record { state = f.state; byte_io_index = 128 }
    here = ap (λ i. record { state = f.state; byte_io_index = i }) e

encode_bytes-IsBytes : (n v : ℕ) → IsBytes (encode_bytes n v)
unfolding encode_bytes
encode_bytes-IsBytes zero v = tt
encode_bytes-IsBytes (suc n) v = (omega arith, encode_bytes-IsBytes n v)

encode_len-le : (fuel v n : ℕ) → encode_len fuel v n ≤ n + fuel
unfolding encode_len
encode_len-le zero v n = omega arith
encode_len-le (suc fuel) v n = elim (ℕ_discrete v 0) [
  | yes e ↦ rw (eq→== v 0 e, encode_len) (omega arith)
  | no ne ↦ rw (ne→== v 0 ne, encode_len) (omega (arith, encode_len-le fuel (v / 256) (n + 1)))
]

encbuf-IsBytes : (v : ℕ) → IsBytes (encbuf v)
unfolding encbuf
encbuf-IsBytes v =
    IsBytes-append (encode_bytes (encode_len 8 v 0) v) _ (encode_bytes-IsBytes (encode_len 8 v 0) v)
      (omega (arith, encode_len-le 8 v 0))

length-chunks-le : (g : ℕ) (s : List ℕ) → length (chunks g s) ≤ g
unfolding chunks
length-chunks-le zero s = omega arith
length-chunks-le (suc g) s = elim (dec_lt 8192 (length s)) [
  | yes p ↦ rw (lt→leb (length s) 8192 p, chunks) (omega (arith, length-chunks-le g (drop 8192 s)))
  | no p ↦ rw (le→leb (length s) 8192 (omega arith), chunks) (omega arith)
]

-- The end of a tree whose leaves are `cs`.
end_tree-eq-close :
    (first : List ℕ) (h k : Hash) (cs : List (List ℕ))
    → Closed h cs (finished k)
    → h.final_node ≡ feed_all (feed_all zero_node first) marker
    → h.block_number ≡ 1
    → length cs < 2 ^ 64
    → end_tree (end_chunks k) ≡ close 0x06 (feed_all zero_node (final_input first cs))
unfolding end_tree final_input
end_tree-eq-close first h k cs closed start one few =
    close_node-eq-close 0x06 _
    ∙ ap (close 0x06) (
        ap₂ (λ f v. absorb f (encbuf v)) final number
        ∙ absorb-eq-feed_all fed (encbuf (length cs)) fed-IsNode (encbuf-IsBytes (length cs))
        ∙ ap (feed_all fed) (encbuf-eq-right_encode (length cs) few)
        ∙ appended)
  where
    fed : KangarooTwelveF
    fed = feed_all (feed_all (feed_all zero_node first) marker) (chaining_values cs)

    fed-IsNode : IsNode fed
    fed-IsNode =
        feed_all-IsNode _ (chaining_values cs)
          (feed_all-IsNode _ marker (feed_all-IsNode zero_node first zero_node-IsNode))

    final : (finished k).final_node ≡ fed
    final = closed.final ∙ ap (λ t. feed_all t (chaining_values cs)) start

    number : (finished k).block_number - 1 ≡ length cs
    number = omega (arith, closed.number, one)

    tail : List ℕ
    tail = right_encode (length cs) ++ (0xFF ∷ 0xFF ∷ [])

    appended :
        feed_all fed tail ≡ feed_all zero_node (first ++ (marker ++ (chaining_values cs ++ tail)))
    appended =
        sym (feed_all-append (feed_all (feed_all zero_node first) marker) (chaining_values cs) tail)
        ∙ sym (feed_all-append (feed_all zero_node first) marker (chaining_values cs ++ tail))
        ∙ sym (feed_all-append zero_node first (marker ++ (chaining_values cs ++ tail)))

-- The locals before the loop.
abbrev tree : KangarooTwelveF → Hash
tree first = record {
  final_node = end_first_chunk first;
  queue_node = zero_node;
  block_number = 1;
  queue_absorbed_len = 0;
}

-- With no byte left, the code without the loop does what the loop would.
hash_rest-tree :
    (first : KangarooTwelveF) (rest : List ℕ)
    → hash_rest chunk_size first rest
      ≡ end_tree (end_chunks (chunk_loop (length rest) (tree first) rest))
unfolding hash_rest end_chunks chunk_loop
hash_rest-tree first [] = refl
hash_rest-tree first (x ∷ rest) =
    rw (ne→== (suc (length rest)) 0 (λ z. omega arith))
      (rw (ne→== (suc (length rest)) 0 (λ z. omega arith), chunk_loop) refl)

module _ (input : List ℕ) (b : IsBytes input) (fits : length input < 2 ^ 32) where
  size : length (input ++ (0 ∷ [])) ≡ length input + 1
  size = length-append input (0 ∷ [])

  short_input :
      length input < chunk_size
      → hash_rest (length input) (absorb zero_node input) []
        ≡ close 0x07 (feed_all zero_node (input ++ (0 ∷ [])))
  unfolding hash_rest
  short_input p = rw (ne→== (length input) chunk_size (λ z. omega arith)) (
      close_node-eq-close 0x07 _
      ∙ ap (close 0x07) (
          ap step_index (absorb-eq-feed_all zero_node input zero_node-IsNode b)
          ∙ step_index-eq-feed (feed_all zero_node input)
              (feed_all-IsNode zero_node input zero_node-IsNode)
          ∙ unfold feed_all in sym (feed_all-append zero_node input (0 ∷ []))))

  long_input :
      chunk_size ≤ length input
      → hash_rest chunk_size (absorb zero_node (take 8192 input)) (drop 8192 input)
        ≡ close 0x06 (
            feed_all zero_node (
              final_input
                (take 8192 (input ++ (0 ∷ [])))
                (chunks (length (input ++ (0 ∷ []))) (drop 8192 (input ++ (0 ∷ []))))))
  long_input p =
      hash_rest-tree (absorb zero_node first) rest
      ∙ end_tree-eq-close first h (chunk_loop (length rest) h rest) leaves closed start refl few
      ∙ ap₂
          (λ s t.
            close 0x06 (feed_all zero_node (final_input s (chunks (length (input ++ (0 ∷ []))) t))))
          (sym (take-append_le 8192 input (0 ∷ []) p)) (sym (drop-append_le 8192 input (0 ∷ []) p))
    where
      first : List ℕ
      first = take 8192 input

      rest : List ℕ
      rest = drop 8192 input

      h : Hash
      h = tree (absorb zero_node first)

      leaves : List (List ℕ)
      leaves = chunks (length (input ++ (0 ∷ []))) (rest ++ (0 ∷ []))

      absorbed : absorb zero_node first ≡ feed_all zero_node first
      absorbed = absorb-eq-feed_all zero_node first zero_node-IsNode (IsBytes-take 8192 input b)

      index : (feed_all zero_node first).byte_io_index ≡ 128
      index =
          index-feed_all zero_node first zero_node-IsNode
          ∙ ap (λ n. n % 168) {y = 8192} (omega (arith, length-take 8192 input))

      start : h.final_node ≡ feed_all (feed_all zero_node first) marker
      start =
          ap end_first_chunk absorbed ∙ end_first_chunk-eq-feed_all (feed_all zero_node first) index

      h-IsNode : IsNode h.final_node
      h-IsNode =
          rw start (feed_all-IsNode _ marker (feed_all-IsNode zero_node first zero_node-IsNode))

      few : length leaves < 2 ^ 64
      few = omega (arith, length-chunks-le (length (input ++ (0 ∷ []))) (rest ++ (0 ∷ [])), size)

      closed : Closed h leaves (finished (chunk_loop (length rest) h rest))
      closed =
          chunk_loop-Closed (length rest) (length (input ++ (0 ∷ []))) h rest (omega arith)
            (omega (arith, size, length-drop 8192 input)) h-IsNode (IsBytes-drop 8192 input b) refl
            (omega (arith, length-drop 8192 input))

  small_hash : length input < chunk_size → (n : ℕ) → kangaroo_twelve input n ≡ k12 input n
  unfolding kangaroo_twelve k12 sponge
  small_hash p n =
      rw (le→leb (length (input ++ (0 ∷ []))) 8192 (omega (arith, size)), k12)
        (rw
          (
            len,
            take_all (length input) input (omega arith),
            drop_all (length input) input (omega arith),
          )
          (ap (λ s. take n (state_bytes s)) (short_input p)))
    where
      len : first_len (length input) ≡ length input
      len = first_len-eq-min (length input) fits ∙ omega arith

  large_hash : chunk_size ≤ length input → (n : ℕ) → kangaroo_twelve input n ≡ k12 input n
  unfolding kangaroo_twelve k12 sponge
  large_hash p n =
      rw (lt→leb (length (input ++ (0 ∷ []))) 8192 (omega (arith, size)), k12)
        (rw len (ap (λ s. take n (state_bytes s)) (long_input p)))
    where
      len : first_len (length input) ≡ chunk_size
      len = first_len-eq-min (length input) fits ∙ omega arith

  pub kangaroo_twelve_lem : (n : ℕ) → kangaroo_twelve input n ≡ k12 input n
  kangaroo_twelve_lem n = elim (dec_lt (length input) chunk_size) [
    | yes p ↦ small_hash p n
    | no p ↦ large_hash (omega arith) n
  ]

-- `KangarooTwelve` computes KangarooTwelve with an empty customisation string, as the tree hash is
-- described, for every input of bytes whose length an `unsigned int` holds.
pub kangaroo_twelve-eq-k12 :
    (input : List ℕ) (n : ℕ)
    → IsBytes input
    → length input < 2 ^ 32
    → kangaroo_twelve input n ≡ k12 input n
kangaroo_twelve-eq-k12 input n b fits = kangaroo_twelve_lem input b fits n
