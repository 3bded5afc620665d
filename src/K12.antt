-- ===== src/K12.antt =====
-- `KangarooTwelve` and `qubic_k12` of crypto/src/riscv_fourq_verify.c. The `input` pointer and
-- `inputByteLen` are one list; a fresh `queueNode`, which C leaves uninitialised where it is not
-- read, is a zero node. `unsigned int` counters keep their wrap.
pub mod Tree
pub mod Lengths
pub mod Encode
pub mod Leaves
pub mod Chunks
pub mod Root
use zkproof_demo.Base.{
  ℕ, zero, suc, ◌+◌, ◌-◌, ◌*◌, ◌/◌, ◌%◌, ◌^◌, bit_and, bit_xor, true, false, ◌==◌, ltb, flag,
  if◌then◌else◌, List, [], ◌∷◌, ◌++◌, length, take, drop,
}
use zkproof_demo.Keccak.{permute_12rounds}
use zkproof_demo.Sponge.{
  KangarooTwelveF, zero_node, rate_in_bytes, capacity_in_bytes, xor_byte, state_bytes, absorb,
}

abbrev pub chunk_size : ℕ
chunk_size = 8192

abbrev pub suffix_leaf : ℕ
suffix_leaf = 0x0B

-- The locals of the function once the first chunk is absorbed.
pub record Hash : Type 0 where
  pub final_node : KangarooTwelveF
  pub queue_node : KangarooTwelveF
  pub block_number : ℕ
  pub queue_absorbed_len : ℕ

-- `len`: `inputByteLen`, or the chunk size where that is less, without a branch.
unfoldable pub first_len : ℕ → ℕ
first_len n =
    bit_xor n (bit_and (bit_xor chunk_size n) ((2 ^ 32 - flag (ltb chunk_size n)) % 2 ^ 32))

-- `clen`, likewise from the other side.
unfoldable pub chunk_len : ℕ → ℕ
chunk_len n =
    bit_xor chunk_size
      (bit_and (bit_xor n chunk_size) ((2 ^ 32 - flag (ltb n chunk_size)) % 2 ^ 32))

-- `++node.byteIOIndex`, and the permutation if the block is full.
unfoldable pub step_index : KangarooTwelveF → KangarooTwelveF
step_index f =
    let i = (f.byte_io_index + 1) % 256 in
    if i == rate_in_bytes
    then record { state = permute_12rounds f.state; byte_io_index = 0 }
    else record f { byte_io_index = i }

-- The end of the first chunk of a longer input: 0x03, then up to the next lane.
unfoldable pub end_first_chunk : KangarooTwelveF → KangarooTwelveF
end_first_chunk f =
    let s = xor_byte f.state f.byte_io_index 0x03 in
    let i = (f.byte_io_index + 1) % 256 in
    if i == rate_in_bytes
    then record { state = permute_12rounds s; byte_io_index = 0 }
    else record { state = s; byte_io_index = bit_and (i + 7) 0xFFFFFFF8 % 256 }

-- A node's last block: the suffix, the padding's last bit, and the permutation.
unfoldable pub close_node : ℕ → KangarooTwelveF → List ℕ
close_node suffix f =
    permute_12rounds (xor_byte (xor_byte f.state f.byte_io_index suffix) (rate_in_bytes - 1) 0x80)

-- A full leaf is closed and its chaining value absorbed.
unfoldable pub close_leaf : Hash → Hash
close_leaf h =
    let s = close_node suffix_leaf h.queue_node in
    record h {
      block_number = (h.block_number + 1) % 2 ^ 32;
      queue_node = record { state = s; byte_io_index = capacity_in_bytes };
      final_node = absorb h.final_node (take capacity_in_bytes (state_bytes s));
    }

-- A round of the loop over the chunks after the first.
unfoldable pub chunk_step : Hash → List ℕ → Hash
chunk_step h input =
    let clen = chunk_len (length input) in
    let h' = record h { queue_node = absorb zero_node (take clen input) } in
    if clen == chunk_size then close_leaf h' else record h' { queue_absorbed_len = clen }

-- `while (inputByteLen > 0)`; `fuel` bounds the rounds.
unfoldable pub chunk_loop : ℕ → Hash → List ℕ → Hash
chunk_loop zero h input = h
chunk_loop (suc fuel) h input = elim (length input == 0) [
  | true ↦ h
  | false ↦ chunk_loop fuel (chunk_step h input) (drop (chunk_len (length input)) input)
]

-- After the loop the empty customisation's length, a zero byte, goes to the last leaf, or to a
-- new one.
unfoldable pub end_chunks : Hash → Hash
end_chunks h =
    let h' = record h { queue_node = step_index h.queue_node } in
    let len = (h.queue_absorbed_len + 1) % 2 ^ 32 in
    let full = record (close_leaf h') { queue_absorbed_len = 0 } in
    if h.queue_absorbed_len == 0
    then record h {
      queue_node = record { state = zero_node.state; byte_io_index = 1 };
      queue_absorbed_len = 1;
    }
    else if len == chunk_size
    then full
    else record h' { queue_absorbed_len = len }

-- `n`: the bytes of the number of leaves, at most 8.
unfoldable pub encode_len : ℕ → ℕ → ℕ → ℕ
encode_len zero v n = n
encode_len (suc fuel) v n = elim (v == 0) [ true ↦ n | false ↦ encode_len fuel (v / 2 ^ 8) (n + 1) ]

-- `encbuf[0 .. n)`: shifts from `8 * (n - 1)` down to 0.
unfoldable pub encode_bytes : ℕ → ℕ → List ℕ
encode_bytes zero v = []
encode_bytes (suc m) v = v / 2 ^ (8 * m) % 256 ∷ encode_bytes m v

-- `encbuf` for the leaves `v`.
unfoldable pub encbuf : ℕ → List ℕ
encbuf v = let n = encode_len 8 v 0 in encode_bytes n v ++ (n ∷ 0xFF ∷ 0xFF ∷ [])

-- `if (queueAbsorbedLen)` at the end: the open leaf is closed and absorbed.
unfoldable pub close_open_leaf : Hash → Hash
close_open_leaf h =
    let s = close_node suffix_leaf h.queue_node in
    if h.queue_absorbed_len == 0 then h else record h {
      block_number = (h.block_number + 1) % 2 ^ 32;
      final_node = absorb h.final_node (take capacity_in_bytes (state_bytes s));
    }

-- The block under `if (blockNumber)`, with the number of leaves and the final suffix.
unfoldable pub end_tree : Hash → List ℕ
end_tree h =
    let h' = close_open_leaf h in
    close_node 0x06 (absorb h'.final_node (encbuf (h'.block_number - 1)))

-- The first chunk is absorbed; `rest` is the input after it.
unfoldable pub hash_rest : ℕ → KangarooTwelveF → List ℕ → List ℕ
hash_rest len first rest =
    let tree : Hash = record {
      final_node = end_first_chunk first;
      queue_node = zero_node;
      block_number = 1;
      queue_absorbed_len = 0;
    } in
    if len == chunk_size
    then (if length rest == 0
        then end_tree (record tree {
          queue_node = record { state = zero_node.state; byte_io_index = 1 };
          queue_absorbed_len = 1;
        })
        else end_tree (end_chunks (chunk_loop (length rest) tree rest)))
    else close_node 0x07 (step_index first)

-- `KangarooTwelve(input, inputByteLen, output, outputByteLen)`
unfoldable pub kangaroo_twelve : List ℕ → ℕ → List ℕ
kangaroo_twelve input output_byte_len =
    let len = first_len (length input) in
    let s = hash_rest len (absorb zero_node (take len input)) (drop len input) in
    take output_byte_len (state_bytes s)

-- The length is cast to an `unsigned int`: the bytes past it are not hashed.
unfoldable pub qubic_k12 : List ℕ → List ℕ
qubic_k12 input = kangaroo_twelve (take (length input % 2 ^ 32) input) 32
