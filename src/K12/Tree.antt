-- ===== src/K12/Tree.antt =====
-- KangarooTwelve as its authors describe it, with an empty customisation string: a sponge with a
-- byte for suffix, over the message and a zero byte, in one node or in a tree of chunks.
use zkproof_demo.Base.{
  ℕ, zero, suc, ◌/◌, ◌%◌, true, false, ◌==◌, leb, List, [], ◌∷◌, ◌++◌, length, take, drop,
}
use zkproof_demo.Keccak.{permute_12rounds}
use zkproof_demo.Sponge.{KangarooTwelveF, zero_node, xor_byte, state_bytes}
use zkproof_demo.Sponge.Feed.{feed_all}

-- The last block of a sponge whose bytes are fed.
unfoldable pub close : ℕ → KangarooTwelveF → List ℕ
close suffix f = permute_12rounds (xor_byte (xor_byte f.state f.byte_io_index suffix) 167 0x80)

-- The first `n` bytes, at most a block, of the sponge of `bytes` with a suffix.
unfoldable pub sponge : ℕ → List ℕ → ℕ → List ℕ
sponge suffix bytes n = take n (state_bytes (close suffix (feed_all zero_node bytes)))

-- The chaining value of a chunk.
unfoldable pub leaf : List ℕ → List ℕ
leaf chunk = sponge 0x0B chunk 32

-- A string in pieces of 8192 bytes, the last not empty; `fuel` bounds their number.
unfoldable pub chunks : ℕ → List ℕ → List (List ℕ)
chunks zero s = []
chunks (suc fuel) s = elim (leb (length s) 8192) [
  | true ↦ s ∷ []
  | false ↦ take 8192 s ∷ chunks fuel (drop 8192 s)
]

-- The bytes of a number without leading zeros, highest first.
unfoldable pub big_endian : ℕ → ℕ → List ℕ
big_endian zero x = []
big_endian (suc fuel) x = elim (x == 0) [
  | true ↦ []
  | false ↦ big_endian fuel (x / 256) ++ (x % 256 ∷ [])
]

unfoldable pub right_encode : ℕ → List ℕ
right_encode x = big_endian x x ++ (length (big_endian x x) ∷ [])

unfoldable pub chaining_values : List (List ℕ) → List ℕ
chaining_values [] = []
chaining_values (c ∷ cs) = leaf c ++ chaining_values cs

-- The input of the final node: the first chunk, a marker, the chaining values and their number.
unfoldable pub final_input : List ℕ → List (List ℕ) → List ℕ
final_input first cs =
    first
    ++ ((3 ∷ 0 ∷ 0 ∷ 0 ∷ 0 ∷ 0 ∷ 0 ∷ 0 ∷ [])
        ++ (chaining_values cs ++ (right_encode (length cs) ++ (0xFF ∷ 0xFF ∷ []))))

unfoldable pub k12 : List ℕ → ℕ → List ℕ
k12 message n =
    let s = message ++ (0 ∷ []) in
    elim (leb (length s) 8192) [
      | true ↦ sponge 0x07 s n
      | false ↦ sponge 0x06 (final_input (take 8192 s) (chunks (length s) (drop 8192 s))) n
    ]
