-- ===== src/Sponge.antt =====
-- The sponge of KangarooTwelve in crypto/src/riscv_fourq_verify.c: `KangarooTwelve_F` and
-- `KangarooTwelve_F_Absorb`. A state is the list of its 25 lanes (see Keccak); `state[k] ^= v` on a
-- byte is the exclusive or of lane `k / 8` with `v` in place `k % 8`. The `data` pointer and the
-- counter `i` are one list, the bytes that are left: `dataByteLen - i` is its length.
pub mod Bytes
pub mod Feed
pub mod LaneLoops
pub mod Partial
pub mod Blocks
pub mod Absorb
use zkproof_demo.Base.{
  ℕ, zero, suc, ◌+◌, ◌-◌, ◌*◌, ◌/◌, ◌%◌, ◌^◌, bit_and, bit_xor, ◌&&◌, true, false, ◌==◌, ltb, leb,
  if◌then◌else◌, List, [], ◌∷◌, ◌++◌, length, take, drop, get_or, replicate,
}
use zkproof_demo.Word.{◌<<<◌}
use zkproof_demo.Keccak.{Lanes, copy_from_state, copy_to_state, rounds12, permute_12rounds}

abbrev pub rate_in_bytes : ℕ
rate_in_bytes = 168

abbrev pub capacity_in_bytes : ℕ
capacity_in_bytes = 32

-- `KangarooTwelve_F`
pub record KangarooTwelveF : Type 0 where
  pub state : List ℕ
  pub byte_io_index : ℕ

-- `setMem(&node, sizeof(KangarooTwelve_F), 0)`
abbrev pub zero_node : KangarooTwelveF
zero_node = record { state = replicate 25 0; byte_io_index = 0 }

-- `copyMem(&lane, data, n)` of at most 8 bytes into a lane that is zero.
unfoldable pub load_lane : List ℕ → ℕ
load_lane [] = 0
load_lane (b ∷ bs) = b + 256 * load_lane bs

-- `((uint64_t*)state)[j] ^= v`
unfoldable pub xor_lane : List ℕ → ℕ → ℕ → List ℕ
xor_lane [] j v = []
xor_lane (x ∷ xs) zero v = bit_xor x v ∷ xs
xor_lane (x ∷ xs) (suc j) v = x ∷ xor_lane xs j v

-- `state[k] ^= v`
unfoldable pub xor_byte : List ℕ → ℕ → ℕ → List ℕ
xor_byte s k v = xor_lane s (k / 8) (v * 2 ^ (8 * (k % 8)))

-- The first `n` bytes of a lane, and of a state.
unfoldable pub lane_bytes : ℕ → ℕ → List ℕ
lane_bytes zero x = []
lane_bytes (suc n) x = x % 256 ∷ lane_bytes n (x / 256)

unfoldable pub state_bytes : List ℕ → List ℕ
state_bytes [] = []
state_bytes (x ∷ xs) = lane_bytes 8 x ++ state_bytes xs

-- The loop over `n` whole lanes from lane `j` on.
unfoldable pub xor_lanes : ℕ → ℕ → List ℕ → List ℕ → List ℕ
xor_lanes zero j s bytes = s
xor_lanes (suc n) j s bytes =
    xor_lanes n (j + 1) (xor_lane s j (load_lane (take 8 bytes))) (drop 8 bytes)

-- `copyMem(d, data, 21 * sizeof(uint64_t))`, in `n` lanes.
unfoldable pub load_lanes : ℕ → List ℕ → List ℕ
load_lanes zero bytes = []
load_lanes (suc n) bytes = load_lane (take 8 bytes) ∷ load_lanes n (drop 8 bytes)

-- `Aba ^= d[0]` to `Asa ^= d[20]`
unfoldable pub xor_block : Lanes → List ℕ → Lanes
xor_block a d = record a {
  ba = bit_xor a.ba (get_or d 0 0);
  be = bit_xor a.be (get_or d 1 0);
  bi = bit_xor a.bi (get_or d 2 0);
  bo = bit_xor a.bo (get_or d 3 0);
  bu = bit_xor a.bu (get_or d 4 0);
  ga = bit_xor a.ga (get_or d 5 0);
  ge = bit_xor a.ge (get_or d 6 0);
  gi = bit_xor a.gi (get_or d 7 0);
  go = bit_xor a.go (get_or d 8 0);
  gu = bit_xor a.gu (get_or d 9 0);
  ka = bit_xor a.ka (get_or d 10 0);
  ke = bit_xor a.ke (get_or d 11 0);
  ki = bit_xor a.ki (get_or d 12 0);
  ko = bit_xor a.ko (get_or d 13 0);
  ku = bit_xor a.ku (get_or d 14 0);
  ma = bit_xor a.ma (get_or d 15 0);
  me = bit_xor a.me (get_or d 16 0);
  mi = bit_xor a.mi (get_or d 17 0);
  mo = bit_xor a.mo (get_or d 18 0);
  mu = bit_xor a.mu (get_or d 19 0);
  sa = bit_xor a.sa (get_or d 20 0);
}

-- The inner loop, over whole blocks; `fuel` bounds its rounds. The lanes and the bytes left.
unfoldable pub absorb_blocks : ℕ → Lanes → List ℕ → Lanes × List ℕ
absorb_blocks zero a bytes = (a, bytes)
absorb_blocks (suc fuel) a bytes = elim (leb rate_in_bytes (length bytes)) [
  | true ↦
      absorb_blocks fuel (rounds12 (xor_block a (load_lanes 21 bytes))) (drop rate_in_bytes bytes)
  | false ↦ (a, bytes)
]

-- The branch that starts on a block boundary with a whole block at hand.
unfoldable pub absorb_whole : KangarooTwelveF → List ℕ → KangarooTwelveF × List ℕ
absorb_whole f bytes =
    let (a, rest) = absorb_blocks (length bytes) (copy_from_state f.state) bytes in
    (record f { state = copy_to_state a }, rest)

-- `partialBlock`, an `unsigned char`, for `n` bytes at index `i`.
unfoldable pub partial_block : ℕ → ℕ → ℕ
partial_block i n = if ltb rate_in_bytes (n + i) then (rate_in_bytes + 256 - i) % 256 else n % 256

-- The first `p` bytes from a block boundary: whole lanes, then what is left over.
unfoldable pub xor_aligned : ℕ → List ℕ → List ℕ → List ℕ
xor_aligned p s bytes =
    let whole = xor_lanes (p / 2 ^ 3) 0 s bytes in
    let lane = load_lane (take (bit_and p 7) (drop (bit_and p 0xFFFFFFF8) bytes)) in
    if bit_and p 7 == 0 then whole else xor_lane whole (p / 2 ^ 3) lane

-- The loop from inside a lane: `size` bytes from lane `j` on, at `off` in it.
unfoldable pub xor_offset : ℕ → ℕ → ℕ → ℕ → List ℕ → List ℕ → List ℕ
xor_offset zero size j off s bytes = s
xor_offset (suc fuel) size j off s bytes =
    let in_lane = if ltb size (8 - off) then size else 8 - off in
    let s' =
      if in_lane == 0 then s else xor_lane s j (load_lane (take in_lane bytes) <<< (off * 2 ^ 3)) in
    elim (size == 0) [
      | true ↦ s
      | false ↦ xor_offset fuel (size - in_lane) (j + 1) 0 s' (drop in_lane bytes)
    ]

-- The other branch: up to the end of the block.
unfoldable pub absorb_partial : KangarooTwelveF → List ℕ → KangarooTwelveF × List ℕ
absorb_partial f bytes =
    let i = f.byte_io_index in
    let p = partial_block i (length bytes) in
    let s =
      if i == 0
      then xor_aligned p f.state bytes
      else xor_offset p p (i / 2 ^ 3) (bit_and i 7) f.state bytes in
    let i' = (i + p) % 256 in
    let f' =
      if i' == rate_in_bytes
      then record { state = permute_12rounds s; byte_io_index = 0 }
      else record { state = s; byte_io_index = i' } in
    (f', drop p bytes)

unfoldable pub absorb_step : KangarooTwelveF → List ℕ → KangarooTwelveF × List ℕ
absorb_step f bytes =
    if (f.byte_io_index == 0) && leb rate_in_bytes (length bytes)
    then absorb_whole f bytes
    else absorb_partial f bytes

-- The outer loop; `fuel` bounds its rounds.
unfoldable pub absorb_loop : ℕ → KangarooTwelveF → List ℕ → KangarooTwelveF
absorb_loop zero f bytes = f
absorb_loop (suc fuel) f bytes = elim (length bytes == 0) [
  | true ↦ f
  | false ↦ let (f', rest) = absorb_step f bytes in absorb_loop fuel f' rest
]

-- `KangarooTwelve_F_Absorb`: every round takes at least a byte, so the length is fuel enough.
unfoldable pub absorb : KangarooTwelveF → List ℕ → KangarooTwelveF
absorb f bytes = absorb_loop (length bytes) f bytes
