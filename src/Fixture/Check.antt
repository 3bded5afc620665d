-- ===== src/Fixture/Check.antt =====
-- The fixture checker, crypto/tests/check_fixture.c: `take` to `computor_index`, and `main` from the
-- magic on. `buf`, `pos` and `len` are the list of the bytes that are left; `fail` is a result.
pub mod Reads
pub mod Items
pub mod Commits
pub mod Votes
pub mod Parts
pub mod Accepted
use zkproof_demo.Base.{
  ℕ, zero, suc, ◌+◌, ◌-◌, ◌%◌, ◌^◌, bit_and, Bool, true, false, not, ◌&&◌, ◌||◌, ◌==◌, ltb, leb,
  if◌then◌else◌, Option, none, some, List, [], ◌∷◌, ◌++◌, length, get_or, set, take, drop,
  replicate,
}
use zkproof_demo.Base.Bytes.{bytes_equal}
use zkproof_demo.Word.{◌>>>◌}
use zkproof_demo.Crypto.{Crypto}
use zkproof_demo.Transaction.{get_u16, get_u32, get_u64, tx_hdr, tx_ok}
use zkproof_demo.Fixture.Result.{Result, ok, failed, ◌>>=◌, unless}
use zkproof_demo.Fixture.{num_computors, packet_size, quorum, magic, computor_key}

-- The messages of `fail`; those that `take` is given come first.
pub data Failure : Type 0 where
  no_magic no_packet no_query_id no_query_tx no_reply no_n no_commit_tx no_reveal_tx : Failure
  bad_magic packet_signature epoch_0 repeated_pubkey query_tx query_tick reply_length : Failure
  reveal_tx reveal_input trailing_bytes some_commits_invalid quorum_not_reached : Failure

-- What `take` returns, and the bytes behind it.
unfoldable pub take_input : ℕ → Failure → List ℕ → Result Failure (List ℕ × List ℕ)
take_input n what bytes =
    if ltb (length bytes) n then failed what else ok (take n bytes, drop n bytes)

unfoldable pub blob : Failure → List ℕ → Result Failure (List ℕ × List ℕ)
blob what bytes = take_input 4 what bytes >>= λ (n, rest). take_input (get_u32 n) what rest

-- The first of `k` computors from `i` on with that key.
unfoldable pub computor_from : List ℕ → List ℕ → ℕ → ℕ → Option ℕ
computor_from packet pk zero i = none
computor_from packet pk (suc k) i = elim (bytes_equal (computor_key packet i) pk) [
  | true ↦ some i
  | false ↦ computor_from packet pk k (i + 1)
]

unfoldable pub computor_index : List ℕ → List ℕ → Option ℕ
computor_index packet pk = computor_from packet (take 32 pk) num_computors 0

-- The two loops over pairs of keys: key `i` against `k` keys from `j` on, and `k` such `i`.
unfoldable pub repeats : List ℕ → ℕ → ℕ → ℕ → Bool
repeats packet i zero j = false
repeats packet i (suc k) j = elim (bytes_equal (computor_key packet i) (computor_key packet j)) [
  | true ↦ true
  | false ↦ repeats packet i k (j + 1)
]

unfoldable pub some_repeats : List ℕ → ℕ → ℕ → Bool
some_repeats packet zero i = false
some_repeats packet (suc k) i = elim (repeats packet i k (i + 1)) [
  | true ↦ true
  | false ↦ some_repeats packet k (i + 1)
]

-- What a commit is compared with: the packet, the query and the reply.
pub record Claim : Type 0 where
  pub packet : List ℕ
  pub query_id : ℕ
  pub query_tick : ℕ
  pub reply : List ℕ

-- `kpBuf`: the reply and the two bytes of the index.
unfoldable pub knowledge : Crypto → List ℕ → ℕ → List ℕ
knowledge c reply idx = c.k12 (reply ++ (bit_and idx 0xff ∷ (idx >>> 8) % 2 ^ 8 ∷ []))

-- The test of one item, `it = tx + TX_HDR + off`.
unfoldable pub is_item : Crypto → Claim → List ℕ → ℕ → ℕ → Bool
is_item c f tx idx off =
    let it = drop (tx_hdr + off) tx in
    (get_u64 it == f.query_id)
    && (bytes_equal (take 32 (drop 8 it)) (c.k12 f.reply)
        && bytes_equal (take 32 (drop 40 it)) (knowledge c f.reply idx))

-- The loop over the items, with `input_size` rounds of fuel.
unfoldable pub hit_loop : (ℕ → Bool) → ℕ → ℕ → ℕ → Bool → Bool
hit_loop item input_size zero off hit = hit
hit_loop item input_size (suc fuel) off hit = elim (leb (off + 72) input_size) [
  | true ↦ hit_loop item input_size fuel (off + 72) (item off || hit)
  | false ↦ hit
]

unfoldable pub has_item : Crypto → Claim → List ℕ → ℕ → Bool
has_item c f tx idx =
    let input_size = get_u16 (drop 78 tx) in
    hit_loop (is_item c f tx idx) input_size input_size 0 false

pub record Count : Type 0 where
  pub seen : List ℕ
  pub counted : ℕ

-- The body of the loop over the commits, with its two `continue`s.
unfoldable pub count_commit : Crypto → Claim → List ℕ → Count → Count
count_commit c f tx s =
    elim ((tx_ok c tx (length tx) 6 0 true == 0) || leb (get_u32 (drop 72 tx)) f.query_tick) [
      | true ↦ s
      | false ↦ elim (computor_index f.packet tx) [
        | none ↦ s
        | some idx ↦ elim ((get_or s.seen idx 0 == 0) && has_item c f tx idx) [
          | true ↦ record s { seen = set s.seen idx 1; counted = s.counted + 1 }
          | false ↦ s
        ]
      ]
    ]

unfoldable pub commit_loop : Crypto → Claim → ℕ → Count → List ℕ → Result Failure (Count × List ℕ)
commit_loop c f zero s bytes = ok (s, bytes)
commit_loop c f (suc n) s bytes =
    blob no_commit_tx bytes >>= λ (tx, rest). commit_loop c f n (count_commit c f tx s) rest

-- What is printed for a fixture.
pub record Report : Type 0 where
  pub epoch : ℕ
  pub query_id : ℕ
  pub commits : ℕ
  pub valid : ℕ

-- From `revealTx` on.
unfoldable pub check_reveal : Crypto → Claim → ℕ → List ℕ → Result Failure (Unit {0})
check_reveal c f vlen tx =
    unless
      ((tx_ok c tx vlen 7 0 true == 0)
        || elim (computor_index f.packet tx) [ none ↦ true | some i ↦ false ])
      reveal_tx
      (unless
        (not (vlen == tx_hdr + 8 + length f.reply + 64)
          || (not (get_u64 (drop tx_hdr tx) == f.query_id)
              || not (bytes_equal (take (length f.reply) (drop (tx_hdr + 8) tx)) f.reply)))
        reveal_input (ok tt))

-- The last tests, after the report is printed.
unfoldable pub check_counts : Report → Result Failure Report
check_counts r =
    unless (not (r.valid == r.commits)) some_commits_invalid
      (unless (ltb r.valid quorum) quorum_not_reached (ok r))

-- From `n` on.
unfoldable pub check_commits : Crypto → Claim → List ℕ → Result Failure Report
check_commits c f bytes = do
  (n4, from_commits) ← take_input 4 no_n bytes
  let n = get_u32 n4
  (s, from_reveal) ←
      commit_loop c f n (record { seen = replicate num_computors 0; counted = 0 }) from_commits
  (tx, rest) ← blob no_reveal_tx from_reveal
  _ ← check_reveal c f (length tx) tx
  unless (not (length rest == 0)) trailing_bytes (
      check_counts (record {
        epoch = get_u16 f.packet;
        query_id = f.query_id;
        commits = n;
        valid = s.counted;
      }))

-- The packet: its signature, its epoch and its keys.
unfoldable pub check_packet : Crypto → List ℕ → List ℕ → Result Failure (Unit {0})
check_packet c arb packet =
    unless
      (c.verify arb (drop (packet_size - 64) packet) (c.k12 (take (packet_size - 64) packet)) == 0)
      packet_signature
      (unless (get_u16 packet == 0) epoch_0
        (unless (some_repeats packet num_computors 0) repeated_pubkey (ok tt)))

unfoldable pub check_fixture : Crypto → List ℕ → List ℕ → Result Failure Report
check_fixture c arb bytes = do
  (m, from_packet) ← take_input 8 no_magic bytes
  _ ← unless (not (bytes_equal m magic)) bad_magic (ok (tt {0}))
  (packet, from_id) ← take_input packet_size no_packet from_packet
  _ ← check_packet c arb packet
  (id, from_query) ← take_input 8 no_query_id from_id
  let query_id = get_u64 id
  (query, from_reply) ← blob no_query_tx from_query
  _ ← unless (tx_ok c query (length query) 10 0 false == 0) query_tx (ok (tt {0}))
  let tick = get_u32 (drop 72 query)
  _ ← unless (not (tick == (query_id >>> 31) % 2 ^ 32)) query_tick (ok (tt {0}))
  (reply, from_n) ← blob no_reply from_reply
  _ ← unless (ltb (length reply) 1 || ltb 1008 (length reply)) reply_length (ok (tt {0}))
  check_commits c
      (record { packet = packet; query_id = query_id; query_tick = tick; reply = reply }) from_n
