-- ===== src/Fixture/Generate.antt =====
-- The fixture generator, crypto/tools/gen_fixture.c: `verify_tx` and `main` behind its argument loop,
-- which gives the options. `sign` is `qubic_sign`, of the stock library; `die` is a result, and the
-- bytes that are written to the file are the value.
pub mod Order
pub mod Usable
pub mod Faults
use zkproof_demo.Base.{
  ℕ, zero, suc, ◌+◌, ◌-◌, ◌*◌, ◌%◌, ◌^◌, bit_xor, Bool, true, false, not, ◌||◌, ◌==◌, ltb, leb,
  if◌then◌else◌, List, [], ◌∷◌, ◌++◌, length, get_or, set, take, drop, replicate, map,
}
use zkproof_demo.Word.{◌<<<◌, ◌>>>◌}
use zkproof_demo.Crypto.{Crypto}
use zkproof_demo.Transaction.{put_u16, put_u32, put_u64, tx_hdr, build_tx}
use zkproof_demo.Fixture.{num_computors, packet_size, item_size, magic}
use zkproof_demo.Fixture.Result.{Result, ok, failed, ◌>>=◌, unless}

-- The messages of `die`.
pub data Refusal : Type 0 where
  bad_epoch too_many_commits exceed_commits bad_reveal_by tick_exceeds_u32 early_commit : Refusal
  message_length few_seeds packet_signature query_signature commit_signature : Refusal
  reveal_signature : Refusal

-- `key_t_`, without the seed text and the private key, which `main` does not read.
pub record Key : Type 0 where
  pub sub : List ℕ
  pub pub_key : List ℕ

pub record Options : Type 0 where
  pub epoch : ℕ
  pub commits : ℕ
  pub bad_commits : ℕ
  pub wrong_digest : ℕ
  pub reveal_by : ℕ
  pub query_tick : ℕ
  pub commit_tick : ℕ
  pub reveal_tick : ℕ
  pub interface : ℕ
  pub timeout_ms : ℕ
  pub replay : Bool
  pub shuffle : Bool
  pub message : List ℕ

unfoldable pub check_options : Options → Result Refusal (Unit {0})
check_options o = unless (ltb o.epoch 1 || ltb 65535 o.epoch) bad_epoch (
    unless (ltb num_computors o.commits) too_many_commits (
      unless (ltb o.commits o.bad_commits || ltb o.commits o.wrong_digest) exceed_commits (
        unless (leb num_computors o.reveal_by) bad_reveal_by (
          unless
            (ltb 0xffffffff o.query_tick
              || (ltb 0xffffffff o.commit_tick || ltb 0xffffffff o.reveal_tick))
            tick_exceeds_u32
            (unless (leb o.commit_tick o.query_tick) early_commit (
              unless (ltb (length o.message) 1 || ltb 1008 (length o.message)) message_length
                (ok tt)))))))

-- `x ^= x << 13; x ^= x >> 7; x ^= x << 17;`
unfoldable pub next_random : ℕ → ℕ
next_random x = let a = bit_xor x (x <<< 13) in let b = bit_xor a (a >>> 7) in bit_xor b (b <<< 17)

unfoldable pub swap : List ℕ → ℕ → ℕ → List ℕ
swap order i j = set (set order i (get_or order j 0)) j (get_or order i 0)

-- `order[i] = i` for the `n` places from `i` on
unfoldable pub file_order : ℕ → ℕ → List ℕ
file_order zero i = []
file_order (suc n) i = i ∷ file_order n (i + 1)

-- The Fisher-Yates loop from `i` down to 1.
unfoldable pub shuffle_loop : ℕ → ℕ → List ℕ → List ℕ
shuffle_loop zero x order = order
shuffle_loop (suc i) x order =
    let x' = next_random x in shuffle_loop i x' (swap order (suc i) (x' % (suc i + 1)))

unfoldable pub commit_order : Bool → List ℕ
commit_order shuffle =
    let order = file_order num_computors 0 in
    if shuffle then shuffle_loop (num_computors - 1) 0x9e3779b97f4a7c15 order else order

-- What `fput_blob` writes.
unfoldable pub put_blob : List ℕ → List ℕ
put_blob p = put_u32 (length p) ++ p

unfoldable pub verify_tx : Crypto → List ℕ → ℕ → ℕ
verify_tx c tx len = c.verify (take 32 tx) (drop (len - 64) tx) (c.k12 (take (len - 64) tx))

-- `comp[]` is static, so zero before it is filled.
abbrev pub no_key : Key
no_key = record { sub = replicate 32 0; pub_key = replicate 32 0 }

unfoldable pub put_keys : List Key → List ℕ
put_keys [] = []
put_keys (k ∷ keys) = k.pub_key ++ put_keys keys

abbrev pub Sign : Type 0
Sign = List ℕ → List ℕ → List ℕ → List ℕ

-- The packet without its signature.
unfoldable pub packet_body : List Key → ℕ → List ℕ
packet_body keys epoch = put_u16 (epoch % 2 ^ 16) ++ put_keys keys

unfoldable pub build_packet : Crypto → Sign → Key → List Key → ℕ → List ℕ
build_packet c sign arb keys epoch =
    let body = packet_body keys epoch in body ++ sign arb.sub arb.pub_key (c.k12 body)

-- `put_u16(reply + wl, idx)` on the buffer.
unfoldable pub write_index : List ℕ → ℕ → ℕ → List ℕ
write_index reply wl idx =
    set (set reply wl (get_or (put_u16 idx) 0 0)) (wl + 1) (get_or (put_u16 idx) 1 0)

-- `tx[at] ^= 0xff`
unfoldable pub flip_byte : List ℕ → ℕ → List ℕ
flip_byte tx at = set tx at (bit_xor (get_or tx at 0) 0xff)

abbrev pub commit_len : ℕ
commit_len = tx_hdr + item_size + 64

abbrev pub is_wrong : Options → ℕ → Bool
is_wrong o n = leb (o.commits - o.wrong_digest) n

abbrev pub is_bad : Options → ℕ → Bool
is_bad o n = leb (o.commits - o.bad_commits) n

-- `wl`
abbrev pub reply_length : Options → ℕ → ℕ
reply_length o n = if is_wrong o n then length o.message + 1 else length o.message

-- The good commits that `main` reports, `overlap` included.
unfoldable pub reported_good : Options → ℕ
reported_good o =
    let faults = o.bad_commits + o.wrong_digest in
    let overlap = if ltb o.commits faults then faults - o.commits else 0 in
    o.commits + overlap - faults

-- What every commit is built from.
pub record Query : Type 0 where
  pub options : Options
  pub keys : List Key
  pub order : List ℕ
  pub query_id : ℕ
  pub reply_digest : List ℕ
  pub wrong_reply_digest : List ℕ

-- The body of the loop over the commits: the transaction, and the buffer `reply` behind it.
unfoldable pub build_commit : Crypto → Sign → Query → ℕ → List ℕ → Result Refusal (List ℕ × List ℕ)
build_commit c sign q n reply =
    let o = q.options in
    let idx = get_or q.order n 0 in
    let wrong = is_wrong o n in
    let wl = reply_length o n in
    let reply' = write_index reply wl idx in
    let kp = c.k12 (take (wl + 2) reply') in
    let digest = if wrong then q.wrong_reply_digest else q.reply_digest in
    let item =
      put_u64 ((q.query_id + (if o.replay then 1 else 0)) % 2 ^ 64)
      ++ (take 32 digest ++ take 32 kp) in
    let key = get_or q.keys idx no_key in
    let tx = build_tx c (sign key.sub key.pub_key) key.pub_key 0 (o.commit_tick % 2 ^ 32) 6 item in
    if is_bad o n
    then ok (flip_byte tx (commit_len - 64 + 7), reply')
    else unless (verify_tx c tx commit_len == 0) commit_signature (ok (tx, reply'))

unfoldable pub build_commits :
    Crypto → Sign → Query → ℕ → ℕ → List ℕ → Result Refusal (List (List ℕ))
build_commits c sign q zero n reply = ok []
build_commits c sign q (suc k) n reply = do
  (tx, reply') ← build_commit c sign q n reply
  txs ← build_commits c sign q k (n + 1) reply'
  ok (tx ∷ txs)

-- `(uint64_t)queryTick << 31`
unfoldable pub query_id_of : Options → ℕ
query_id_of o = o.query_tick <<< 31

unfoldable pub query_input : Options → List ℕ
query_input o = put_u32 (o.interface % 2 ^ 32) ++ (put_u32 (o.timeout_ms % 2 ^ 32) ++ o.message)

unfoldable pub put_blobs : List (List ℕ) → List ℕ
put_blobs [] = []
put_blobs (p ∷ ps) = put_blob p ++ put_blobs ps

-- The static buffer `reply` of 1011 bytes with the message and the 'x' behind it.
unfoldable pub reply_buffer : List ℕ → List ℕ
reply_buffer message = message ++ (b'x' ∷ replicate (1010 - length message) 0)

unfoldable pub query_of : Crypto → List Key → Options → Query
query_of c keys o = record {
  options = o;
  keys = keys;
  order = commit_order o.shuffle;
  query_id = query_id_of o;
  reply_digest = c.k12 o.message;
  wrong_reply_digest = c.k12 (o.message ++ (b'x' ∷ []));
}

unfoldable pub build_query : Crypto → Sign → Key → Options → List ℕ
build_query c sign user o =
    build_tx c (sign user.sub user.pub_key) user.pub_key 1000 (o.query_tick % 2 ^ 32) 10
      (query_input o)

unfoldable pub build_reveal : Crypto → Sign → List Key → Options → List ℕ
build_reveal c sign keys o =
    let key = get_or keys o.reveal_by no_key in
    build_tx c (sign key.sub key.pub_key) key.pub_key 0 (o.reveal_tick % 2 ^ 32) 7
      (put_u64 (query_id_of o) ++ o.message)

-- The file's contents.
unfoldable pub gen_fixture :
    Crypto → Sign → List Key → Key → Key → Options → Result Refusal (List ℕ)
gen_fixture c sign keys arb user o = do
  _ ← check_options o
  _ ← unless (not (length keys == num_computors)) few_seeds (ok (tt {0}))
  let packet = build_packet c sign arb keys o.epoch
  _ ←
      unless
        (c.verify arb.pub_key (drop (packet_size - 64) packet)
            (c.k12 (take (packet_size - 64) packet))
          == 0)
        packet_signature (ok (tt {0}))
  let query = build_query c sign user o
  _ ← unless (verify_tx c query (length query) == 0) query_signature (ok (tt {0}))
  txs ← build_commits c sign (query_of c keys o) o.commits 0 (reply_buffer o.message)
  let reveal = build_reveal c sign keys o
  _ ← unless (verify_tx c reveal (length reveal) == 0) reveal_signature (ok (tt {0}))
  ok (
      magic
      ++ (packet
          ++ (put_u64 (query_id_of o)
              ++ (put_blob query
                  ++ (put_blob o.message
                      ++ (put_u32 o.commits ++ (put_blobs txs ++ put_blob reveal)))))))
