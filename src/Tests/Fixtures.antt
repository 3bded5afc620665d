-- ===== src/Tests/Fixtures.antt =====
-- Fixtures of a toy signature scheme: a digest is the first 32 bytes of the padded message, and the
-- signature of a digest is the public key with it.
use zkproof_demo.Base.{
  ℕ, zero, suc, ◌+◌, ◌<◌, ◌≡◌, ◌≢◌, refl, sym, ap, ◌∙◌, true, false, flag, ◌↔◌, ◌-◌, ◌*◌, min,
  bit_and, ==→ne, List, [], ◌∷◌, ◌++◌, length, length-append, length-take, length-replicate, take,
  get_or, set, replicate, arith,
}
use mathlib.Core.Path.{subst}
use mathlib.Core.List.{Perm}
use zkproof_demo.Base.Bytes.{bytes_equal, bytes_equal_self}
use zkproof_demo.Crypto.{Crypto}
use zkproof_demo.Transaction.{
  put_u16, put_u32, put_u64, put_bytes, get_u16, get_u32, get_u64, tx_ok, zero32, zero_bytes,
  build_tx, unsigned_tx,
}
use zkproof_demo.Transaction.Fields.{take_append}
use zkproof_demo.Transaction.Numbers.{get_u16-put_u16}
use zkproof_demo.Fixture.{num_computors, computor_key}
use zkproof_demo.Fixture.Result.{ok, failed}
use zkproof_demo.Fixture.Check.{
  check_fixture, trailing_bytes, Claim, Count, has_item, commit_loop, blob, take_input,
  count_commit, computor_index, computor_from, hit_loop, is_item, knowledge,
}
use zkproof_demo.Fixture.Check.Items.{IsItem, has_item-iff-IsItem}
use zkproof_demo.Fixture.Check.Votes.{Voted, commit_loop-Voted}
use zkproof_demo.Fixture.Generate.Usable.{IsUsable, check_options-iff-IsUsable}
use zkproof_demo.Fixture.Generate.Faults.{
  good_among, most, good_among-reported_good, proof_of, holder, wrong_knowledge,
}
use zkproof_demo.Transaction.Signed.{IsSigned, tx_ok-IsSigned}
use zkproof_demo.Fixture.Check.Accepted.{IsAccepted, check_fixture-IsAccepted}
use zkproof_demo.Fixture.Counted.{DigestLength, Signs, sign_tx, tx_ok-sign_tx, item_of}
use zkproof_demo.Fixture.Packet.{AreComputors}
use zkproof_demo.Fixture.Honest.{IsHonest}
use zkproof_demo.Fixture.RoundTrip.{check_fixture-gen_fixture, check_fixture-trailing}
use zkproof_demo.Fixture.Generate.{
  put_blob, build_commit, query_of, verify_tx, Key, no_key, Sign, Options, gen_fixture,
  commit_order, file_order, query_id_of, check_options, reported_good, write_index,
}
use zkproof_demo.Fixture.Generate.Order.{commit_order-perm}

abbrev toy : Crypto
toy = record {
  k12 = λ m. take 32 (m ++ replicate 32 0);
  verify = λ pk s d. flag (bytes_equal s (pk ++ d));
}

abbrev toy_sign : Sign
toy_sign sub pub_key d = pub_key ++ take 32 (d ++ replicate 32 0)

toy_digests : DigestLength toy
toy_digests m = omega (
  arith,
  length-take 32 (m ++ replicate 32 0),
  length-append m (replicate {A = ℕ} 32 0),
  length-replicate {A = ℕ} 32 0,
)

abbrev toy_key : ℕ → Key
toy_key i = record { sub = []; pub_key = put_u16 i ++ replicate 30 0 }

length-toy_key : (i : ℕ) → length (toy_key i).pub_key ≡ 32
unfolding put_u16
length-toy_key i = refl

toy_key-Signs : (i : ℕ) → Signs toy toy_sign (toy_key i)
toy_key-Signs i = record {
  key_length = length-toy_key i;
  length_64 = λ d. omega (
    arith,
    length-append (toy_key i).pub_key (take 32 (d ++ replicate 32 0)),
    length-toy_key i,
    toy_digests d,
  );
  verifies = λ d h e.
      let pk = (toy_key i).pub_key in
      let same = ap (λ t. bytes_equal (pk ++ t) (pk ++ d)) (take_append d (replicate 32 0) 32 h) in
      let one = ap flag (same ∙ bytes_equal_self (pk ++ d)) in omega (arith, one, e);
}

toy_keys : ℕ → ℕ → List Key
toy_keys zero i = []
toy_keys (suc n) i = toy_key i ∷ toy_keys n (i + 1)

length-toy_keys : (n i : ℕ) → length (toy_keys n i) ≡ n
unfolding toy_keys
length-toy_keys zero i = refl
length-toy_keys (suc n) i = ap suc (length-toy_keys n (i + 1))

toy_key-at : (n i j : ℕ) → j < n → get_or (toy_keys n i) j no_key ≡ toy_key (i + j)
unfolding toy_keys
toy_key-at zero i j below = absurd (omega arith)
toy_key-at (suc n) i zero below = let e : i ≡ i + 0 = omega arith in ap toy_key e
toy_key-at (suc n) i (suc j) below =
    let e : i + 1 + j ≡ i + suc j = omega arith in
    toy_key-at n (i + 1) j (omega arith) ∙ ap toy_key e

toy_key-apart : (i j : ℕ) → i < j → j < 676 → (toy_key i).pub_key ≢ (toy_key j).pub_key
toy_key-apart i j below inside same = omega (
  arith,
  sym (get_u16-put_u16 i (replicate 30 0) (omega arith))
      ∙ ap get_u16 same
      ∙ get_u16-put_u16 j (replicate 30 0) (omega arith),
)

toy_computors : AreComputors toy toy_sign (toy_keys 676 0)
toy_computors = record {
  all = length-toy_keys 676 0;
  signs = λ i below.
      subst (Signs toy toy_sign) (sym (toy_key-at 676 0 i below)) (toy_key-Signs (0 + i));
  apart = λ i j below inside same. toy_key-apart (0 + i) (0 + j) (omega arith) (omega arith) (
      sym (ap (λ (k : Key). k.pub_key) (toy_key-at 676 0 i (omega arith)))
      ∙ same
      ∙ ap (λ (k : Key). k.pub_key) (toy_key-at 676 0 j inside));
}

abbrev good_options : Options
good_options = record {
  epoch = 170;
  commits = 500;
  bad_commits = 0;
  wrong_digest = 0;
  reveal_by = 3;
  query_tick = 1000000;
  commit_tick = 1000004;
  reveal_tick = 1000007;
  interface = 0;
  timeout_ms = 60000;
  replay = false;
  shuffle = true;
  message = 104 ∷ 105 ∷ [];
}

good_options-IsHonest : IsHonest good_options
good_options-IsHonest = record {
  usable = omega arith;
  no_bad = refl;
  no_wrong = refl;
  no_replay = refl;
  enough = omega arith;
}

commit_order-perm_example : Perm (commit_order true) (file_order num_computors 0)
commit_order-perm_example = commit_order-perm true

abbrev arbitrator : Key
arbitrator = toy_key 1000

abbrev asker : Key
asker = toy_key 2000

abbrev GoodFixture : Type 0
GoodFixture =
    (bytes : List ℕ) × (gen_fixture toy toy_sign (toy_keys 676 0) arbitrator asker good_options
      ≡ ok bytes)
    × (check_fixture toy arbitrator.pub_key bytes
        ≡ ok (record {
          epoch = 170;
          query_id = query_id_of good_options;
          commits = 500;
          valid = 500;
        }))

check_fixture-gen_fixture_example : GoodFixture
check_fixture-gen_fixture_example =
    check_fixture-gen_fixture toy toy_digests toy_sign (toy_keys 676 0) arbitrator asker
      toy_computors (toy_key-Signs 1000) (toy_key-Signs 2000) good_options good_options-IsHonest

good_fixture : GoodFixture
good_fixture =
    check_fixture-gen_fixture toy toy_digests toy_sign (toy_keys 676 0) arbitrator asker
      toy_computors (toy_key-Signs 1000) (toy_key-Signs 2000) good_options good_options-IsHonest

check_fixture-IsAccepted_example :
    IsAccepted toy arbitrator.pub_key good_fixture.0
      (record { epoch = 170; query_id = query_id_of good_options; commits = 500; valid = 500 })
check_fixture-IsAccepted_example =
    check_fixture-IsAccepted toy arbitrator.pub_key good_fixture.0 good_fixture.2

check_fixture-trailing_example :
    (bytes : List ℕ) × (gen_fixture toy toy_sign (toy_keys 676 0) arbitrator asker good_options
      ≡ ok bytes)
    × (check_fixture toy arbitrator.pub_key (bytes ++ (0 ∷ [])) ≡ failed trailing_bytes)
check_fixture-trailing_example =
    check_fixture-trailing toy toy_digests toy_sign (toy_keys 676 0) arbitrator asker toy_computors
      (toy_key-Signs 1000) (toy_key-Signs 2000) good_options good_options-IsHonest (0 ∷ [])
      (omega arith)

check_options-iff-IsUsable_example : (check_options good_options ≡ ok tt) ↔ IsUsable good_options
check_options-iff-IsUsable_example = check_options-iff-IsUsable good_options

-- Three bad commits and two wrong ones among ten: the last two have both faults.
abbrev faulty : Options
faulty = record good_options { commits = 10; bad_commits = 3; wrong_digest = 2 }

good_among-reported_good_example :
    good_among faulty 10 ≡ reported_good faulty + min (min 3 2) (10 - most faulty)
good_among-reported_good_example = good_among-reported_good faulty (omega arith) (omega arith)

reported_good-faulty : reported_good faulty ≡ 5
unfolding reported_good
reported_good-faulty = refl

good_among-faulty : good_among faulty 10 ≡ 7
unfolding good_among
good_among-faulty = refl

-- Two commits, the second with the wrong digest.
abbrev one_wrong : Options
one_wrong = record good_options { commits = 2; wrong_digest = 1; shuffle = false }

abbrev two_keys : List Key
two_keys = toy_key 0 ∷ toy_key 1 ∷ []

-- The commit of computor `i` with a digest and the knowledge proof of `m`.
abbrev commit_with : ℕ → List ℕ → List ℕ → List ℕ
commit_with i digest m =
    sign_tx toy toy_sign (toy_key i) 0 one_wrong.commit_tick 6
      (put_u64 (query_id_of one_wrong) ++ (toy.k12 digest ++ toy.k12 m))

abbrev hi : List ℕ
hi = one_wrong.message

first_commit :
    build_commit toy toy_sign (query_of toy two_keys one_wrong) 0 (hi ++ (b'x' ∷ 0 ∷ 0 ∷ []))
    ≡ ok (commit_with 0 hi (hi ++ (0 ∷ 0 ∷ [])), hi ++ (0 ∷ 0 ∷ 0 ∷ []))
unfolding build_commit query_of query_id_of commit_order file_order write_index build_tx unsigned_tx
    put_u16 put_u32 put_u64 put_bytes verify_tx bytes_equal
first_commit = refl

second_commit :
    build_commit toy toy_sign (query_of toy two_keys one_wrong) 1 (hi ++ (0 ∷ 0 ∷ 0 ∷ []))
    ≡ ok (commit_with 1 (hi ++ (b'x' ∷ [])) (hi ++ (0 ∷ 1 ∷ 0 ∷ [])), hi ++ (0 ∷ 1 ∷ 0 ∷ []))
unfolding build_commit query_of query_id_of commit_order file_order write_index build_tx unsigned_tx
    put_u16 put_u32 put_u64 put_bytes verify_tx bytes_equal
second_commit = refl

wrong_knowledge_example :
    proof_of (commit_with 1 (hi ++ (b'x' ∷ [])) (hi ++ (0 ∷ 1 ∷ 0 ∷ [])))
    ≡ toy.k12 (
        (hi ++ (bit_and (holder toy toy_digests toy_sign two_keys one_wrong 0) 0xff ∷ []))
        ++ put_u16 (holder toy toy_digests toy_sign two_keys one_wrong 1))
unfolding commit_order file_order put_u16
wrong_knowledge_example =
    wrong_knowledge toy toy_digests toy_sign two_keys one_wrong 0 b'x' 0 0 [] _ _ _ _ refl refl refl
      refl first_commit second_commit

abbrev short_tx : List ℕ
short_tx = sign_tx toy toy_sign asker 1000 5 10 (1 ∷ 2 ∷ [])

short_tx-accepted : tx_ok toy short_tx (length short_tx) 10 1000 true ≢ 0
short_tx-accepted = ==→ne _ 0 (
    tx_ok-sign_tx toy toy_digests toy_sign asker (toy_key-Signs 2000) 1000 5 10 (1 ∷ 2 ∷ []) true
      (omega arith) (omega arith) (omega arith))

tx_ok-IsSigned_example : IsSigned toy short_tx (length short_tx) 10 1000 true
tx_ok-IsSigned_example =
    tx_ok-IsSigned toy short_tx (length short_tx) 10 1000 true short_tx-accepted

abbrev small_claim : Claim
small_claim = record {
  packet = (toy_key 0).pub_key;
  query_id = 9;
  query_tick = 4;
  reply = 104 ∷ 105 ∷ [];
}

abbrev commit_tx : List ℕ
commit_tx = sign_tx toy toy_sign (toy_key 3) 0 5 6 (item_of toy small_claim 3)

has_item-iff-IsItem_example :
    (has_item toy small_claim commit_tx 3 ≡ true)
    ↔ ((k : ℕ) × IsItem toy small_claim commit_tx 3 (72 * k))
has_item-iff-IsItem_example = has_item-iff-IsItem toy small_claim commit_tx 3

abbrev unseen : Count
unseen = record { seen = replicate 676 0; counted = 0 }

-- A transaction that is too short, a commit of computor 3, the same again, and one of computor 1.
abbrev voting_claim : Claim
voting_claim = record {
  packet =
      0 ∷ 0 ∷ (toy_key 0).pub_key
      ++ (toy_key 1).pub_key
      ++ (toy_key 2).pub_key
      ++ (toy_key 3).pub_key;
  query_id = 9;
  query_tick = 4;
  reply = 104 ∷ 105 ∷ [];
}

abbrev vote_of : ℕ → List ℕ
vote_of i = put_blob (sign_tx toy toy_sign (toy_key i) 0 5 6 (item_of toy voting_claim i))

abbrev four_transactions : List ℕ
four_transactions = put_blob (7 ∷ []) ++ vote_of 3 ++ vote_of 3 ++ vote_of 1 ++ (4 ∷ [])

abbrev both_seen : Count
both_seen = record { seen = set (set (replicate 676 0) 3 1) 1 1; counted = 2 }

four_transactions-read :
    commit_loop toy voting_claim 4 unseen four_transactions ≡ ok (both_seen, 4 ∷ [])
unfolding commit_loop blob take_input count_commit tx_ok get_u16 get_u32 get_u64 zero32 zero_bytes
    computor_index computor_from computor_key has_item hit_loop is_item knowledge bytes_equal
    build_tx unsigned_tx put_u16 put_u32 put_u64 put_bytes put_blob
four_transactions-read = refl

commit_loop-Voted_example : Voted toy voting_claim 4 unseen four_transactions 2 (4 ∷ [])
commit_loop-Voted_example =
    commit_loop-Voted toy voting_claim 4 unseen four_transactions both_seen (4 ∷ [])
      four_transactions-read
