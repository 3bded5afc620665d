-- ===== src/Fixture/Counted.antt =====
-- A commit that the generator builds is counted by the checker.
use zkproof_demo.Base.{
  ℕ, ◌+◌, ◌%◌, ◌^◌, ◌<◌, ◌≡◌, ◌≢◌, refl, sym, ap, ◌∙◌, Bool, true, false, ◌==◌, lt→leb, List, ◌++◌,
  length, length-append, take, drop, get_or, set, eq→==, ne→==, arith,
}
use mathlib.Core.List.{append_assoc}
use zkproof_demo.Base.Bytes.{bytes_equal_self}
use zkproof_demo.Crypto.{Crypto}
use zkproof_demo.Transaction.{put_u64, put_bytes, get_u16, get_u64, unsigned_tx, build_tx, tx_ok}
use zkproof_demo.Transaction.Numbers.{get_u64-put_u64}
use zkproof_demo.Transaction.Accept.{tx_ok-build_tx}
use zkproof_demo.Transaction.Fields.{
  take_append, take-build_tx, tick-build_tx, size-build_tx, input-build_tx, split_tx, same_answer,
}
use zkproof_demo.Fixture.{num_computors, computor_key}
use zkproof_demo.Fixture.Check.{Claim, knowledge, is_item, hit_loop, has_item, Count, count_commit}
use zkproof_demo.Fixture.Check.Parts.{KeysDiffer}
use zkproof_demo.Fixture.Keys.{computor_index-computor_key}
use zkproof_demo.Fixture.Format.{drop_append}
use zkproof_demo.Fixture.Generate.{Key, Sign, verify_tx}

-- What the tools rely on: a digest has 32 bytes,
abbrev pub DigestLength : Crypto → Type 0
DigestLength c = (m : List ℕ) → length (c.k12 m) ≡ 32

-- and `qubic_sign` with a key makes signatures of 64 bytes that verify for it.
pub record Signs (c : Crypto) (sign : Sign) (k : Key) : Type 0 where
  pub key_length : length k.pub_key ≡ 32
  pub length_64 : (d : List ℕ) → length (sign k.sub k.pub_key d) ≡ 64
  pub verifies : (d : List ℕ) → length d ≡ 32 → c.verify k.pub_key (sign k.sub k.pub_key d) d ≢ 0

-- A transaction that is built and signed with the key.
abbrev pub sign_tx : Crypto → Sign → Key → ℕ → ℕ → ℕ → List ℕ → List ℕ
sign_tx c sign k amount tick input_type input =
    build_tx c (sign k.sub k.pub_key) k.pub_key amount tick input_type input

module _ (c : Crypto) (digests : DigestLength c) (sign : Sign) (k : Key)
    (signs : Signs c sign k) where
  pub tx_ok-sign_tx :
      (amount tick input_type : ℕ) (input : List ℕ) (check_amount : Bool)
      → amount < 2 ^ 64
      → input_type < 2 ^ 16
      → length input < 2 ^ 16
      → (tx_ok c
            (sign_tx c sign k amount tick input_type input)
            (length (sign_tx c sign k amount tick input_type input))
            input_type
            amount
            check_amount
          == 0)
        ≡ false
  tx_ok-sign_tx amount tick input_type input check_amount ha ht hi =
      let u = unsigned_tx k.pub_key amount tick input_type input in
      let answer =
        tx_ok-build_tx c (sign k.sub k.pub_key) k.pub_key amount tick input_type input check_amount
          signs.key_length ha ht hi (signs.length_64 (c.k12 u)) in
      ne→== _ 0 (λ e. signs.verifies (c.k12 u) (digests u) (sym answer ∙ e))

  pub verify_tx-sign_tx :
      (amount tick input_type : ℕ) (input : List ℕ) (n : ℕ)
      → length (sign_tx c sign k amount tick input_type input) ≡ n
      → (verify_tx c (sign_tx c sign k amount tick input_type input) n == 0) ≡ false
  unfolding verify_tx build_tx
  verify_tx-sign_tx amount tick input_type input n size =
      let u = unsigned_tx k.pub_key amount tick input_type input in
      let ends = split_tx u (sign k.sub k.pub_key (c.k12 u)) (signs.length_64 (c.k12 u)) in
      let key =
        take-build_tx c (sign k.sub k.pub_key) k.pub_key amount tick input_type input
          signs.key_length in
      ne→== _ 0 (λ e.
        signs.verifies (c.k12 u) (digests u) (sym (same_answer c key ends.1 ends.0) ∙ (rw size e)))

-- The item that a commit of `idx` to the claim holds.
abbrev pub item_of : Crypto → Claim → ℕ → List ℕ
item_of c f idx = put_u64 f.query_id ++ (c.k12 f.reply ++ knowledge c f.reply idx)

module _ (c : Crypto) (digests : DigestLength c) (f : Claim) (idx : ℕ) where
  pub length-item_of : length (item_of c f idx) ≡ 72
  unfolding put_u64 put_bytes knowledge
  length-item_of = omega (
    arith,
    length-append (c.k12 f.reply) (knowledge c f.reply idx),
    digests f.reply,
    digests (f.reply ++ _),
  )

  item-matches :
      (tx rest : List ℕ)
      → f.query_id < 2 ^ 64
      → drop 80 tx ≡ item_of c f idx ++ rest
      → is_item c f tx idx 0 ≡ true
  unfolding is_item put_u64 put_bytes knowledge
  item-matches tx rest small at =
      let e8 = ap (drop 8) at in
      let e40 = ap (drop 40) at in
      let regroup = append_assoc (c.k12 f.reply) (knowledge c f.reply idx) rest in
      let digest : take 32 (drop 8 (drop 80 tx)) ≡ c.k12 f.reply =
        ap (take 32) (e8 ∙ regroup) ∙ take_append (c.k12 f.reply) _ 32 (digests f.reply) in
      let proof : take 32 (drop 40 (drop 80 tx)) ≡ knowledge c f.reply idx =
        ap (take 32)
          (e40 ∙ ap (drop 32) regroup ∙ drop_append (c.k12 f.reply) _ 32 (digests f.reply))
        ∙ take_append (knowledge c f.reply idx) rest 32 (digests _) in
      let query : get_u64 (drop 80 tx) ≡ f.query_id =
        ap get_u64 at ∙ get_u64-put_u64 f.query_id _ small in
      rw
        (
          eq→== _ _ query,
          digest,
          proof,
          bytes_equal_self (c.k12 f.reply),
          bytes_equal_self (knowledge c f.reply idx),
        )
        refl

  one_item :
      (tx : List ℕ)
      → get_u16 (drop 78 tx) ≡ 72
      → is_item c f tx idx 0 ≡ true
      → has_item c f tx idx ≡ true
  unfolding has_item hit_loop
  one_item tx size hit = rw size (rw hit refl)

module _ (c : Crypto) (digests : DigestLength c) (sign : Sign) (k : Key) (signs : Signs c sign k)
    (f : Claim) (idx : ℕ) where
  -- A signed commit of a computor that is not seen yet, later than the query, is counted.
  pub count_commit-sign_tx :
      (tick : ℕ) (s : Count)
      → f.query_id < 2 ^ 64
      → f.query_tick < tick % 2 ^ 32
      → idx < num_computors
      → KeysDiffer f.packet
      → computor_key f.packet idx ≡ k.pub_key
      → get_or s.seen idx 0 ≡ 0
      → count_commit c f (sign_tx c sign k 0 tick 6 (item_of c f idx)) s
        ≡ record { seen = set s.seen idx 1; counted = s.counted + 1 }
  unfolding count_commit
  count_commit-sign_tx tick s small later inside differ key unseen =
      let tx = sign_tx c sign k 0 tick 6 (item_of c f idx) in
      let size = length-item_of c digests f idx in
      let signed =
        tx_ok-sign_tx c digests sign k signs 0 tick 6 (item_of c f idx) true (omega arith)
          (omega arith) (omega arith) in
      let at =
        tick-build_tx c (sign k.sub k.pub_key) k.pub_key 0 tick 6 (item_of c f idx)
          signs.key_length in
      let mine = computor_index-computor_key f.packet differ tx idx inside (
        take-build_tx c (sign k.sub k.pub_key) k.pub_key 0 tick 6 (item_of c f idx) signs.key_length
        ∙ sym key) in
      let held =
        one_item c digests f idx tx
          (size-build_tx c (sign k.sub k.pub_key) k.pub_key 0 tick 6 (item_of c f idx)
              signs.key_length (omega arith)
            ∙ size)
          (item-matches c digests f idx tx _ small (
            input-build_tx c (sign k.sub k.pub_key) k.pub_key 0 tick 6 (item_of c f idx)
              signs.key_length)) in
      rw
        (
          signed,
          at,
          lt→leb (tick % 2 ^ 32) f.query_tick later,
          mine,
          eq→== _ 0 unseen,
          held,
          count_commit,
        )
        refl
