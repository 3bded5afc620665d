-- ===== src/Fixture/Honest.antt =====
-- The query and the reveal of a fixture with honest options pass the tests of the checker.
use zkproof_demo.Base.{
  ℕ, zero, suc, ◌+◌, ◌%◌, ◌^◌, ◌≤◌, ◌≡◌, refl, sym, ap, ◌∙◌, false, true, some, ◌==◌, List, [], ◌∷◌,
  ◌++◌, length, take, drop, get_or, drop_all, eq→==, arith,
}
use mathlib.Core.List.{append_assoc}
use zkproof_demo.Base.Bytes.{bytes_equal_self}
use zkproof_demo.Crypto.{Crypto}
use zkproof_demo.Transaction.{put_u32, put_u64, put_bytes, get_u32, get_u64, tx_ok}
use zkproof_demo.Transaction.Numbers.{get_u64-put_u64}
use zkproof_demo.Transaction.Fields.{
  take_append, take-build_tx, tick-build_tx, input-build_tx, length-build_tx,
}
use zkproof_demo.Fixture.{quorum}
use zkproof_demo.Fixture.Result.{ok}
use zkproof_demo.Fixture.Check.{Claim, computor_index, check_reveal}
use zkproof_demo.Fixture.Keys.{computor_index-computor_key}
use zkproof_demo.Fixture.Counted.{DigestLength, Signs, tx_ok-sign_tx, verify_tx-sign_tx}
use zkproof_demo.Fixture.Packet.{AreComputors, computor_key-packet, KeysDiffer-packet}
use zkproof_demo.Fixture.Written.{IsPlain}
use zkproof_demo.Fixture.Generate.{
  Key, no_key, Sign, verify_tx, Options, query_of, query_id_of, query_input, build_packet,
  build_query, build_reveal,
}
use zkproof_demo.Fixture.Generate.Usable.{IsUsable}

-- Options that make a good fixture with a quorum.
pub record IsHonest (o : Options) : Type 0 where
  pub usable : IsUsable o
  pub no_bad : o.bad_commits ≡ 0
  pub no_wrong : o.wrong_digest ≡ 0
  pub no_replay : o.replay ≡ false
  pub enough : quorum ≤ o.commits

drop-drop : (m n : ℕ) (xs : List ℕ) → drop (m + n) xs ≡ drop n (drop m xs)
drop-drop zero n xs = let e : 0 + n ≡ n = omega arith in ap (λ k. drop k xs) e
drop-drop (suc m) n [] = drop_all (suc m + n) [] (omega arith) ∙ sym (drop_all n [] (omega arith))
drop-drop (suc m) n (x ∷ xs) =
    let e : suc m + n ≡ suc (m + n) = omega arith in ap (λ k. drop k (x ∷ xs)) e ∙ drop-drop m n xs

drop-drop_8 : (xs : List ℕ) → drop 88 xs ≡ drop 8 (drop 80 xs)
drop-drop_8 xs = drop-drop 80 8 xs

module _ (c : Crypto) (digests : DigestLength c) (sign : Sign) (keys : List Key) (arb user : Key)
    (computors : AreComputors c sign keys) (arbitrator : Signs c sign arb)
    (asker : Signs c sign user) (o : Options) (honest : IsHonest o) where
  -- What the checker reads of the packet, the query and the reply.
  abbrev pub claim_of : Claim
  claim_of = record {
    packet = build_packet c sign arb keys o.epoch;
    query_id = query_id_of o;
    query_tick = o.query_tick;
    reply = o.message;
  }

  pub plain : IsPlain c (query_of c keys o) claim_of
  unfolding query_of query_id_of
  plain = record {
    no_bad = honest.no_bad;
    no_wrong = honest.no_wrong;
    no_replay = honest.no_replay;
    same_query = refl;
    small_query = omega arith;
    same_reply = refl;
    same_digest = refl;
    later = omega (arith, honest.usable.later, honest.usable.commit_tick);
  }

  abbrev pub query : List ℕ
  query = build_query c sign user o

  pub length-query_input : length (query_input o) ≡ 8 + length o.message
  unfolding query_input put_u32 put_bytes
  length-query_input = omega arith

  pub query-signed : (tx_ok c query (length query) 10 0 false == 0) ≡ false
  unfolding build_query tx_ok
  query-signed =
      tx_ok-sign_tx c digests sign user asker 1000 (o.query_tick % 2 ^ 32) 10 (query_input o) false
        (omega arith) (omega arith) (omega (arith, length-query_input, honest.usable.message))

  pub length-query : length query ≡ 152 + length o.message
  unfolding build_query
  length-query =
      length-build_tx c (sign user.sub user.pub_key) user.pub_key 1000 (o.query_tick % 2 ^ 32) 10
        (query_input o) asker.key_length (asker.length_64 _)
      ∙ omega (arith, length-query_input)

  pub query-tick : get_u32 (drop 72 query) ≡ o.query_tick
  unfolding build_query
  query-tick =
      tick-build_tx c (sign user.sub user.pub_key) user.pub_key 1000 (o.query_tick % 2 ^ 32) 10
        (query_input o) asker.key_length
      ∙ omega (arith, honest.usable.query_tick)

  abbrev revealer : Key
  revealer = get_or keys o.reveal_by no_key

  revealer-Signs : Signs c sign revealer
  revealer-Signs = computors.signs o.reveal_by honest.usable.reveal_by

  abbrev reveal_input : List ℕ
  reveal_input = put_u64 (query_id_of o) ++ o.message

  length-reveal_input : length reveal_input ≡ 8 + length o.message
  unfolding put_u64 put_bytes
  length-reveal_input = omega arith

  abbrev pub reveal : List ℕ
  reveal = build_reveal c sign keys o

  pub length-reveal : length reveal ≡ 152 + length o.message
  unfolding build_reveal
  length-reveal =
      length-build_tx c (sign revealer.sub revealer.pub_key) revealer.pub_key 0
        (o.reveal_tick % 2 ^ 32) 7 reveal_input revealer-Signs.key_length
        (revealer-Signs.length_64 _)
      ∙ omega (arith, length-reveal_input)

  reveal-signed : (tx_ok c reveal (length reveal) 7 0 true == 0) ≡ false
  unfolding build_reveal
  reveal-signed =
      tx_ok-sign_tx c digests sign revealer revealer-Signs 0 (o.reveal_tick % 2 ^ 32) 7 reveal_input
        true (omega arith) (omega arith) (omega (arith, length-reveal_input, honest.usable.message))

  reveal-member : computor_index (build_packet c sign arb keys o.epoch) reveal ≡ some o.reveal_by
  unfolding build_reveal
  reveal-member =
      computor_index-computor_key (build_packet c sign arb keys o.epoch)
        (KeysDiffer-packet c digests sign arb arbitrator keys computors o.epoch) reveal o.reveal_by
        honest.usable.reveal_by
        (take-build_tx c (sign revealer.sub revealer.pub_key) revealer.pub_key 0
            (o.reveal_tick % 2 ^ 32) 7 reveal_input revealer-Signs.key_length
          ∙ sym (
              computor_key-packet c digests sign arb arbitrator keys computors o.epoch o.reveal_by
                honest.usable.reveal_by))

  reveal-input : (s : List ℕ) × (drop 80 reveal ≡ reveal_input ++ s)
  unfolding build_reveal
  reveal-input = (
    _,
    input-build_tx c (sign revealer.sub revealer.pub_key) revealer.pub_key 0
        (o.reveal_tick % 2 ^ 32) 7 reveal_input revealer-Signs.key_length,
  )

  reveal-query : get_u64 (drop 80 reveal) ≡ query_id_of o
  unfolding query_id_of
  reveal-query =
      let (s, at) = reveal-input in
      ap get_u64 (at ∙ append_assoc (put_u64 (query_id_of o)) o.message s)
      ∙ get_u64-put_u64 (query_id_of o) (o.message ++ s) (omega arith)

  reveal-reply : take (length o.message) (drop 88 reveal) ≡ o.message
  unfolding put_u64 put_bytes
  reveal-reply =
      let (s, at) = reveal-input in
      ap (take (length o.message)) (drop-drop_8 reveal ∙ ap (drop 8) at)
      ∙ take_append o.message s _ refl

  pub reveal-accepted : check_reveal c claim_of (length reveal) reveal ≡ ok tt
  unfolding check_reveal
  reveal-accepted =
      rw
        (
          reveal-signed,
          reveal-member,
          eq→== (length reveal) (88 + length o.message + 64) (omega (arith, length-reveal)),
          eq→== _ _ reveal-query,
          reveal-reply,
          bytes_equal_self o.message,
        )
        refl

  pub query-verified : (verify_tx c query (length query) == 0) ≡ false
  unfolding build_query
  query-verified =
      verify_tx-sign_tx c digests sign user asker 1000 (o.query_tick % 2 ^ 32) 10 (query_input o) _
        refl

  pub reveal-verified : (verify_tx c reveal (length reveal) == 0) ≡ false
  unfolding build_reveal
  reveal-verified =
      verify_tx-sign_tx c digests sign revealer revealer-Signs 0 (o.reveal_tick % 2 ^ 32) 7
        reveal_input _ refl
