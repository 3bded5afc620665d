-- ===== src/Fixture/Packet.antt =====
-- The packet that the generator builds passes the tests of the checker.
use zkproof_demo.Base.{
  ℕ, suc, ◌-◌, ◌%◌, ◌^◌, ◌≤◌, ◌<◌, ◌≡◌, ◌≢◌, refl, sym, ◌∙◌, false, ◌==◌, List, [], ◌∷◌, length,
  length-append, take, drop, get_or, ne→==, arith,
}
use zkproof_demo.Crypto.{Crypto}
use zkproof_demo.Transaction.{put_u16, get_u16}
use zkproof_demo.Transaction.Numbers.{get_u16-put_u16}
use zkproof_demo.Transaction.Fields.{take_append, same_answer}
use zkproof_demo.Fixture.{num_computors, packet_size, computor_key}
use zkproof_demo.Fixture.Result.{ok}
use zkproof_demo.Fixture.Check.{check_packet}
use zkproof_demo.Fixture.Check.Parts.{KeysDiffer}
use zkproof_demo.Fixture.Keys.{KeysDiffer-some_repeats}
use zkproof_demo.Fixture.Format.{drop_append, Sized, length-put_keys, computor_key-packet_body}
use zkproof_demo.Fixture.Counted.{DigestLength, Signs}
use zkproof_demo.Fixture.Generate.{Key, no_key, Sign, packet_body, build_packet}

-- The keys of computors that can sign, which are pairwise distinct.
pub record AreComputors (c : Crypto) (sign : Sign) (keys : List Key) : Type 0 where
  pub all : length keys ≡ num_computors
  pub signs : (i : ℕ) → i < num_computors → Signs c sign (get_or keys i no_key)
  pub apart :
      (i j : ℕ)
      → i < j
      → j < num_computors
      → (get_or keys i no_key).pub_key ≢ (get_or keys j no_key).pub_key

Sized-of :
    (keys : List Key)
    → ((i : ℕ) → i < length keys → length (get_or keys i no_key).pub_key ≡ 32)
    → Sized keys
Sized-of [] h = tt
Sized-of (k ∷ keys) h = (h 0 (omega arith), Sized-of keys (λ i below. h (suc i) (omega arith)))

module _ (c : Crypto) (digests : DigestLength c) (sign : Sign) (arb : Key)
    (arbitrator : Signs c sign arb) (keys : List Key) (computors : AreComputors c sign keys)
    (epoch : ℕ) where
  sized : Sized keys
  sized = Sized-of keys (λ i below. (computors.signs i (omega (arith, computors.all))).key_length)

  abbrev packet : List ℕ
  packet = build_packet c sign arb keys epoch

  length-body : length (packet_body keys epoch) ≡ 21634
  unfolding packet_body put_u16
  length-body = omega (arith, length-put_keys keys sized, computors.all)

  pub length-packet : length packet ≡ packet_size
  unfolding build_packet
  length-packet = omega (
    arith,
    length-append (packet_body keys epoch)
        (sign arb.sub arb.pub_key (c.k12 (packet_body keys epoch))),
    length-body,
    arbitrator.length_64 (c.k12 (packet_body keys epoch)),
  )

  pub computor_key-packet :
      (i : ℕ) → i < num_computors → computor_key packet i ≡ (get_or keys i no_key).pub_key
  unfolding build_packet
  computor_key-packet i below =
      computor_key-packet_body keys epoch i _ sized (omega (arith, computors.all))

  pub KeysDiffer-packet : KeysDiffer packet
  KeysDiffer-packet i j below inside same =
      computors.apart i j below inside
        (sym (computor_key-packet i (omega arith)) ∙ same ∙ computor_key-packet j inside)

  pub packet-signed :
      (c.verify arb.pub_key
          (drop (packet_size - 64) packet)
          (c.k12 (take (packet_size - 64) packet))
        == 0)
      ≡ false
  unfolding build_packet
  packet-signed =
      let b = packet_body keys epoch in
      ne→== _ 0 (λ e. arbitrator.verifies (c.k12 b) (digests b) (
        sym (
          same_answer c refl (drop_append b _ 21634 length-body)
            (take_append b _ 21634 length-body))
        ∙ e))

  pub epoch-packet : epoch < 2 ^ 16 → get_u16 packet ≡ epoch
  unfolding build_packet packet_body put_u16 get_u16
  epoch-packet small = get_u16-put_u16 (epoch % 2 ^ 16) [] (omega arith) ∙ omega arith

  pub check_packet-build_packet :
      1 ≤ epoch → epoch < 2 ^ 16 → check_packet c arb.pub_key packet ≡ ok tt
  unfolding check_packet
  check_packet-build_packet low small =
      rw
        (
          packet-signed,
          ne→== (get_u16 packet) 0 (λ e. omega (arith, epoch-packet small)),
          KeysDiffer-some_repeats packet KeysDiffer-packet num_computors 0 (omega arith),
        )
        refl
