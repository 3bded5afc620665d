-- ===== src/Fixture/Check/Parts.antt =====
-- What the tests of the packet and of the reveal leave.
use zkproof_demo.Base.{
  ℕ, zero, suc, ◌+◌, ◌-◌, ◌≤◌, ◌<◌, ◌≡◌, ◌≢◌, refl, sym, ap, ◌∙◌, true, false, ◌==◌, List, length,
  take, drop, arith, Bool-cases, inl, inr, Option, none, some, ||-eq-false, not-eq-false, ==→eq,
  ==→ne,
}
use zkproof_demo.Base.Bytes.{bytes_equal, bytes_equal→eq, bytes_equal_self}
use zkproof_demo.Crypto.{Crypto}
use zkproof_demo.Transaction.{get_u16, get_u64}
use zkproof_demo.Transaction.Signed.{IsSigned, tx_ok-IsSigned}
use zkproof_demo.Fixture.{num_computors, packet_size, computor_key}
use zkproof_demo.Fixture.Result.{ok, unless-eq-ok}
use zkproof_demo.Fixture.Check.{
  computor_index, repeats, some_repeats, Claim, check_reveal, check_packet,
}
use zkproof_demo.Fixture.Check.Commits.{computor_from-some}

repeats-differ :
    (packet : List ℕ) (i k j : ℕ)
    → repeats packet i k j ≡ false
    → (b : ℕ) → j ≤ b
    → b < j + k
    → computor_key packet i ≡ computor_key packet b
    → ⊥
unfolding repeats
repeats-differ packet i zero j h b low high same = absurd (omega arith)
repeats-differ packet i (suc k) j h b low high same =
    elim (Bool-cases (bytes_equal (computor_key packet i) (computor_key packet j))) [
      | inl e ↦ ground arith
      | inr e ↦ elim (Bool-cases (j == b)) [
        | inl at ↦
            let here : bytes_equal (computor_key packet i) (computor_key packet b) ≡ true =
              rw same (bytes_equal_self (computor_key packet b)) in
            let e' : bytes_equal (computor_key packet i) (computor_key packet b) ≡ false =
              ap (λ t. bytes_equal (computor_key packet i) (computor_key packet t))
                (sym (==→eq j b at))
              ∙ e in
            cc
        | inr off ↦
            repeats-differ packet i k (j + 1) (ground arith) b (ground arith) (omega arith) same
      ]
    ]

some_repeats-differ :
    (packet : List ℕ) (k i : ℕ)
    → some_repeats packet k i ≡ false
    → (a b : ℕ) → i ≤ a
    → a < b
    → b < i + k
    → computor_key packet a ≡ computor_key packet b
    → ⊥
unfolding some_repeats
some_repeats-differ packet zero i h a b low mid high same = absurd (omega arith)
some_repeats-differ packet (suc k) i h a b low mid high same =
    elim (Bool-cases (repeats packet i k (i + 1))) [
      | inl e ↦ ground arith
      | inr e ↦ elim (Bool-cases (i == a)) [
        | inl at ↦
            repeats-differ packet i k (i + 1) e b (ground arith) (omega arith)
              (ap (computor_key packet) (==→eq i a at) ∙ same)
        | inr off ↦
            some_repeats-differ packet k (i + 1) (ground arith) a b (ground arith) mid (omega arith)
              same
      ]
    ]

-- No two of the keys are equal.
abbrev pub KeysDiffer : List ℕ → Type 0
KeysDiffer packet =
    (i j : ℕ) → i < j → j < num_computors → computor_key packet i ≢ computor_key packet j

pub record IsPacket (c : Crypto) (arb packet : List ℕ) : Type 0 where
  pub signature :
      c.verify arb (drop (packet_size - 64) packet) (c.k12 (take (packet_size - 64) packet)) ≢ 0
  pub epoch : get_u16 packet ≢ 0
  pub keys : KeysDiffer packet

-- A reveal of the reply by a computor of the packet.
pub record IsReveal (c : Crypto) (f : Claim) (tx : List ℕ) : Type 0 where
  pub signed : IsSigned c tx (length tx) 7 0 true
  pub member : (i : ℕ) × (i < num_computors) × (computor_key f.packet i ≡ take 32 tx)
  pub size : length tx ≡ 88 + length f.reply + 64
  pub query : get_u64 (drop 80 tx) ≡ f.query_id
  pub reply : take (length f.reply) (drop 88 tx) ≡ f.reply

pub check_packet-IsPacket :
    (c : Crypto) (arb packet : List ℕ) → check_packet c arb packet ≡ ok tt → IsPacket c arb packet
unfolding check_packet
check_packet-IsPacket c arb packet h =
    let (signed, h1) = unless-eq-ok _ _ _ h in
    let (dated, h2) = unless-eq-ok _ _ _ h1 in
    let (distinct, h3) = unless-eq-ok _ _ _ h2 in
    record {
      signature = ==→ne _ 0 signed;
      epoch = ==→ne _ 0 dated;
      keys = λ i j below inside.
          some_repeats-differ packet num_computors 0 distinct i j (omega arith) below (omega arith);
    }

no_index-eq-false :
    (o : Option ℕ) → elim o [ none ↦ true | some i ↦ false ] ≡ false → (i : ℕ) × (o ≡ some i)
no_index-eq-false none h = cc
no_index-eq-false (some i) h = (i, refl)

pub check_reveal-IsReveal :
    (c : Crypto) (f : Claim) (tx : List ℕ)
    → check_reveal c f (length tx) tx ≡ ok tt
    → IsReveal c f tx
unfolding check_reveal computor_index
check_reveal-IsReveal c f tx h =
    let (accepted, h1) = unless-eq-ok _ _ _ h in
    let (fits, h2) = unless-eq-ok _ _ _ h1 in
    let (signed, member) = ||-eq-false _ _ accepted in
    let (i, at) = no_index-eq-false _ member in
    let found = computor_from-some f.packet (take 32 tx) num_computors 0 {r = i} at in
    let (size, inner) = ||-eq-false _ _ fits in
    let (query, reply) = ||-eq-false _ _ inner in
    record {
      signed = tx_ok-IsSigned c tx (length tx) 7 0 true (==→ne _ 0 signed);
      member = (i, omega (arith, found), found.1);
      size = ==→eq _ _ (not-eq-false _ size);
      query = ==→eq _ _ (not-eq-false _ query);
      reply = bytes_equal→eq (take (length f.reply) (drop 88 tx)) f.reply (not-eq-false _ reply);
    }
