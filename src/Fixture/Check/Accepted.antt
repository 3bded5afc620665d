-- ===== src/Fixture/Check/Accepted.antt =====
-- What holds of a fixture that `check_fixture` accepts.
use zkproof_demo.Base.{
  ℕ, zero, ◌%◌, ◌^◌, ◌≤◌, ◌<◌, ◌≡◌, refl, sym, ap, ap₂, ◌∙◌, false, not, ◌||◌, ◌==◌, ltb, List, [],
  ◌∷◌, ◌++◌, length, length-replicate, drop, replicate, arith, not-eq-false, ==→eq, ==→ne,
}
use mathlib.Core.Path.{subst}
use mathlib.Core.List.{Nodup, Mem}
use zkproof_demo.Base.Bytes.{bytes_equal, bytes_equal→eq}
use zkproof_demo.Word.{◌>>>◌}
use zkproof_demo.Crypto.{Crypto}
use zkproof_demo.Transaction.{get_u32, get_u64, tx_ok}
use zkproof_demo.Transaction.Signed.{IsSigned, tx_ok-IsSigned}
use zkproof_demo.Fixture.{num_computors, packet_size, quorum, magic}
use zkproof_demo.Fixture.Result.{ok, unless, >>=-elim, unless-eq-ok, unless-elim}
use zkproof_demo.Fixture.Check.{
  take_input, blob, no_magic, no_packet, no_query_id, no_query_tx, no_reply, bad_magic, query_tx,
  query_tick, reply_length, no_n, no_reveal_tx, some_commits_invalid, quorum_not_reached, Claim,
  commit_loop, Report, check_reveal, check_counts, check_commits, check_packet, check_fixture,
}
use zkproof_demo.Fixture.Check.Reads.{IsTaken, IsBlob, take_input-IsTaken, blob-IsBlob}
use zkproof_demo.Fixture.Check.Votes.{
  Commits, Voted, commit_loop-Voted, Tally-Fresh, Tally-Commits, votes-member, Nodup-Fresh,
}
use zkproof_demo.Fixture.Check.Parts.{
  IsPacket, IsReveal, check_packet-IsPacket, check_reveal-IsReveal,
}

-- The part from the number of commits on: as many votes as commits, of as many computors, which are
-- a quorum; a reveal of the reply; and no byte behind it.
pub record IsAgreed (c : Crypto) (f : Claim) (bytes : List ℕ) (r : Report) : Type 0 where
  pub count_bytes : List ℕ
  pub commit_bytes : List ℕ
  pub reveal_bytes : List ℕ
  pub reveal : List ℕ
  pub votes : List ℕ
  pub count : IsTaken 4 bytes count_bytes commit_bytes
  pub commits : Commits c f (get_u32 count_bytes) commit_bytes votes reveal_bytes
  pub named : r.commits ≡ get_u32 count_bytes
  pub each : length votes ≡ get_u32 count_bytes
  pub distinct : Nodup votes
  pub members : (i : ℕ) → Mem i votes → i < num_computors
  pub reached : quorum ≤ length votes
  pub reveal_blob : IsBlob reveal_bytes reveal []
  pub revealed : IsReveal c f reveal

empty : (xs : List ℕ) → length xs ≡ 0 → xs ≡ []
empty [] h = refl
empty (x ∷ xs) h = absurd (omega arith)

agreed :
    {c : Crypto} {f : Claim} {bytes count_bytes commit_bytes reveal_bytes reveal rest : List ℕ}
    {total : ℕ} {r : Report}
    → IsTaken 4 bytes count_bytes commit_bytes
    → Voted c f
        (get_u32 count_bytes)
        (record { seen = replicate num_computors 0; counted = 0 })
        commit_bytes
        total
        reveal_bytes
    → IsBlob reveal_bytes reveal rest
    → IsReveal c f reveal
    → length rest ≡ 0
    → total ≡ get_u32 count_bytes
    → quorum ≤ total
    → r.commits ≡ get_u32 count_bytes
    → IsAgreed c f bytes r
agreed {count_bytes} {commit_bytes} {reveal_bytes} {reveal} {rest} count (votes, sum, tally) last
      revealed nothing full reached named =
    let commits = Tally-Commits tally in
    let members = votes-member commits in
    record {
      count_bytes = count_bytes;
      commit_bytes = commit_bytes;
      reveal_bytes = reveal_bytes;
      reveal = reveal;
      votes = votes;
      count = count;
      commits = commits;
      named = named;
      each = omega arith;
      distinct =
          Nodup-Fresh (replicate num_computors 0) votes (Tally-Fresh tally)
            (λ i m. omega (arith, members i m, length-replicate num_computors (zero)));
      members = members;
      reached = omega arith;
      reveal_blob = subst (IsBlob reveal_bytes reveal) (empty rest nothing) last;
      revealed = revealed;
    }

check_counts-Report :
    (r : Report) {r' : Report}
    → check_counts r ≡ ok r'
    → (r.valid ≡ r.commits) × (quorum ≤ r.valid) × (r ≡ r')
unfolding check_counts
check_counts-Report r h =
    let (full, h1) = unless-eq-ok (not (r.valid == r.commits)) some_commits_invalid _ h in
    let (reached, h2) = unless-eq-ok (ltb r.valid quorum) quorum_not_reached (ok r) h1 in
    (==→eq _ _ (not-eq-false _ full), ground arith, cc)

pub check_commits-IsAgreed :
    (c : Crypto) (f : Claim) (bytes : List ℕ) {r : Report}
    → check_commits c f bytes ≡ ok r
    → IsAgreed c f bytes r
unfolding check_commits
check_commits-IsAgreed c f bytes {r} h =
    >>=-elim (take_input 4 no_n bytes) _ h λ (count_bytes, commit_bytes) e1 h1.
      >>=-elim (commit_loop c f (get_u32 count_bytes) _ commit_bytes) _ h1
        λ (s, reveal_bytes) e2 h2.
          >>=-elim (blob no_reveal_tx reveal_bytes) _ h2 λ (tx, rest) e3 h3.
            >>=-elim (check_reveal c f (length tx) tx) _ h3 λ u e4 h4.
              unless-elim _ _ _ h4 λ nothing h5.
                let (full, reached, same) = check_counts-Report _ h5 in
                agreed (take_input-IsTaken 4 no_n bytes e1)
                  (commit_loop-Voted c f _ _ commit_bytes s reveal_bytes e2)
                  (blob-IsBlob no_reveal_tx reveal_bytes e3) (check_reveal-IsReveal c f tx e4)
                  (==→eq _ _ (not-eq-false _ nothing)) full reached
                  (ap (λ (t : Report). t.commits) (sym same))

in_range : (n : ℕ) → (ltb n 1 || ltb 1008 n) ≡ false → (1 ≤ n) × (n ≤ 1008)
in_range n h = ground arith

-- The whole fixture: a magic, a signed packet of pairwise distinct computors, a signed query of the
-- tick that the query's number holds, a reply of the allowed length, and the part that `IsAgreed`
-- describes, with nothing before, between or behind them.
pub record IsAccepted (c : Crypto) (arb bytes : List ℕ) (r : Report) : Type 0 where
  pub claim : Claim
  pub id_bytes : List ℕ
  pub query : List ℕ
  pub from_id : List ℕ
  pub from_query : List ℕ
  pub from_reply : List ℕ
  pub from_count : List ℕ
  pub start : bytes ≡ magic ++ (claim.packet ++ from_id)
  pub packet_length : length claim.packet ≡ packet_size
  pub packet : IsPacket c arb claim.packet
  pub id : IsTaken 8 from_id id_bytes from_query
  pub query_number : claim.query_id ≡ get_u64 id_bytes
  pub query_blob : IsBlob from_query query from_reply
  pub asked : IsSigned c query (length query) 10 0 false
  pub asked_at : claim.query_tick ≡ get_u32 (drop 72 query)
  pub tick : claim.query_tick ≡ (claim.query_id >>> 31) % 2 ^ 32
  pub reply_blob : IsBlob from_reply claim.reply from_count
  pub reply_length : (1 ≤ length claim.reply) × (length claim.reply ≤ 1008)
  pub agreed : IsAgreed c claim from_count r

-- A fixture that `check_fixture` accepts is laid out as the format says, its packet is signed by the
-- arbitrator and holds pairwise distinct keys, and at least 451 pairwise distinct computors of the
-- packet have each signed one of its commits, which stands after the query's tick and holds an item
-- with the query's number, the digest of the reply and the computor's knowledge proof.
pub check_fixture-IsAccepted :
    (c : Crypto) (arb bytes : List ℕ) {r : Report}
    → check_fixture c arb bytes ≡ ok r
    → IsAccepted c arb bytes r
unfolding check_fixture
check_fixture-IsAccepted c arb bytes {r} h =
    >>=-elim (take_input 8 no_magic bytes) _ h λ (m, from_packet) e1 h1.
      >>=-elim (unless (not (bytes_equal m magic)) bad_magic (ok (tt {0}))) _ h1 λ u1 e2 h2.
        >>=-elim (take_input packet_size no_packet from_packet) _ h2 λ (packet, from_id) e3 h3.
          >>=-elim (check_packet c arb packet) _ h3 λ u2 e4 h4.
            >>=-elim (take_input 8 no_query_id from_id) _ h4 λ (id, from_query) e5 h5.
              >>=-elim (blob no_query_tx from_query) _ h5 λ (query, from_reply) e6 h6.
                >>=-elim
                  (unless (tx_ok c query (length query) 10 0 false == 0) query_tx (ok (tt {0}))) _
                  h6
                  λ u3 e7 h7.
                    >>=-elim
                      (unless (not (get_u32 (drop 72 query) == (get_u64 id >>> 31) % 2 ^ 32))
                        query_tick (ok (tt {0})))
                      _ h7
                      λ u4 e8 h8.
                        >>=-elim (blob no_reply from_reply) _ h8 λ (reply, from_count) e9 h9.
                          >>=-elim
                            (unless (ltb (length reply) 1 || ltb 1008 (length reply)) reply_length
                              (ok (tt {0})))
                            _ h9
                            λ u5 e10 h10.
                              let first = take_input-IsTaken 8 no_magic bytes e1 in
                              let second =
                                take_input-IsTaken packet_size no_packet from_packet e3 in
                              let same =
                                bytes_equal→eq m magic (not-eq-false _ (unless-eq-ok _ _ _ e2).0) in
                              record {
                                claim = record {
                                  packet = packet;
                                  query_id = get_u64 id;
                                  query_tick = get_u32 (drop 72 query);
                                  reply = reply;
                                };
                                id_bytes = id;
                                query = query;
                                from_id = from_id;
                                from_query = from_query;
                                from_reply = from_reply;
                                from_count = from_count;
                                start = first.parts ∙ ap₂ (λ a b. a ++ b) same second.parts;
                                packet_length = second.size;
                                packet = check_packet-IsPacket c arb packet e4;
                                id = take_input-IsTaken 8 no_query_id from_id e5;
                                query_number = refl;
                                query_blob = blob-IsBlob no_query_tx from_query e6;
                                asked =
                                    tx_ok-IsSigned c query (length query) 10 0 false
                                      (==→ne _ 0 (unless-eq-ok _ _ _ e7).0);
                                asked_at = refl;
                                tick = ==→eq _ _ (not-eq-false _ (unless-eq-ok _ _ _ e8).0);
                                reply_blob = blob-IsBlob no_reply from_reply e9;
                                reply_length =
                                    in_range (length reply)
                                      (unless-eq-ok
                                        (ltb (length reply) 1 || ltb 1008 (length reply)) _ _
                                        e10).0;
                                agreed = check_commits-IsAgreed c _ from_count h10;
                              }
