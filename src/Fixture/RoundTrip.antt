-- ===== src/Fixture/RoundTrip.antt =====
-- A fixture that the generator writes is accepted by the checker.
use zkproof_demo.Base.{
  ℕ, suc, ◌+◌, ◌-◌, ◌%◌, ◌^◌, ◌≤◌, ◌<◌, ◌≡◌, refl, sym, ap, ap₂, ◌∙◌, not, ◌==◌, List, [], ◌++◌,
  length, get_or, replicate, ne→==, eq→==, le→ltb, arith,
}
use mathlib.Core.List.{append_assoc, append-nil}
use zkproof_demo.Base.Bytes.{bytes_equal_self}
use zkproof_demo.Word.{◌>>>◌}
use zkproof_demo.Crypto.{Crypto}
use zkproof_demo.Transaction.{put_u32, put_u64, put_bytes, get_u16, get_u64}
use zkproof_demo.Transaction.Numbers.{get_u64-put_u64}
use zkproof_demo.Fixture.{num_computors, packet_size, quorum, magic}
use zkproof_demo.Fixture.Result.{Result, ok, failed, ◌>>=◌, unless}
use zkproof_demo.Fixture.Check.{
  Failure, no_magic, no_packet, no_query_id, no_query_tx, no_reply, no_n, no_reveal_tx,
  trailing_bytes, Claim, Count, Report, commit_loop, check_reveal, check_counts, check_commits,
  check_fixture,
}
use zkproof_demo.Fixture.Format.{
  length-put_u32, get_u32-put_u32_self, take_input-append, blob-put_blob,
}
use zkproof_demo.Fixture.Distinct.{mem-get_or, get_or-replicate}
use zkproof_demo.Fixture.Counted.{DigestLength, Signs}
use zkproof_demo.Fixture.Packet.{
  AreComputors, length-packet, computor_key-packet, KeysDiffer-packet, packet-signed,
  check_packet-build_packet, epoch-packet,
}
use zkproof_demo.Fixture.Honest.{
  IsHonest, claim_of, plain, length-query, query-signed, query-tick, query-verified, length-reveal,
  reveal-accepted, reveal-verified,
}
use zkproof_demo.Fixture.Written.{build_commits-Counted}
use zkproof_demo.Fixture.Generate.{
  Key, Sign, Options, query_of, query_id_of, reply_buffer, build_packet, build_query, build_reveal,
  build_commits, put_blob, put_blobs, gen_fixture, commit_order,
}
use zkproof_demo.Fixture.Generate.Usable.{check_options-iff-IsUsable}
use zkproof_demo.Fixture.Generate.Order.{Nodup-commit_order, mem-commit_order, length-commit_order}

-- Reading `p` and going on with what stands behind it.
read {ℓ} :
    {B : Type ℓ} (m : Result Failure (List ℕ × List ℕ)) (g : List ℕ × List ℕ → Result Failure B)
    {a rest : List ℕ} {b : Result Failure B}
    → m ≡ ok (a, rest)
    → g (a, rest) ≡ b
    → (m >>= g) ≡ b
read m g em eg = ap (λ m'. m' >>= g) em ∙ eg

module _ (c : Crypto) (f : Claim) (commits reveal extra : List ℕ) (n : ℕ) (s : Count)
    (small : n < 2 ^ 32) (short : length reveal < 2 ^ 32)
    (counted : commit_loop c f n
        (record { seen = replicate num_computors 0; counted = 0 })
        (commits ++ (put_blob reveal ++ extra))
      ≡ ok (s, put_blob reveal ++ extra))
    (revealed : check_reveal c f (length reveal) reveal ≡ ok tt) where
  -- What is left when all has been read.
  check_commits-reads :
      check_commits c f (put_u32 n ++ (commits ++ (put_blob reveal ++ extra)))
      ≡ unless (not (length extra == 0)) trailing_bytes (
          check_counts (record {
            epoch = get_u16 f.packet;
            query_id = f.query_id;
            commits = n;
            valid = s.counted;
          }))
  unfolding check_commits
  check_commits-reads =
      rw
        (
          take_input-append 4 no_n (put_u32 n) (commits ++ (put_blob reveal ++ extra))
              (length-put_u32 n),
          get_u32-put_u32_self n small,
          counted,
          blob-put_blob no_reveal_tx reveal extra short,
          revealed,
        )
        refl

  check_commits-trailing :
      0 < length extra
      → check_commits c f (put_u32 n ++ (commits ++ (put_blob reveal ++ extra)))
        ≡ failed trailing_bytes
  check_commits-trailing more =
      check_commits-reads ∙ rw (ne→== (length extra) 0 (λ e. omega arith)) refl

check_counts-passes : (r : Report) → r.valid ≡ r.commits → quorum ≤ r.valid → check_counts r ≡ ok r
unfolding check_counts
check_counts-passes r same reached =
    rw (eq→== r.valid r.commits same, le→ltb r.valid quorum reached) refl

module _ (c : Crypto) (digests : DigestLength c) (sign : Sign) (keys : List Key) (arb user : Key)
    (computors : AreComputors c sign keys) (arbitrator : Signs c sign arb)
    (asker : Signs c sign user) (o : Options) (honest : IsHonest o) where
  abbrev claim : Claim
  claim = claim_of c digests sign keys arb user computors arbitrator asker o honest

  abbrev query : List ℕ
  query = build_query c sign user o

  abbrev packet : List ℕ
  packet = build_packet c sign arb keys o.epoch

  small_query : query_id_of o < 2 ^ 64
  unfolding query_id_of
  small_query = omega arith

  get_u64-query_id : get_u64 (put_u64 (query_id_of o)) ≡ query_id_of o
  unfolding put_u64 put_bytes
  get_u64-query_id = get_u64-put_u64 (query_id_of o) [] small_query

  query_tick-of_id : (query_id_of o >>> 31) % 2 ^ 32 ≡ o.query_tick
  unfolding query_id_of
  query_tick-of_id = omega (arith, honest.usable.query_tick)

  length-put_query_id : length (put_u64 (query_id_of o)) ≡ 8
  unfolding put_u64 put_bytes
  length-put_query_id = refl

  check_fixture-front :
      (rest : List ℕ)
      → check_fixture c arb.pub_key (
          magic
          ++ (packet
              ++ (put_u64 (query_id_of o) ++ (put_blob query ++ (put_blob o.message ++ rest)))))
        ≡ check_commits c claim rest
  unfolding check_fixture
  check_fixture-front rest =
      let size = length-query c digests sign keys arb user computors arbitrator asker o honest in
      let fits = honest.usable.message in
      rw
        (
          take_input-append 8 no_magic magic _ refl,
          bytes_equal_self magic,
          take_input-append packet_size no_packet packet _
              (length-packet c digests sign arb arbitrator keys computors o.epoch),
          check_packet-build_packet c digests sign arb arbitrator keys computors o.epoch
              (honest.usable.epoch.0) (omega (arith, honest.usable.epoch)),
          take_input-append 8 no_query_id (put_u64 (query_id_of o)) _ length-put_query_id,
          get_u64-query_id,
          blob-put_blob no_query_tx query (put_blob o.message ++ rest) (omega (arith, size)),
          query-signed c digests sign keys arb user computors arbitrator asker o honest,
          query-tick c digests sign keys arb user computors arbitrator asker o honest,
          query_tick-of_id,
          eq→== o.query_tick o.query_tick refl,
          blob-put_blob no_reply o.message rest (omega arith),
          le→ltb (length o.message) 1 fits.0,
          le→ltb 1008 (length o.message) fits.1,
        )
        refl

  abbrev start : Count
  start = record { seen = replicate num_computors 0; counted = 0 }

  abbrev report : Report
  report = record {
    epoch = o.epoch;
    query_id = query_id_of o;
    commits = o.commits;
    valid = o.commits;
  }

  abbrev Counted : List ℕ → List ℕ → Type 0
  Counted reply rest =
      (txs : List (List ℕ)) × (s : Count) × (build_commits c sign (query_of c keys o) o.commits 0
          reply
        ≡ ok txs)
      × (commit_loop c claim o.commits start (put_blobs txs ++ rest) ≡ ok (s, rest))
      × (s.counted ≡ 0 + o.commits)

  -- The commits that are written are counted each.
  counted : (rest : List ℕ) → Counted (reply_buffer o.message) rest
  unfolding query_of reply_buffer
  counted rest =
      let room : 1010 - length o.message ≡ suc (1009 - length o.message) =
        omega (arith, honest.usable.message) in
      rw room (
        build_commits-Counted c digests sign (query_of c keys o) claim
          (plain c digests sign keys arb user computors arbitrator asker o honest) computors.signs
          (KeysDiffer-packet c digests sign arb arbitrator keys computors o.epoch)
          (computor_key-packet c digests sign arb arbitrator keys computors o.epoch)
          (Nodup-commit_order o.shuffle) (length-commit_order o.shuffle)
          (λ n below.
            mem-commit_order o.shuffle (
              mem-get_or (commit_order o.shuffle) n (omega (arith, length-commit_order o.shuffle))))
          honest.usable.commits o.commits 0 b'x' 0 (replicate (1009 - length o.message) 0) start
          rest (omega arith)
          (λ m low high. get_or-replicate num_computors (get_or (commit_order o.shuffle) m 0)))

  abbrev reveal : List ℕ
  reveal = build_reveal c sign keys o

  abbrev contents_with : List (List ℕ) → List ℕ → List ℕ
  contents_with txs last =
      magic
      ++ (packet
          ++ (put_u64 (query_id_of o)
              ++ (put_blob query
                  ++ (put_blob o.message ++ (put_u32 o.commits ++ (put_blobs txs ++ last))))))

  abbrev contents : List (List ℕ) → List ℕ
  contents txs = contents_with txs (put_blob reveal)

  contents-append :
      (txs : List (List ℕ)) (extra : List ℕ)
      → contents txs ++ extra ≡ contents_with txs (put_blob reveal ++ extra)
  contents-append txs extra = simp append_assoc

  gen_fixture-contents :
      (txs : List (List ℕ))
      → build_commits c sign (query_of c keys o) o.commits 0 (reply_buffer o.message) ≡ ok txs
      → gen_fixture c sign keys arb user o ≡ ok (contents txs)
  unfolding gen_fixture
  gen_fixture-contents txs built =
      rw
        (
          (check_options-iff-IsUsable o).1 honest.usable,
          eq→== (length keys) num_computors computors.all,
          packet-signed c digests sign arb arbitrator keys computors o.epoch,
          query-verified c digests sign keys arb user computors arbitrator asker o honest,
          built,
          reveal-verified c digests sign keys arb user computors arbitrator asker o honest,
        )
        refl

  contents-accepted :
      (txs : List (List ℕ)) (s : Count)
      → commit_loop c claim o.commits start (put_blobs txs ++ (put_blob reveal ++ []))
        ≡ ok (s, put_blob reveal ++ [])
      → s.counted ≡ o.commits
      → check_fixture c arb.pub_key (contents txs) ≡ ok report
  contents-accepted txs s read total =
      let nothing = append-nil (put_blob reveal) in
      let e =
        epoch-packet c digests sign arb arbitrator keys computors o.epoch
          (omega (arith, honest.usable.epoch)) in
      ap (λ t. check_fixture c arb.pub_key (contents_with txs t)) (sym nothing)
      ∙ check_fixture-front (put_u32 o.commits ++ (put_blobs txs ++ (put_blob reveal ++ [])))
      ∙ check_commits-reads c claim (put_blobs txs) reveal [] o.commits s
          (omega (arith, honest.usable.commits))
          (omega (
            arith,
            length-reveal c digests sign keys arb user computors arbitrator asker o honest,
            honest.usable.message,
          ))
          read (reveal-accepted c digests sign keys arb user computors arbitrator asker o honest)
      ∙ check_counts-passes _ total (omega (arith, total, honest.enough))
      ∙ ap₂
          (λ n v.
            ok (record { epoch = n; query_id = query_id_of o; commits = o.commits; valid = v }))
          e total

  -- With a signature scheme whose signatures verify and digests of 32 bytes, for 676 computors with
  -- pairwise distinct keys and usable options with at least 451 commits, none of them bad, wrong or
  -- replayed, `gen_fixture` writes a fixture, and `check_fixture` accepts it for the arbitrator's key
  -- and counts every commit, in file order or shuffled.
  pub check_fixture-gen_fixture :
      (bytes : List ℕ) × (gen_fixture c sign keys arb user o ≡ ok bytes)
      × (check_fixture c arb.pub_key bytes
          ≡ ok (record {
            epoch = o.epoch;
            query_id = query_id_of o;
            commits = o.commits;
            valid = o.commits;
          }))
  check_fixture-gen_fixture =
      let (txs, s, built, read, total) = counted (put_blob reveal ++ []) in
      (
        contents txs,
        gen_fixture-contents txs built,
        contents-accepted txs s read (omega (arith, total)),
      )

  -- With the same schemes, keys and options, the written fixture with any bytes behind it is refused
  -- for its trailing bytes.
  pub check_fixture-trailing :
      (extra : List ℕ)
      → 0 < length extra
      → (bytes : List ℕ) × (gen_fixture c sign keys arb user o ≡ ok bytes)
        × (check_fixture c arb.pub_key (bytes ++ extra) ≡ failed trailing_bytes)
  check_fixture-trailing extra more =
      let (txs, s, built, read, total) = counted (put_blob reveal ++ extra) in
      (
        contents txs,
        gen_fixture-contents txs built,
        ap (check_fixture c arb.pub_key) (contents-append txs extra)
            ∙ check_fixture-front
                (put_u32 o.commits ++ (put_blobs txs ++ (put_blob reveal ++ extra)))
            ∙ check_commits-trailing c claim (put_blobs txs) reveal extra o.commits s
                (omega (arith, honest.usable.commits))
                (omega (
                  arith,
                  length-reveal c digests sign keys arb user computors arbitrator asker o honest,
                  honest.usable.message,
                ))
                read
                (reveal-accepted c digests sign keys arb user computors arbitrator asker o honest)
                more,
      )
