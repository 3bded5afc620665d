-- ===== src/Fixture/Written.antt =====
-- The commits that the generator writes are counted one by one.
use zkproof_demo.Base.{
  ℕ, zero, suc, ◌+◌, ◌-◌, ◌%◌, ◌^◌, ◌≤◌, ◌<◌, bit_and, ◌≡◌, refl, ap, ◌∙◌, false, ◌==◌, lt→leb,
  List, [], ◌∷◌, ◌++◌, length, take, take_all, get_or, set, arith,
}
use mathlib.Core.List.{append_assoc, Nodup}
use zkproof_demo.Word.{◌>>>◌}
use zkproof_demo.Crypto.{Crypto}
use zkproof_demo.Transaction.{put_u16}
use zkproof_demo.Transaction.Fields.{length-build_tx}
use zkproof_demo.Fixture.{num_computors, computor_key}
use zkproof_demo.Fixture.Result.{ok}
use zkproof_demo.Fixture.Check.{Claim, knowledge, Count, count_commit, commit_loop, no_commit_tx}
use zkproof_demo.Fixture.Check.Parts.{KeysDiffer}
use zkproof_demo.Fixture.Format.{blob-put_blob}
use zkproof_demo.Fixture.Counted.{
  DigestLength, Signs, sign_tx, verify_tx-sign_tx, item_of, length-item_of, count_commit-sign_tx,
}
use zkproof_demo.Fixture.Distinct.{get_or-set_ne, Nodup-get_or}
use zkproof_demo.Fixture.Generate.{
  no_key, Sign, Query, write_index, build_commit, build_commits, verify_tx, commit_len, put_blob,
  put_blobs,
}

pub write-index :
    (m : List ℕ) (a b : ℕ) (junk : List ℕ) (idx : ℕ)
    → write_index (m ++ (a ∷ b ∷ junk)) (length m) idx ≡ m ++ (put_u16 idx ++ junk)
unfolding write_index put_u16
write-index [] a b junk idx = refl
write-index (x ∷ m) a b junk idx =
    let e : suc (length m) + 1 ≡ suc (length m + 1) = omega arith in
    rw e (ap (λ t. x ∷ t) (write-index m a b junk idx))

pub take-index :
    (m junk : List ℕ) (idx : ℕ)
    → take (length m + 2) (m ++ (put_u16 idx ++ junk)) ≡ m ++ put_u16 idx
unfolding put_u16
take-index [] junk idx = refl
take-index (x ∷ m) junk idx =
    let e : suc (length m) + 2 ≡ suc (length m + 2) = omega arith in
    ap (λ n. take n (x ∷ (m ++ (put_u16 idx ++ junk)))) e ∙ ap (λ t. x ∷ t) (take-index m junk idx)

-- The options of a run with no bad commit, no wrong digest and no replay, against the checker's claim.
pub record IsPlain (c : Crypto) (q : Query) (f : Claim) : Type 0 where
  pub no_bad : q.options.bad_commits ≡ 0
  pub no_wrong : q.options.wrong_digest ≡ 0
  pub no_replay : q.options.replay ≡ false
  pub same_query : f.query_id ≡ q.query_id
  pub small_query : q.query_id < 2 ^ 64
  pub same_reply : f.reply ≡ q.options.message
  pub same_digest : q.reply_digest ≡ c.k12 f.reply
  pub later : f.query_tick < q.options.commit_tick % 2 ^ 32

module _ (c : Crypto) (digests : DigestLength c) (sign : Sign) (q : Query) (f : Claim)
    (plain : IsPlain c q f)
    (signs : (i : ℕ) → i < num_computors → Signs c sign (get_or q.keys i no_key)) where
  -- The commit at place `n`.
  abbrev commit_at : ℕ → List ℕ
  commit_at n =
      let idx = get_or q.order n 0 in
      sign_tx c sign (get_or q.keys idx no_key) 0 (q.options.commit_tick % 2 ^ 32) 6
        (item_of c f idx)

  length-commit_at :
      (n : ℕ) → get_or q.order n 0 < num_computors → length (commit_at n) ≡ commit_len
  length-commit_at n inside =
      let idx = get_or q.order n 0 in
      let k = get_or q.keys idx no_key in
      let s = signs idx inside in
      length-build_tx c (sign k.sub k.pub_key) k.pub_key 0 (q.options.commit_tick % 2 ^ 32) 6
        (item_of c f idx) s.key_length (s.length_64 _)
      ∙ omega (arith, length-item_of c digests f idx)

  verified :
      (n : ℕ)
      → get_or q.order n 0 < num_computors
      → (verify_tx c (commit_at n) commit_len == 0) ≡ false
  verified n inside =
      let idx = get_or q.order n 0 in
      let k = get_or q.keys idx no_key in
      verify_tx-sign_tx c digests sign k (signs idx inside) 0 (q.options.commit_tick % 2 ^ 32) 6
        (item_of c f idx) commit_len (length-commit_at n inside)

  build_commit-commit_at :
      (n a b : ℕ) (junk : List ℕ)
      → get_or q.order n 0 < num_computors
      → n < q.options.commits
      → build_commit c sign q n (f.reply ++ (a ∷ b ∷ junk))
        ≡ ok (commit_at n, f.reply ++ (put_u16 (get_or q.order n 0) ++ junk))
  unfolding build_commit knowledge put_u16
  build_commit-commit_at n a b junk inside below =
      let o = q.options in
      let idx = get_or q.order n 0 in
      let right = lt→leb (o.commits - o.wrong_digest) n (omega (arith, plain.no_wrong)) in
      let good = lt→leb (o.commits - o.bad_commits) n (omega (arith, plain.no_bad)) in
      let number : (q.query_id + 0) % 2 ^ 64 ≡ f.query_id =
        omega (arith, plain.small_query, plain.same_query) in
      let digest : take 32 q.reply_digest ≡ c.k12 f.reply =
        ap (take 32) plain.same_digest
        ∙ take_all 32 (c.k12 f.reply) (omega (arith, digests f.reply)) in
      let proof =
        take_all 32 (knowledge c f.reply idx) (omega (arith, digests (f.reply ++ put_u16 idx))) in
      rw
        (
          right,
          good,
          plain.no_replay,
          ← plain.same_reply,
          write-index f.reply a b junk idx,
          take-index f.reply junk idx,
          number,
          digest,
          proof,
          verified n inside,
        )
        refl

  -- What the commits are counted by: the packet holds the keys, and the order each computor once.
  module _ (differ : KeysDiffer f.packet)
      (keys : (i : ℕ)
        → i < num_computors
        → computor_key f.packet i ≡ (get_or q.keys i no_key).pub_key)
      (once : Nodup q.order) (size : length q.order ≡ num_computors)
      (members : (n : ℕ) → n < num_computors → get_or q.order n 0 < num_computors)
      (few : q.options.commits ≤ num_computors) where
    abbrev Unseen : List ℕ → ℕ → Type 0
    Unseen seen n = (m : ℕ) → n ≤ m → m < num_computors → get_or seen (get_or q.order m 0) 0 ≡ 0

    Unseen-set :
        (seen : List ℕ) (n : ℕ) → Unseen seen n → Unseen (set seen (get_or q.order n 0) 1) (n + 1)
    Unseen-set seen n unseen m low high =
        get_or-set_ne seen (get_or q.order n 0) (get_or q.order m 0) 1
          (λ e. Nodup-get_or q.order n m once (omega arith) (omega (arith, size)) e)
        ∙ unseen m (omega arith) high

    abbrev Counted : ℕ → ℕ → List ℕ → Count → List ℕ → Type 0
    Counted k n reply s rest =
        (txs : List (List ℕ)) × (s' : Count) × (build_commits c sign q k n reply ≡ ok txs)
        × (commit_loop c f k s (put_blobs txs ++ rest) ≡ ok (s', rest))
        × (s'.counted ≡ s.counted + k)

    add_commit :
        (k n : ℕ) (reply reply' : List ℕ) (s s1 : Count) (rest tx : List ℕ)
        → build_commit c sign q n reply ≡ ok (tx, reply')
        → length tx < 2 ^ 32
        → count_commit c f tx s ≡ s1
        → s1.counted ≡ s.counted + 1
        → Counted k (n + 1) reply' s1 rest
        → Counted (suc k) n reply s rest
    unfolding build_commits commit_loop put_blobs
    add_commit k n reply reply' s s1 rest tx eb short ec one (txs, s', built, read, sum) = (
      tx ∷ txs,
      s',
      rw (eb, built) refl,
      rw
          (
            append_assoc (put_blob tx) (put_blobs txs) rest,
            blob-put_blob no_commit_tx tx (put_blobs txs ++ rest) short,
            ec,
          )
          read,
      omega arith,
    )

    pub build_commits-Counted :
        (k n a b : ℕ) (junk : List ℕ) (s : Count) (rest : List ℕ)
        → n + k ≡ q.options.commits
        → Unseen s.seen n
        → Counted k n (f.reply ++ (a ∷ b ∷ junk)) s rest
    unfolding build_commits commit_loop put_blobs put_u16
    build_commits-Counted zero n a b junk s rest total unseen = ([], s, refl, refl, omega arith)
    build_commits-Counted (suc k) n a b junk s rest total unseen =
        let idx = get_or q.order n 0 in
        let inside = members n (omega arith) in
        let s1 : Count = record { seen = set s.seen idx 1; counted = s.counted + 1 } in
        add_commit k n (f.reply ++ (a ∷ b ∷ junk)) (f.reply ++ (put_u16 idx ++ junk)) s s1 rest
          (commit_at n) (build_commit-commit_at n a b junk inside (omega arith))
          (omega (arith, length-commit_at n inside))
          (count_commit-sign_tx c digests sign (get_or q.keys idx no_key) (signs idx inside) f idx
            (q.options.commit_tick % 2 ^ 32) s (omega (arith, plain.same_query, plain.small_query))
            (omega (arith, plain.later)) inside differ (keys idx inside)
            (unseen n (omega arith) (omega arith)))
          refl
          (build_commits-Counted k (n + 1) (bit_and idx 0xff) ((idx >>> 8) % 2 ^ 8) junk s1 rest
            (omega arith) (Unseen-set s.seen n unseen))
