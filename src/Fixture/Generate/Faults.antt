-- ===== src/Fixture/Generate/Faults.antt =====
-- The faulty commits that `--bad-commits` and `--wrong-digest` ask for.
use zkproof_demo.Base.{
  ℕ, zero, suc, ◌+◌, ◌-◌, ◌≤◌, ◌≡◌, min, max, ◌%◌, ◌^◌, bit_and, Bool, true, false, Bool-cases, inl,
  inr, not, ◌&&◌, refl, sym, ap, ap₂, ◌∙◌, if◌then◌else◌, List, [], ◌∷◌, ◌++◌, length,
  length-append, length-take, take, take_all, drop, set, get_or, flag, ◌==◌, arith,
}
use mathlib.Core.List.{append_assoc}
use zkproof_demo.Word.{◌>>>◌}
use zkproof_demo.Crypto.{Crypto}
use zkproof_demo.Transaction.{put_u16, put_u64, put_bytes, build_tx, unsigned_tx}
use zkproof_demo.Transaction.Fields.{input-build_tx, take_append}
use zkproof_demo.Fixture.Result.{Result, ok, unless, unless-eq-ok}
use zkproof_demo.Fixture.Format.{drop_append}
use zkproof_demo.Fixture.Counted.{DigestLength}
use zkproof_demo.Fixture.Generate.{
  Options, Key, Refusal, Sign, Query, is_wrong, is_bad, reply_length, reported_good, write_index,
  commit_order, no_key, query_id_of, query_of, build_commit, flip_byte, verify_tx, commit_len,
  commit_signature,
}
use zkproof_demo.Fixture.Written.{write-index, take-index}

-- How many of the first `n` commits have neither fault.
unfoldable pub good_among : Options → ℕ → ℕ
good_among o zero = 0
good_among o (suc n) = good_among o n + flag (not (is_wrong o n) && not (is_bad o n))

abbrev pub most : Options → ℕ
most o = max o.bad_commits o.wrong_digest

good_among-min : (o : Options) (n : ℕ) → good_among o n ≡ min n (o.commits - most o)
unfolding good_among
good_among-min o zero = omega arith
good_among-min o (suc n) = ground (arith, good_among-min o n)

-- When the faults are no more than the commits, the commits with neither fault are more than `main`
-- reports: by the commits with both faults, as far as there are others. Both faults are given to
-- the last commits.
pub good_among-reported_good :
    (o : Options)
    → o.bad_commits ≤ o.commits
    → o.wrong_digest ≤ o.commits
    → good_among o o.commits
      ≡ reported_good o + min (min o.bad_commits o.wrong_digest) (o.commits - most o)
unfolding reported_good
good_among-reported_good o bad wrong = ground (arith, good_among-min o o.commits)

write-index_next :
    (m : List ℕ) (a b d : ℕ) (junk : List ℕ) (idx : ℕ)
    → write_index (m ++ (a ∷ b ∷ d ∷ junk)) (length m + 1) idx
      ≡ (m ++ (a ∷ [])) ++ (put_u16 idx ++ junk)
write-index_next m a b d junk idx =
    let longer : length m + 1 ≡ length (m ++ (a ∷ [])) = omega (arith, length-append m (a ∷ [])) in
    rw (longer, ← append_assoc m (a ∷ []) (b ∷ d ∷ junk)) (write-index (m ++ (a ∷ [])) b d junk idx)

next-index :
    (m : List ℕ) (a : ℕ) (junk : List ℕ) (idx : ℕ)
    → take (length m + 1 + 2) ((m ++ (a ∷ [])) ++ (put_u16 idx ++ junk))
      ≡ (m ++ (a ∷ [])) ++ put_u16 idx
next-index m a junk idx =
    let longer : length m + 1 ≡ length (m ++ (a ∷ [])) = omega (arith, length-append m (a ∷ [])) in
    rw longer (take-index (m ++ (a ∷ [])) junk idx)

take-drop-set :
    (m k i : ℕ) (xs : List ℕ) (v : ℕ)
    → m + k ≤ i
    → take k (drop m (set xs i v)) ≡ take k (drop m xs)
take-drop-set zero zero i xs v h = refl
take-drop-set zero (suc k) i [] v h = refl
take-drop-set zero (suc k) zero (x ∷ xs) v h = absurd (omega arith)
take-drop-set zero (suc k) (suc i) (x ∷ xs) v h =
    ap (λ t. x ∷ t) (take-drop-set zero k i xs v (omega arith))
take-drop-set (suc m) k i [] v h = refl
take-drop-set (suc m) k zero (x ∷ xs) v h = absurd (omega arith)
take-drop-set (suc m) k (suc i) (x ∷ xs) v h = take-drop-set m k i xs v (omega arith)

drop_nil : (n : ℕ) → drop {A = ℕ} n [] ≡ []
drop_nil zero = refl
drop_nil (suc n) = refl

drop_twice : (m n : ℕ) (xs : List ℕ) → drop (m + n) xs ≡ drop n (drop m xs)
drop_twice zero n xs = let e : 0 + n ≡ n = omega arith in ap (λ k. drop k xs) e
drop_twice (suc m) n [] =
    let e : suc m + n ≡ suc (m + n) = omega arith in ap (λ k. drop k []) e ∙ sym (drop_nil n)
drop_twice (suc m) n (x ∷ xs) =
    let e : suc m + n ≡ suc (m + n) = omega arith in ap (λ k. drop k (x ∷ xs)) e ∙ drop_twice m n xs

-- The knowledge proof of the one item of a commit, where the checker reads it.
abbrev pub proof_of : List ℕ → List ℕ
proof_of tx = take 32 (drop (80 + 40) tx)

proof-flip_byte : (tx : List ℕ) → proof_of (flip_byte tx 159) ≡ proof_of tx
unfolding flip_byte
proof-flip_byte tx = take-drop-set 120 32 159 tx _ (omega arith)

proof-build_tx :
    (c : Crypto) (sign : List ℕ → List ℕ) (key : List ℕ) (tick number : ℕ) (digest kp : List ℕ)
    → length key ≡ 32
    → length digest ≡ 32
    → length kp ≡ 32
    → proof_of (build_tx c sign key 0 tick 6 (put_u64 number ++ (digest ++ kp))) ≡ kp
unfolding put_u64 put_bytes
proof-build_tx c sign key tick number digest kp hk hd hp =
    let item = put_u64 number ++ (digest ++ kp) in
    let s = sign (c.k12 (unsigned_tx key 0 tick 6 item)) in
    ap (take 32) (
      drop_twice 80 40 (build_tx c sign key 0 tick 6 item)
      ∙ ap (drop 40) (input-build_tx c sign key 0 tick 6 item hk)
      ∙ ap (drop 32) (append_assoc digest kp s)
      ∙ drop_append digest (kp ++ s) 32 hd)
    ∙ take_append kp s 32 hp

module _ (c : Crypto) (digests : DigestLength c) (sign : Sign) (keys : List Key) (o : Options) where
  abbrev q : Query
  q = query_of c keys o

  abbrev pub holder : ℕ → ℕ
  holder n = get_or (commit_order o.shuffle) n 0

  -- A commit, from the digest and the knowledge proof in its item.
  abbrev made : ℕ → List ℕ → List ℕ → List ℕ
  made n digest kp =
      let key = get_or keys (holder n) no_key in
      build_tx c (sign key.sub key.pub_key) key.pub_key 0 (o.commit_tick % 2 ^ 32) 6 (
        put_u64 ((query_id_of o + (if o.replay then 1 else 0)) % 2 ^ 64)
        ++ (take 32 digest ++ take 32 kp))

  made-proof :
      (n : ℕ) (digest m : List ℕ)
      → length (get_or keys (holder n) no_key).pub_key ≡ 32
      → length digest ≡ 32
      → proof_of (made n digest (c.k12 m)) ≡ c.k12 m
  made-proof n digest m hk hd =
      let all = take_all 32 (c.k12 m) (omega (arith, digests m)) in
      proof-build_tx c _ _ _ _ (take 32 digest) (take 32 (c.k12 m)) hk
        (omega (arith, length-take 32 digest, hd))
        (omega (arith, length-take 32 (c.k12 m), digests m))
      ∙ all

  -- What a commit hashes, and the buffer that it leaves.
  pub build_commit-proof :
      (n : ℕ) (reply tx r : List ℕ)
      → length (get_or keys (holder n) no_key).pub_key ≡ 32
      → build_commit c sign q n reply ≡ ok (tx, r)
      → (r ≡ write_index reply (reply_length o n) (holder n))
        × (proof_of tx ≡ c.k12 (take (reply_length o n + 2) r))
  unfolding build_commit query_of
  build_commit-proof n reply tx r hk h =
      let r' = write_index reply (reply_length o n) (holder n) in
      let m = take (reply_length o n + 2) r' in
      let digest = if is_wrong o n then q.wrong_reply_digest else q.reply_digest in
      let size : length digest ≡ 32 = digest_length (is_wrong o n) in
      let proof = made-proof n digest m hk size in
      elim (Bool-cases (is_bad o n)) [
        | inl bad ↦
            let e : ◌≡◌ {A = Result Refusal (List ℕ × List ℕ)}
                (ok (flip_byte (made n digest (c.k12 m)) 159, r')) (ok (tx, r)) =
              sym (rw bad refl) ∙ h in
            done r' (reply_length o n + 2) tx r (flip_byte (made n digest (c.k12 m)) 159) e
              (proof-flip_byte (made n digest (c.k12 m)) ∙ proof)
        | inr fine ↦
            let answer = verify_tx c (made n digest (c.k12 m)) commit_len == 0 in
            let built : build_commit c sign q n reply
                ≡ unless answer commit_signature (ok (made n digest (c.k12 m), r')) =
              rw fine refl in
            let e =
              unless-eq-ok answer commit_signature (ok (made n digest (c.k12 m), r'))
                (sym built ∙ h) in
            done r' (reply_length o n + 2) tx r (made n digest (c.k12 m)) e.1 proof
      ]
    where
      digest_length :
          (wrong : Bool) → length (if wrong then q.wrong_reply_digest else q.reply_digest) ≡ 32
      digest_length true = digests _
      digest_length false = digests _

      done :
          (r' : List ℕ) (len : ℕ) (tx r t : List ℕ)
          → ◌≡◌ {A = Result Refusal (List ℕ × List ℕ)} (ok (t, r')) (ok (tx, r))
          → proof_of t ≡ c.k12 (take len r')
          → (r ≡ r') × (proof_of tx ≡ c.k12 (take len r))
      done r' len tx r t e p =
          let same : t ≡ tx = cc in
          let same' : r' ≡ r = cc in
          (sym same', ap proof_of (sym same) ∙ p ∙ ap (λ u. c.k12 (take len u)) same')

  -- The knowledge proof of a commit with the wrong digest is of the byte behind the message, whatever
  -- it is, and the index.
  pub wrong-proof :
      (n b z d : ℕ) (junk tx r : List ℕ)
      → length (get_or keys (holder n) no_key).pub_key ≡ 32
      → is_wrong o n ≡ true
      → build_commit c sign q n (o.message ++ (b ∷ z ∷ d ∷ junk)) ≡ ok (tx, r)
      → proof_of tx ≡ c.k12 ((o.message ++ (b ∷ [])) ++ put_u16 (holder n))
  wrong-proof n b z d junk tx r hk wrong h =
      let (left, proof) = build_commit-proof n _ tx r hk h in
      let size : reply_length o n ≡ length o.message + 1 = rw wrong refl in
      proof
      ∙ ap c.k12 (
          ap₂ take (ap (λ k. k + 2) size) (
            left
            ∙ ap (λ k. write_index (o.message ++ (b ∷ z ∷ d ∷ junk)) k (holder n)) size
            ∙ write-index_next o.message b z d junk (holder n))
          ∙ next-index o.message b junk (holder n))

  right-buffer :
      (n x z d : ℕ) (junk tx r : List ℕ)
      → length (get_or keys (holder n) no_key).pub_key ≡ 32
      → is_wrong o n ≡ false
      → build_commit c sign q n (o.message ++ (x ∷ z ∷ d ∷ junk)) ≡ ok (tx, r)
      → r ≡ o.message ++ (bit_and (holder n) 0xff ∷ (holder n >>> 8) % 2 ^ 8 ∷ d ∷ junk)
  unfolding put_u16
  right-buffer n x z d junk tx r hk right h =
      let size : reply_length o n ≡ length o.message = rw right refl in
      (build_commit-proof n _ tx r hk h).0
      ∙ ap (λ k. write_index (o.message ++ (x ∷ z ∷ d ∷ junk)) k (holder n)) size
      ∙ write-index o.message x z (d ∷ junk) (holder n)

  -- Behind a commit with the right digest, a commit with the wrong one holds the knowledge proof of
  -- the message, the low byte of the index of the computor before, and its own index: the 'x' of the
  -- wrong reply has been written over. Keys and digests have 32 bytes, and `reply` is the message and
  -- three bytes or more.
  pub wrong_knowledge :
      (n x z d : ℕ) (junk tx r tx' r' : List ℕ)
      → length (get_or keys (holder n) no_key).pub_key ≡ 32
      → length (get_or keys (holder (n + 1)) no_key).pub_key ≡ 32
      → is_wrong o n ≡ false
      → is_wrong o (n + 1) ≡ true
      → build_commit c sign q n (o.message ++ (x ∷ z ∷ d ∷ junk)) ≡ ok (tx, r)
      → build_commit c sign q (n + 1) r ≡ ok (tx', r')
      → proof_of tx'
        ≡ c.k12 ((o.message ++ (bit_and (holder n) 0xff ∷ [])) ++ put_u16 (holder (n + 1)))
  wrong_knowledge n x z d junk tx r tx' r' hk hk' right wrong h h' =
      let left = right-buffer n x z d junk tx r hk right h in
      wrong-proof (n + 1) (bit_and (holder n) 0xff) ((holder n >>> 8) % 2 ^ 8) d junk tx' r' hk'
        wrong (ap (build_commit c sign q (n + 1)) (sym left) ∙ h')
