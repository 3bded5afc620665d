-- ===== src/Fixture/Check/Commits.antt =====
-- What the loop over the commits counts.
use zkproof_demo.Base.{
  ℕ, zero, suc, ◌+◌, ◌*◌, ◌<◌, ◌≡◌, ◌≢◌, ◌≤◌, refl, sym, ap, ◌∙◌, true, false, ◌&&◌, ◌||◌, ◌==◌,
  leb, Bool, Option, none, some, List, length, take, drop, get_or, set, arith, Bool-cases, inl, inr,
  ◌⊎◌,
}
use zkproof_demo.Base.Bytes.{bytes_equal, bytes_equal→eq, bytes_equal_self}
use mathlib.Core.Path.{subst}
use native.Mathlib.Decide.{dec_lt, ℕ_discrete}
use zkproof_demo.Crypto.{Crypto}
use zkproof_demo.Transaction.{get_u32, tx_ok}
use zkproof_demo.Transaction.Signed.{IsSigned, tx_ok-IsSigned, IsSigned-tx_ok}
use zkproof_demo.Fixture.Check.Items.{IsItem, has_item-IsItem, has_item-iff-IsItem}
use zkproof_demo.Fixture.{num_computors, computor_key}
use zkproof_demo.Fixture.Check.{computor_from, computor_index, Claim, has_item, Count, count_commit}

differ : (xs ys : List ℕ) → bytes_equal xs ys ≡ false → xs ≢ ys
differ xs ys h e =
    let same : bytes_equal xs ys ≡ true =
      subst (λ t. bytes_equal xs t ≡ true) e (bytes_equal_self xs) in
    absurd (ground (arith, same))

-- A valid commit of computor `idx`.
pub record IsCommit (c : Crypto) (f : Claim) (tx : List ℕ) (idx : ℕ) : Type 0 where
  pub signed : IsSigned c tx (length tx) 6 0 true
  pub later : f.query_tick < get_u32 (drop 72 tx)
  pub member : idx < num_computors
  pub key : computor_key f.packet idx ≡ take 32 tx
  pub item : (k : ℕ) × IsItem c f tx idx (72 * k)

-- The commit counts for `idx`: it is the first computor of the packet that has the key.
pub record IsVote (c : Crypto) (f : Claim) (tx : List ℕ) (idx : ℕ) : Type 0 where
  pub commit : IsCommit c f tx idx
  pub first : (j : ℕ) → j < idx → computor_key f.packet j ≢ take 32 tx

found_here :
    (packet pk : List ℕ) (k i : ℕ)
    → bytes_equal (computor_key packet i) pk ≡ true
    → computor_from packet pk (suc k) i ≡ some i
unfolding computor_from
found_here packet pk k i e = rw (e, computor_from) refl

found_later :
    (packet pk : List ℕ) (k i : ℕ)
    → bytes_equal (computor_key packet i) pk ≡ false
    → computor_from packet pk (suc k) i ≡ computor_from packet pk k (i + 1)
unfolding computor_from
found_later packet pk k i e = rw (e, computor_from) refl

-- Of the computors in range the search takes the first with the key, if there is one.
computor_from-first :
    (packet pk : List ℕ) (k i : ℕ) {r : ℕ}
    → computor_from packet pk k i ≡ some r
    → (j : ℕ) → i ≤ j
    → j < r
    → computor_key packet j ≢ pk
unfolding computor_from
computor_from-first packet pk zero i h j low high same = cc
computor_from-first packet pk (suc k) i {r} h j low high same =
    elim (Bool-cases (bytes_equal (computor_key packet i) pk)) [
      | inl e ↦
          let at : some i ≡ some r = sym (found_here packet pk k i e) ∙ h in
          let at' : i ≡ r = cc in absurd (omega arith)
      | inr e ↦ elim (ℕ_discrete i j) [
        | yes at ↦
            let e' : bytes_equal (computor_key packet j) pk ≡ false =
              ap (λ t. bytes_equal (computor_key packet t) pk) (sym at) ∙ e in
            differ (computor_key packet j) pk e' same
        | no other ↦
            let h' : computor_from packet pk k (i + 1) ≡ some r =
              sym (found_later packet pk k i e) ∙ h in
            computor_from-first packet pk k (i + 1) h' j (omega arith) high same
      ]
    ]

computor_from-none :
    (packet pk : List ℕ) (k i : ℕ)
    → computor_from packet pk k i ≡ none
    → (j : ℕ) → i ≤ j
    → j < i + k
    → computor_key packet j ≢ pk
unfolding computor_from
computor_from-none packet pk zero i h j low high same = absurd (omega arith)
computor_from-none packet pk (suc k) i h j low high same =
    elim (Bool-cases (bytes_equal (computor_key packet i) pk)) [
      | inl e ↦ let at : some i ≡ none = sym (found_here packet pk k i e) ∙ h in cc
      | inr e ↦ elim (ℕ_discrete i j) [
        | yes at ↦
            let e' : bytes_equal (computor_key packet j) pk ≡ false =
              ap (λ t. bytes_equal (computor_key packet t) pk) (sym at) ∙ e in
            differ (computor_key packet j) pk e' same
        | no other ↦
            let h' : computor_from packet pk k (i + 1) ≡ none =
              sym (found_later packet pk k i e) ∙ h in
            computor_from-none packet pk k (i + 1) h' j (omega arith) (omega arith) same
      ]
    ]

pub computor_from-some :
    (packet pk : List ℕ) (k i : ℕ) {r : ℕ}
    → computor_from packet pk k i ≡ some r
    → (r < i + k) × (computor_key packet r ≡ pk)
unfolding computor_from
computor_from-some packet pk zero i h = cc
computor_from-some packet pk (suc k) i {r} h =
    elim (Bool-cases (bytes_equal (computor_key packet i) pk)) [
      | inl e ↦ ground (arith, bytes_equal→eq (computor_key packet i) pk e)
      | inr e ↦ ground (arith, computor_from-some packet pk k (i + 1) {r = r})
    ]

-- The transaction is a commit that counts for a computor not seen before.
abbrev pub IsNewVote : Crypto → Claim → List ℕ → List ℕ → Type 0
IsNewVote c f tx seen = (idx : ℕ) × (get_or seen idx 0 ≡ 0) × IsVote c f tx idx

-- The step on one commit: nothing is counted, since it counts for no computor not seen before, or it
-- is counted for the one that it does.
pub data Counts (c : Crypto) (f : Claim) (tx : List ℕ) (s : Count) : Count → Type 0 where
  skipped : ¬ IsNewVote c f tx s.seen → Counts c f tx s s
  counts :
      (idx : ℕ)
      → get_or s.seen idx 0 ≡ 0
      → IsVote c f tx idx
      → Counts c f tx s (record { seen = set s.seen idx 1; counted = s.counted + 1 })

Option-cases : (o : Option ℕ) → (o ≡ none) ⊎ ((i : ℕ) × (o ≡ some i))
Option-cases none = inl refl
Option-cases (some i) = inr (i, refl)

not_dropped : (a tick t : ℕ) → a ≢ 0 → t < tick → ¬ ((a == 0) || leb tick t ≡ true)
not_dropped a tick t nz later h = ground arith

not_passed_over : (seen : ℕ) (hit : Bool) → seen ≡ 0 → hit ≡ true → ¬ ((seen == 0) && hit ≡ false)
not_passed_over seen hit e h old = ground arith

module _ (c : Crypto) (f : Claim) (tx : List ℕ) where
  -- A commit that counts for one of two computors counts for the one that the search finds.
  vote-found :
      {idx other : ℕ}
      → computor_from f.packet (take 32 tx) num_computors 0 ≡ some idx
      → computor_key f.packet idx ≡ take 32 tx
      → IsVote c f tx other
      → other ≡ idx
  vote-found {idx} {other} e at v = elim (dec_lt other idx) [
    | yes before ↦ absurd (
        computor_from-first f.packet (take 32 tx) num_computors 0 e other (omega arith) before
          v.commit.key)
    | no behind ↦ elim (dec_lt idx other) [
      | yes after ↦ absurd (v.first idx after at)
      | no same ↦ omega arith
    ]
  ]

  not_new :
      (seen : List ℕ) (idx : ℕ)
      → computor_from f.packet (take 32 tx) num_computors 0 ≡ some idx
      → computor_key f.packet idx ≡ take 32 tx
      → (get_or seen idx 0 == 0) && has_item c f tx idx ≡ false
      → ¬ IsNewVote c f tx seen
  not_new seen idx e at old (other, new, v) =
      let same = vote-found e at v in
      not_passed_over (get_or seen idx 0) (has_item c f tx idx)
        (ap (λ t. get_or seen t 0) (sym same) ∙ new)
        (ap (has_item c f tx) (sym same) ∙ (has_item-iff-IsItem c f tx other).1 v.commit.item) old

  pub count_commit-Counts : (s : Count) → Counts c f tx s (count_commit c f tx s)
  unfolding count_commit computor_index
  count_commit-Counts s =
      elim (Bool-cases
        ((tx_ok c tx (length tx) 6 0 true == 0) || leb (get_u32 (drop 72 tx)) f.query_tick)) [
          | inl e ↦
              rw (e, count_commit)
                (skipped λ (idx, new, v).
                  not_dropped (tx_ok c tx (length tx) 6 0 true) (get_u32 (drop 72 tx)) f.query_tick
                    (IsSigned-tx_ok c tx (length tx) 6 0 true v.commit.signed) v.commit.later e)
          | inr valid ↦ elim (Option-cases (computor_index f.packet tx)) [
            | inl e ↦
                rw (valid, e, count_commit)
                  (skipped λ (idx, new, v).
                    computor_from-none f.packet (take 32 tx) num_computors 0 e idx (omega arith)
                      (omega (arith, v.commit.member)) v.commit.key)
            | inr (idx, e) ↦
                let at = computor_from-some f.packet (take 32 tx) num_computors 0 {r = idx} e in
                elim (Bool-cases ((get_or s.seen idx 0 == 0) && has_item c f tx idx)) [
                  | inr old ↦
                      rw (valid, e, old, count_commit) (skipped (not_new s.seen idx e at.1 old))
                  | inl new ↦
                      rw (valid, e, new, count_commit)
                        (counts idx (ground arith) (record {
                          commit = record {
                            signed = tx_ok-IsSigned c tx (length tx) 6 0 true (ground arith);
                            later = ground arith;
                            member = omega (arith, at);
                            key = at.1;
                            item = has_item-IsItem c f tx idx (ground arith);
                          };
                          first = λ j below.
                              computor_from-first f.packet (take 32 tx) num_computors 0 e j
                                (omega arith) below;
                        }))
                ]
          ]
        ]
