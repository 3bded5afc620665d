-- ===== src/Fixture/Check/Votes.antt =====
-- The votes that the loop over the commits counts.
use zkproof_demo.Base.{
  ℕ, zero, suc, ◌+◌, ◌<◌, ◌≡◌, refl, sym, ap, ◌∙◌, length-set, List, [], ◌∷◌, length, get_or, set,
  arith,
}
use mathlib.Core.List.{
  Mem, Nodup, Nodup-nil, Nodup-cons, not-mem-nil, mem-cons, mem-cons_self, mem-cons_of_mem,
}
use mathlib.Core.Logic.Or
use mathlib.Core.Path.{subst}
use native.Mathlib.Bridge.{le_prop}
use zkproof_demo.Crypto.{Crypto}
use zkproof_demo.Fixture.{num_computors}
use zkproof_demo.Fixture.Result.{ok, >>=-elim}
use zkproof_demo.Fixture.Check.{blob, no_commit_tx, Claim, Count, count_commit, commit_loop}
use zkproof_demo.Fixture.Check.Commits.{
  IsCommit, IsVote, IsNewVote, Counts, skipped, counts, count_commit-Counts,
}

-- No computor among the votes is marked as seen, also after the ones before it are marked.
abbrev pub Fresh : List ℕ → List ℕ → Type 0
Fresh seen [] = Unit
Fresh seen (idx ∷ votes) = (get_or seen idx 0 ≡ 0) × Fresh (set seen idx 1) votes

-- `n` transactions are read from `bytes`; `votes` are the computors of which one is a valid commit
-- that is counted, and `left` is what stands behind them.
pub data Commits (c : Crypto) (f : Claim) : ℕ → List ℕ → List ℕ → List ℕ → Type 0 where
  done : {bytes : List ℕ} → Commits c f 0 bytes [] bytes
  ignored :
      {n : ℕ} {bytes tx rest votes left : List ℕ}
      → blob no_commit_tx bytes ≡ ok (tx, rest)
      → Commits c f n rest votes left
      → Commits c f (suc n) bytes votes left
  commit :
      {n : ℕ} {bytes tx rest votes left : List ℕ} {idx : ℕ}
      → blob no_commit_tx bytes ≡ ok (tx, rest)
      → IsCommit c f tx idx
      → Commits c f n rest votes left
      → Commits c f (suc n) bytes (idx ∷ votes) left

-- The same with the marks: a transaction is passed over only if it counts for no computor that is
-- not marked, and a vote marks its computor.
pub data Tally (c : Crypto) (f : Claim) : ℕ → List ℕ → List ℕ → List ℕ → List ℕ → Type 0 where
  all_read : {seen bytes : List ℕ} → Tally c f 0 seen bytes [] bytes
  passed_over :
      {n : ℕ} {seen bytes tx rest votes left : List ℕ}
      → blob no_commit_tx bytes ≡ ok (tx, rest)
      → ¬ IsNewVote c f tx seen
      → Tally c f n seen rest votes left
      → Tally c f (suc n) seen bytes votes left
  vote :
      {n : ℕ} {seen bytes tx rest votes left : List ℕ} {idx : ℕ}
      → blob no_commit_tx bytes ≡ ok (tx, rest)
      → get_or seen idx 0 ≡ 0
      → IsVote c f tx idx
      → Tally c f n (set seen idx 1) rest votes left
      → Tally c f (suc n) seen bytes (idx ∷ votes) left

-- The loop's count when it ends, `total`, with the votes that make it up.
abbrev pub Voted : Crypto → Claim → ℕ → Count → List ℕ → ℕ → List ℕ → Type 0
Voted c f n s bytes total left =
    (votes : List ℕ) × (total ≡ s.counted + length votes) × Tally c f n s.seen bytes votes left

no_vote :
    (c : Crypto) (f : Claim) (s : Count) (bytes : List ℕ) {total : ℕ} {left : List ℕ}
    → bytes ≡ left
    → s.counted ≡ total
    → Voted c f 0 s bytes total left
no_vote c f s bytes e same =
    ([], omega arith, subst (λ left. Tally c f 0 s.seen bytes [] left) e all_read)

add_vote :
    {c : Crypto} {f : Claim} {n : ℕ} {s t : Count} {bytes tx rest left : List ℕ} (total : ℕ)
    → blob no_commit_tx bytes ≡ ok (tx, rest)
    → Counts c f tx s t
    → Voted c f n t rest total left
    → Voted c f (suc n) s bytes total left
add_vote total e (skipped none_new) (votes, sum, r) = (votes, sum, passed_over e none_new r)
add_vote total e (counts idx new v) (votes, sum, r) = (idx ∷ votes, omega arith, vote e new v r)

-- The loop adds one for each vote. A transaction is a vote exactly when it is a valid commit with the
-- key of a computor, the first in the packet, that is neither marked at the start nor that of a vote
-- before it; no other transaction is passed over.
pub commit_loop-Voted :
    (c : Crypto) (f : Claim) (n : ℕ) (s : Count) (bytes : List ℕ) (s' : Count) (left : List ℕ)
    → commit_loop c f n s bytes ≡ ok (s', left)
    → Voted c f n s bytes s'.counted left
unfolding commit_loop
commit_loop-Voted c f zero s bytes s' left h = no_vote c f s bytes (cc) (ground arith)
commit_loop-Voted c f (suc n) s bytes s' left h =
    >>=-elim (blob no_commit_tx bytes) _ h λ (tx, rest) e e'.
      add_vote s'.counted e (count_commit-Counts c f tx s)
        (commit_loop-Voted c f n (count_commit c f tx s) rest s' left e')

pub Tally-Fresh :
    {c : Crypto} {f : Claim} {n : ℕ} {seen bytes votes left : List ℕ}
    → Tally c f n seen bytes votes left
    → Fresh seen votes
Tally-Fresh all_read = tt
Tally-Fresh (passed_over e none_new r) = Tally-Fresh r
Tally-Fresh (vote e new v r) = (new, Tally-Fresh r)

pub Tally-Commits :
    {c : Crypto} {f : Claim} {n : ℕ} {seen bytes votes left : List ℕ}
    → Tally c f n seen bytes votes left
    → Commits c f n bytes votes left
Tally-Commits all_read = done
Tally-Commits (passed_over e none_new r) = ignored e (Tally-Commits r)
Tally-Commits (vote e new v r) = commit e v.commit (Tally-Commits r)

pub votes-member :
    {c : Crypto} {f : Claim} {n : ℕ} {bytes votes left : List ℕ}
    → Commits c f n bytes votes left
    → (i : ℕ) → Mem i votes
    → i < num_computors
votes-member done i m = absurd (not-mem-nil m)
votes-member (ignored e r) i m = votes-member r i m
votes-member (commit e v r) i m =
    Or.elim le_prop (mem-cons.0 m) (λ at. rw at v.member) (votes-member r i)

-- A mark stays.
marked-set : (seen : List ℕ) (i j : ℕ) → get_or seen j 0 ≡ 1 → get_or (set seen i 1) j 0 ≡ 1
marked-set [] i j h = h
marked-set (x ∷ seen) zero zero h = refl
marked-set (x ∷ seen) zero (suc j) h = h
marked-set (x ∷ seen) (suc i) zero h = h
marked-set (x ∷ seen) (suc i) (suc j) h = marked-set seen i j h

marked-set_self : (seen : List ℕ) (i : ℕ) → i < length seen → get_or (set seen i 1) i 0 ≡ 1
marked-set_self [] i h = absurd (omega arith)
marked-set_self (x ∷ seen) zero h = refl
marked-set_self (x ∷ seen) (suc i) h = marked-set_self seen i (omega arith)

not-mem-Fresh :
    (seen votes : List ℕ) (i : ℕ) → get_or seen i 0 ≡ 1 → Fresh seen votes → ¬ Mem i votes
not-mem-Fresh seen [] i h fresh m = not-mem-nil m
not-mem-Fresh seen (j ∷ votes) i h fresh m =
    Or.elim (hlevel) (mem-cons.0 m)
      (λ at. let e : get_or seen j 0 ≡ 1 = ap (λ t. get_or seen t 0) (sym at) ∙ h in omega arith)
      (not-mem-Fresh (set seen j 1) votes i (marked-set seen j i h) fresh.1)

-- Votes of computors that are in range and not seen before one another are pairwise distinct.
pub Nodup-Fresh :
    (seen votes : List ℕ)
    → Fresh seen votes
    → ((i : ℕ) → Mem i votes → i < length seen)
    → Nodup votes
Nodup-Fresh seen [] fresh inside = Nodup-nil
Nodup-Fresh seen (i ∷ votes) fresh inside = Nodup-cons.1 (
  not-mem-Fresh (set seen i 1) votes i (marked-set_self seen i (inside i mem-cons_self)) fresh.1,
  Nodup-Fresh (set seen i 1) votes fresh.1
      (λ j m. omega (arith, length-set seen i 1, inside j (mem-cons_of_mem i m))),
)
