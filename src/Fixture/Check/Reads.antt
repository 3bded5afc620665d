-- ===== src/Fixture/Check/Reads.antt =====
-- What a successful read gives, and the chain of tests of `main`.
use zkproof_demo.Base.{
  ℕ, ◌≡◌, sym, ap, ◌∙◌, List, ◌++◌, length, take, drop, ltb, arith, take-append-drop, length-take,
  Bool-cases, inl, inr,
}
use zkproof_demo.Transaction.{get_u32}
use zkproof_demo.Fixture.Result.{ok, >>=-elim}
use zkproof_demo.Fixture.Check.{Failure, take_input, blob}

-- `a` are the first `n` of the bytes, and `rest` those behind them.
pub record IsTaken (n : ℕ) (bytes a rest : List ℕ) : Type 0 where
  pub parts : bytes ≡ a ++ rest
  pub size : length a ≡ n

-- The bytes are four that hold the length of `a`, then `a`, then `rest`.
pub record IsBlob (bytes a rest : List ℕ) : Type 0 where
  pub head : List ℕ
  pub parts : bytes ≡ head ++ (a ++ rest)
  pub four : length head ≡ 4
  pub size : get_u32 head ≡ length a

pub take_input-IsTaken :
    (n : ℕ) (what : Failure) (bytes : List ℕ) {a rest : List ℕ}
    → take_input n what bytes ≡ ok (a, rest)
    → IsTaken n bytes a rest
unfolding take_input
take_input-IsTaken n what bytes {a} {rest} h = elim (Bool-cases (ltb (length bytes) n)) [
  | inl short ↦ ground arith
  | inr long ↦
      let ea : take n bytes ≡ a = ground arith in
      let er : drop n bytes ≡ rest = ground arith in
      record {
        parts = rw (← ea, ← er) (sym (take-append-drop n bytes));
        size = rw (← ea) (ground (arith, length-take n bytes));
      }
]

pub blob-IsBlob :
    (what : Failure) (bytes : List ℕ) {a rest : List ℕ}
    → blob what bytes ≡ ok (a, rest)
    → IsBlob bytes a rest
unfolding blob
blob-IsBlob what bytes h = >>=-elim (take_input 4 what bytes) _ h λ (head, behind) e e'.
    let first = take_input-IsTaken 4 what bytes e in
    let second = take_input-IsTaken (get_u32 head) what behind e' in
    record {
      head = head;
      parts = first.parts ∙ ap (λ t. head ++ t) second.parts;
      four = first.size;
      size = sym second.size;
    }
