-- ===== src/Transaction/Accept.antt =====
-- What `tx_ok` makes of a transaction that `build_tx` built.
use zkproof_demo.Base.{
  ℕ, zero, suc, ◌+◌, ◌-◌, ◌^◌, ◌<◌, ◌≡◌, refl, ap, ◌∙◌, Bool, true, false, ◌&&◌, le→ltb, eq→==,
  List, ◌++◌, length, length-append, take, drop, replicate, arith,
}
use zkproof_demo.Crypto.{Crypto}
use zkproof_demo.Transaction.{
  put_u16, put_u32, put_u64, put_bytes, get_u16, get_u64, unsigned_tx, build_tx, zero_bytes, zero32,
  tx_ok,
}
use zkproof_demo.Transaction.Fields.{
  signed, behind, unsigned_length, split_tx, take_append, same_answer,
}
use zkproof_demo.Transaction.Numbers.{get_u16-put_u16, get_u64-put_u64}

zeros-pass : (n : ℕ) (rest : List ℕ) → zero_bytes n (replicate n 0 ++ rest) ≡ true
unfolding zero_bytes
zeros-pass zero rest = refl
zeros-pass (suc n) rest = zeros-pass n rest

and_false : (b : Bool) → b && false ≡ false
and_false true = refl
and_false false = refl

-- The answer of `tx_ok` when all checks but the last pass.
checks_pass :
    (c : Crypto) (tx : List ℕ) (n type amount : ℕ) (check_amount : Bool)
    → 144 < n + 1
    → 80 + get_u16 (drop 78 tx) + 64 ≡ n
    → get_u16 (drop 76 tx) ≡ type
    → zero32 (drop 32 tx) ≡ true
    → get_u64 (drop 64 tx) ≡ amount
    → tx_ok c tx n type amount check_amount
      ≡ c.verify (take 32 tx) (drop (n - 64) tx) (c.k12 (take (n - 64) tx))
unfolding tx_ok
checks_pass c tx n type amount check_amount long size same zeros paid =
    rw
      (
        le→ltb n 144 (omega arith),
        eq→== (80 + get_u16 (drop 78 tx) + 64) n size,
        eq→== (get_u16 (drop 76 tx)) type same,
        zeros,
        eq→== (get_u64 (drop 64 tx)) amount paid,
        and_false check_amount,
        tx_ok,
      )
      refl

module _ (c : Crypto) (sign : List ℕ → List ℕ) (pub_key : List ℕ) (amount tick input_type : ℕ)
    (input : List ℕ) where
  -- For a public key of 32 bytes, an input type and an input length of 16 bits, an amount of 64 bits
  -- and a signature of 64 bytes, every check of `tx_ok` on the transaction that `build_tx` builds
  -- passes but the last: the answer is that of `fourq_verify` on the public key, the signature and
  -- the digest that was signed.
  pub tx_ok-build_tx :
      (check_amount : Bool)
      → length pub_key ≡ 32
      → amount < 2 ^ 64
      → input_type < 2 ^ 16
      → length input < 2 ^ 16
      → length (sign (c.k12 (unsigned_tx pub_key amount tick input_type input))) ≡ 64
      → tx_ok c
          (build_tx c sign pub_key amount tick input_type input)
          (length (build_tx c sign pub_key amount tick input_type input))
          input_type
          amount
          check_amount
        ≡ c.verify pub_key
            (sign (c.k12 (unsigned_tx pub_key amount tick input_type input)))
            (c.k12 (unsigned_tx pub_key amount tick input_type input))
  unfolding build_tx zero32 put_u64 put_u32 put_u16 put_bytes
  tx_ok-build_tx check_amount hk ha ht hi hs =
      let u = unsigned_tx pub_key amount tick input_type input in
      let s = sign (c.k12 u) in
      let total = length-append u s in
      let size = unsigned_length pub_key amount tick input_type input s hk in
      let at = behind pub_key amount tick input_type input s hk in
      let ends = split_tx u s hs in
      let key =
        ap (take 32) (signed pub_key amount tick input_type input s hk)
        ∙ take_append pub_key _ 32 hk in
      checks_pass c (u ++ s) (length (u ++ s)) input_type amount check_amount (omega arith)
        (omega (arith, ap get_u16 (at 46) ∙ get_u16-put_u16 (length input) (input ++ s) hi))
        (ap get_u16 (at 44)
          ∙ get_u16-put_u16 input_type (put_u16 (length input) ++ (input ++ s)) ht)
        (ap zero32 (at 0) ∙ zeros-pass 32 _) (ap get_u64 (at 32) ∙ get_u64-put_u64 amount _ ha)
      ∙ same_answer c key ends.1 ends.0
