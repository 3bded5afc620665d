-- ===== src/Tests/Transactions.antt =====
-- Transactions of crypto/tools/gen_fixture.c with a short input.
use zkproof_demo.Base.{ℕ, ◌≡◌, refl, true, List, [], ◌∷◌, ◌++◌, length, replicate, arith}
use zkproof_demo.K12.{qubic_k12}
use zkproof_demo.Verify.{fourq_verify}
use zkproof_demo.Crypto.{library}
use zkproof_demo.Transaction.{unsigned_tx, build_tx, tx_ok, put_u64, get_u64}
use zkproof_demo.Transaction.Accept.{tx_ok-build_tx}
use zkproof_demo.Transaction.Numbers.{get_u64-put_u64}

abbrev key : List ℕ
key = replicate 32 1

abbrev query : List ℕ
query = 1 ∷ 2 ∷ []

abbrev no_sign : List ℕ → List ℕ
no_sign d = replicate 64 0

tx_ok-build_tx_example :
    tx_ok library
      (build_tx library no_sign key 7 5 6 query)
      (length (build_tx library no_sign key 7 5 6 query))
      6
      7
      true
    ≡ fourq_verify key (replicate 64 0) (qubic_k12 (unsigned_tx key 7 5 6 query))
tx_ok-build_tx_example =
    tx_ok-build_tx library no_sign key 7 5 6 query true refl (omega arith) (omega arith)
      (omega arith) refl

get_u64-put_u64_example : get_u64 (put_u64 0x123456789abcdef ++ query) ≡ 0x123456789abcdef
get_u64-put_u64_example = get_u64-put_u64 0x123456789abcdef query (omega arith)
