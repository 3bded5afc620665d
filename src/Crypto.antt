-- ===== src/Crypto.antt =====
-- What the fixture tools use of the crypto library: the two functions that
-- crypto/include/riscv_qubic_crypto.h declares. The tools take any value of this interface; `library`
-- is the one that they are linked with.
use zkproof_demo.Base.{ℕ, List}
use zkproof_demo.K12.{qubic_k12}
use zkproof_demo.Verify.{fourq_verify}

-- `k12` of a buffer is its digest; `verify` takes a key, a signature and a digest.
pub record Crypto : Type 0 where
  pub k12 : List ℕ → List ℕ
  pub verify : List ℕ → List ℕ → List ℕ → ℕ

abbrev pub library : Crypto
library = record { k12 = qubic_k12; verify = fourq_verify }
