-- ===== src/Tests/Hashing.antt =====
-- The permutation, the sponge and the hash of crypto/src/riscv_fourq_verify.c, with the answers that
-- crypto/tests/check_k12.c expects.
use zkproof_demo.Base.{ℕ, ◌≡◌, refl, List, [], ◌∷◌, ◌++◌, arith}
use zkproof_demo.Keccak.{permute_12rounds}
use zkproof_demo.Keccak.Reference.{keccak_p}
use zkproof_demo.Keccak.Rounds.{permute_12rounds-eq-keccak_p}
use zkproof_demo.Sponge.{zero_node, absorb}
use zkproof_demo.Sponge.Feed.{feed_all}
use zkproof_demo.Sponge.Absorb.{absorb-eq-feed_all}
use zkproof_demo.K12.{encbuf, kangaroo_twelve}
use zkproof_demo.K12.Tree.{k12, right_encode}
use zkproof_demo.K12.Encode.{encbuf-eq-right_encode}
use zkproof_demo.K12.Root.{kangaroo_twelve-eq-k12}

abbrev message : List ℕ
message = 72 ∷ 101 ∷ 108 ∷ 108 ∷ 111 ∷ []

permute_12rounds-eq-keccak_p_example : permute_12rounds message ≡ keccak_p 12 12 message
permute_12rounds-eq-keccak_p_example = permute_12rounds-eq-keccak_p message

absorb-eq-feed_all_example : absorb zero_node message ≡ feed_all zero_node message
absorb-eq-feed_all_example =
    absorb-eq-feed_all zero_node message (record { lanes = refl; in_block = omega arith })
      (omega arith)

kangaroo_twelve-eq-k12_example : kangaroo_twelve message 32 ≡ k12 message 32
kangaroo_twelve-eq-k12_example = kangaroo_twelve-eq-k12 message 32 (omega arith) (omega arith)

encbuf-eq-right_encode_example : encbuf 256 ≡ right_encode 256 ++ (0xFF ∷ 0xFF ∷ [])
encbuf-eq-right_encode_example = encbuf-eq-right_encode 256 (omega arith)
