-- ===== src/Keccak/Rounds.antt =====
-- The optimised rounds are those of the reference.
use zkproof_demo.Base.{ℕ, ◌≡◌, refl, List}
use zkproof_demo.Word.{rol64, andn64}
use zkproof_demo.Keccak.{
  Lanes, copy_from_state, copy_to_state, column_parity, theta_rho_pi_chi_iota,
  theta_rho_pi_chi_iota_prepare_theta, rounds12, permute_12rounds,
}
use zkproof_demo.Keccak.Reference.{round, round_constant, keccak_p}

-- One round on lanes, its parities prepared.
lanes_round : ℕ → Lanes → Lanes
lanes_round rc a = theta_rho_pi_chi_iota rc (column_parity a) a

first_round :
    (rc : ℕ) (s : List ℕ) → copy_to_state (lanes_round rc (copy_from_state s)) ≡ round rc s
unfolding lanes_round copy_to_state copy_from_state column_parity theta_rho_pi_chi_iota round rol64
    andn64
first_round rc s = refl

next_round : (rc : ℕ) (a : Lanes) → copy_to_state (lanes_round rc a) ≡ round rc (copy_to_state a)
unfolding lanes_round copy_to_state column_parity theta_rho_pi_chi_iota round rol64 andn64
next_round rc a = refl

prepared :
    (rc : ℕ) (a : Lanes)
    → theta_rho_pi_chi_iota_prepare_theta rc (column_parity a, a)
      ≡ (column_parity (lanes_round rc a), lanes_round rc a)
unfolding theta_rho_pi_chi_iota_prepare_theta lanes_round
prepared rc a = refl

fold_round : (rc : ℕ) (a : Lanes) → theta_rho_pi_chi_iota rc (column_parity a) a ≡ lanes_round rc a
unfolding lanes_round
fold_round rc a = refl

-- `KeccakP1600_Permute_12rounds` is Keccak-p[1600] of rounds 12 to 23, on every state.
pub permute_12rounds-eq-keccak_p : (s : List ℕ) → permute_12rounds s ≡ keccak_p 12 12 s
unfolding permute_12rounds rounds12 keccak_p round_constant
permute_12rounds-eq-keccak_p s = simp (prepared, fold_round, first_round, next_round)
