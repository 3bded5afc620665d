-- ===== src/Keccak/Constants.antt =====
-- `KeccakF1600RoundConstant0` to `KeccakF1600RoundConstant10` of crypto/src/riscv_fourq_verify.c.
use zkproof_demo.Base.{ℕ}

abbrev pub round_constant_0 : ℕ
round_constant_0 = 0x000000008000808b

abbrev pub round_constant_1 : ℕ
round_constant_1 = 0x800000000000008b

abbrev pub round_constant_2 : ℕ
round_constant_2 = 0x8000000000008089

abbrev pub round_constant_3 : ℕ
round_constant_3 = 0x8000000000008003

abbrev pub round_constant_4 : ℕ
round_constant_4 = 0x8000000000008002

abbrev pub round_constant_5 : ℕ
round_constant_5 = 0x8000000000000080

abbrev pub round_constant_6 : ℕ
round_constant_6 = 0x000000000000800a

abbrev pub round_constant_7 : ℕ
round_constant_7 = 0x800000008000000a

abbrev pub round_constant_8 : ℕ
round_constant_8 = 0x8000000080008081

abbrev pub round_constant_9 : ℕ
round_constant_9 = 0x8000000000008080

abbrev pub round_constant_10 : ℕ
round_constant_10 = 0x0000000080000001
