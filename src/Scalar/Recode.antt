-- ===== src/Scalar/Recode.antt =====
-- `wNAF_recode` of crypto/src/riscv_fourq_verify.c. The digits are in the order in which they are
-- written, that of their weights.
pub mod Digits
pub mod Round
pub mod Loop
use zkproof_demo.Base.{
  ℕ, zero, suc, ◌+◌, ◌-◌, ◌%◌, ◌^◌, bit_and, true, false, ◌==◌, ltb, if◌then◌else◌, List, [], ◌∷◌,
  ◌++◌, length, replicate,
}
use zkproof_demo.Word.{◌>>>◌}

-- A `signed char`: `pos n` is n and `negsuc n` is -(n + 1).
pub data ℤ : Type 0 where
  pos : ℕ → ℤ
  negsuc : ℕ → ℤ

-- `(char)digit`, stored in a `signed char`.
unfoldable pub as_char : ℤ → ℤ
as_char (pos n) = let b = n % 256 in if ltb b 128 then pos b else negsuc (255 - b)
as_char (negsuc n) = let b = n % 256 in if ltb b 128 then negsuc b else pos (255 - b)

-- The digit of an odd scalar: its low `w` bits, brought into the range around 0.
unfoldable pub odd_digit : ℕ → ℕ → ℤ
odd_digit w scalar =
    let digit = bit_and scalar (2 ^ w - 1) in
    as_char (if ltb (2 ^ (w - 1) - 1) digit then negsuc (2 ^ w - digit - 1) else pos digit)

-- The scalar that is left: what the digit takes too much is given back.
unfoldable pub odd_rest : ℕ → ℕ → ℕ
odd_rest w scalar =
    let digit = bit_and scalar (2 ^ w - 1) in
    if ltb (2 ^ (w - 1) - 1) digit then (scalar >>> w) + 1 else scalar >>> w

-- `while (scalar)`; `fuel` bounds the rounds.
unfoldable pub recode_loop : ℕ → ℕ → ℕ → List ℤ
recode_loop zero w scalar = []
recode_loop (suc fuel) w scalar = elim (scalar == 0) [
  | true ↦ []
  | false ↦ elim (bit_and scalar 1 == 0) [
    | true ↦ pos 0 ∷ recode_loop fuel w (scalar >>> 1)
    | false ↦
        odd_digit w scalar ∷ (if odd_rest w scalar == 0 then [] else replicate (w - 1) (pos 0))
        ++ recode_loop fuel w (odd_rest w scalar)
  ]
]

-- Every round writes a digit, and 65 digits have room; the rest of the array is zeroed.
unfoldable pub wnaf_recode : ℕ → ℕ → List ℤ
wnaf_recode scalar w =
    let digits = recode_loop 65 w scalar in digits ++ replicate (65 - length digits) (pos 0)
