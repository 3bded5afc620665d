-- ===== src/Tests/Arithmetic.antt =====
-- Words and fields: crypto/src/riscv_fourq_verify.c from `umul128` to `fpinv1271`.
use zkproof_demo.Base.{◌+◌, ◌-◌, ◌*◌, ◌%◌, ◌^◌, ◌<◌, ◌≡◌, refl, arith}
use zkproof_demo.Word.{umul128, addcarry64, shiftright128, shiftleft128}
use zkproof_demo.Word.Product.{umul128_exact}
use zkproof_demo.Field.{
  Felm, IsFelm, felm_value, prime1271, mod1271, fpmul1271, fpsqr1271, fpexp1251, fpinv1271,
  fold_product, sqr_times,
}
use zkproof_demo.Field.Linear.{mod1271_lem}
use zkproof_demo.Field.Multiply.{fpmul1271_lem, fpsqr1271_lem}
use zkproof_demo.Field.Modular.{Stands-self, residue}
use zkproof_demo.Field.Power.{IsPower, fpinv1271-IsPower}
use zkproof_demo.Quadratic.{F2elm, fp2sqr1271, fp2mul1271}
use zkproof_demo.Quadratic.Laws.{Fp2, Stands2, mul2, fp2sqr1271-Stands2, fp2mul1271-Stands2}

umul128_max : umul128 0xFFFFFFFFFFFFFFFF 0xFFFFFFFFFFFFFFFF ≡ (1, 0xFFFFFFFFFFFFFFFE)
unfolding umul128
umul128_max = refl

umul128_exact_example :
    ((umul128 (2 ^ 63) 6).0 + 2 ^ 64 * (umul128 (2 ^ 63) 6).1 ≡ 2 ^ 63 * 6)
    × ((umul128 (2 ^ 63) 6).0 < 2 ^ 64)
    × ((umul128 (2 ^ 63) 6).1 < 2 ^ 64)
umul128_exact_example = umul128_exact (2 ^ 63) 6 (omega arith) (omega arith)

abbrev two : Felm
two = record { lo = 2; hi = 0 }

abbrev top : Felm
top = record { lo = 0xFFFFFFFFFFFFFFFE; hi = 0x7FFFFFFFFFFFFFFF }

abbrev full : Felm
full = record { lo = 0xFFFFFFFFFFFFFFFF; hi = 0x7FFFFFFFFFFFFFFF }

top-IsFelm : IsFelm top
top-IsFelm = omega arith

inverse_of_two : fpinv1271 two ≡ record { lo = 0; hi = 2 ^ 62 }
unfolding fpinv1271 fpexp1251 sqr_times fpmul1271 fpsqr1271 fold_product addcarry64 umul128
    shiftright128 shiftleft128
inverse_of_two = refl

mod1271_lem_example :
    IsFelm (mod1271 full) × (felm_value (mod1271 full) ≡ felm_value full % prime1271)
mod1271_lem_example = mod1271_lem full (omega arith)

fpmul1271_lem_example :
    IsFelm (fpmul1271 top two)
    × (felm_value (fpmul1271 top two) % prime1271 ≡ felm_value top * felm_value two % prime1271)
fpmul1271_lem_example = fpmul1271_lem top two top-IsFelm (omega arith)

fpsqr1271_lem_example :
    IsFelm (fpsqr1271 top)
    × (felm_value (fpsqr1271 top) % prime1271 ≡ felm_value top * felm_value top % prime1271)
fpsqr1271_lem_example = fpsqr1271_lem top top-IsFelm

fpinv1271-IsPower_example : IsPower two (prime1271 - 2) (fpinv1271 two)
fpinv1271-IsPower_example = fpinv1271-IsPower two (omega arith)

-- 2 + 2 ^ 127 - 2 times i
abbrev mixed : F2elm
mixed = record { c0 = two; c1 = top }

abbrev mixed_value : Fp2
mixed_value = record { re = residue two; im = residue top }

mixed-Stands2 : Stands2 mixed mixed_value
mixed-Stands2 = record {
  c0_stands = Stands-self two (omega arith);
  c1_stands = Stands-self top top-IsFelm;
}

fp2mul1271-Stands2_example : Stands2 (fp2mul1271 mixed mixed) (mul2 mixed_value mixed_value)
fp2mul1271-Stands2_example = fp2mul1271-Stands2 mixed-Stands2 mixed-Stands2

fp2sqr1271-Stands2_example : Stands2 (fp2sqr1271 mixed) (mul2 mixed_value mixed_value)
fp2sqr1271-Stands2_example = fp2sqr1271-Stands2 mixed-Stands2
