-- ===== src/Field/Linear.antt =====
-- Addition, subtraction, negation and the final reduction are those of GF(2 ^ 127 - 1).
use zkproof_demo.Base.{
  ℕ, ◌+◌, ◌-◌, ◌/◌, ◌%◌, ◌^◌, ◌<◌, ◌≤◌, ◌≡◌, ◌⊎◌, bit_and, arith, refl, inl, inr,
}
use native.Mathlib.Decide.{dec_lt}
use zkproof_demo.Base.Bits.{bit_and_mask, bit_and-zero}
use zkproof_demo.Word.{addcarry64, subborrow64, sub64}
use zkproof_demo.Word.Carry.{addcarry64_exact, subborrow64_exact}
use zkproof_demo.Field.{
  Felm, IsFelm, felm_value, prime1271, low63, fpadd1271, fpsub1271, fpneg1271, mod1271,
}

ruleset carries = (arith, addcarry64_exact, subborrow64_exact)

pub fpadd1271-IsFelm : (a b : Felm) → IsFelm a → IsFelm b → IsFelm (fpadd1271 a b)
unfolding fpadd1271
fpadd1271-IsFelm a b ha hb =
    omega (carries, bit_and_mask 63 (addcarry64 (addcarry64 0 a.lo b.lo).0 a.hi b.hi).1)

pub fpadd1271_lem :
    (a b : Felm)
    → IsFelm a
    → IsFelm b
    → felm_value (fpadd1271 a b) % prime1271 ≡ (felm_value a + felm_value b) % prime1271
unfolding fpadd1271
fpadd1271_lem a b ha hb =
    omega (carries, bit_and_mask 63 (addcarry64 (addcarry64 0 a.lo b.lo).0 a.hi b.hi).1)

pub fpsub1271-IsFelm : (a b : Felm) → IsFelm a → IsFelm b → IsFelm (fpsub1271 a b)
unfolding fpsub1271
fpsub1271-IsFelm a b ha hb =
    omega (carries, bit_and_mask 63 (subborrow64 (subborrow64 0 a.lo b.lo).0 a.hi b.hi).1)

pub fpsub1271_lem :
    (a b : Felm)
    → IsFelm a
    → IsFelm b
    → (felm_value (fpsub1271 a b) + felm_value b) % prime1271 ≡ felm_value a % prime1271
unfolding fpsub1271
fpsub1271_lem a b ha hb =
    omega (carries, bit_and_mask 63 (subborrow64 (subborrow64 0 a.lo b.lo).0 a.hi b.hi).1)

pub fpneg1271-IsFelm : (a : Felm) → IsFelm a → IsFelm (fpneg1271 a)
unfolding fpneg1271
fpneg1271-IsFelm a ha = omega arith

pub fpneg1271_lem : (a : Felm) → IsFelm a → felm_value (fpneg1271 a) + felm_value a ≡ prime1271
unfolding fpneg1271
fpneg1271_lem a ha = omega arith

-- The mask of `mod1271` is all ones after a borrow, and zero after none.
mask_cases :
    (t : ℕ)
    → t < 2 ^ 64
    → ((t < 2 ^ 63) × (sub64 0 (t / 2 ^ 63) ≡ 0) × (bit_and low63 (sub64 0 (t / 2 ^ 63)) ≡ 0))
      ⊎ ((2 ^ 63 ≤ t)
          × (sub64 0 (t / 2 ^ 63) ≡ 2 ^ 64 - 1)
          × (bit_and low63 (sub64 0 (t / 2 ^ 63)) ≡ low63))
mask_cases t h = elim (dec_lt t (2 ^ 63)) [
  | yes p ↦ let e : sub64 0 (t / 2 ^ 63) ≡ 0 = omega arith in inl (p, e, rw (e, bit_and-zero) refl)
  | no p ↦
      let e : sub64 0 (t / 2 ^ 63) ≡ 2 ^ 64 - 1 = omega arith in inr (omega arith, e, rw e refl)
]

-- `mod1271` of an element of 127 bits is in 127 bits and its value is the residue modulo p.
pub mod1271_lem :
    (a : Felm) → IsFelm a → IsFelm (mod1271 a) × (felm_value (mod1271 a) ≡ felm_value a % prime1271)
unfolding mod1271
mod1271_lem a ha =
    let b = subborrow64 0 a.lo 0xFFFFFFFFFFFFFFFF in
    omega (carries, mask_cases (subborrow64 b.0 a.hi low63).1)
