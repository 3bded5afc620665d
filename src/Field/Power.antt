-- ===== src/Field/Power.antt =====
-- The exponentiation chains of the field: `fpexp1251` and `fpinv1271`.
use zkproof_demo.Base.{ℕ, zero, suc, ◌+◌, ◌-◌, ◌*◌, ◌%◌, ◌^◌, ◌≡◌, sym, ◌∙◌, ap, arith}
use zkproof_demo.Base.Modulo.{mul-mod, pow-add, pow-one}
use zkproof_demo.Field.{
  Felm, IsFelm, prime1271, fpmul1271, fpsqr1271, sqr_times, fpexp1251, fpinv1271,
}
use zkproof_demo.Field.Modular.{residue, mul_mod, Stands, fpmul1271-Stands, fpsqr1271-Stands}
use native.Mathlib.Nat.{pow-suc}
use mathlib.Core.Path.{subst}

-- `x` stands for the power of `a` to `e`.
pub record IsPower (a : Felm) (e : ℕ) (x : Felm) : Type 0 where
  pub stands : Stands x ((residue a ^ e) % prime1271)

module _ (a : Felm) where
  -- Powers multiply by adding their exponents.
  mul_mod-pow :
      (e f : ℕ)
      → mul_mod ((residue a ^ e) % prime1271) ((residue a ^ f) % prime1271)
        ≡ (residue a ^ (e + f)) % prime1271
  mul_mod-pow e f =
      sym (mul-mod (residue a ^ e) (residue a ^ f) prime1271)
      ∙ ap (λ t. t % prime1271) (sym (pow-add (residue a) e f))

  IsPower-fpmul1271 :
      {e f : ℕ} {x y : Felm} → IsPower a e x → IsPower a f y → IsPower a (e + f) (fpmul1271 x y)
  IsPower-fpmul1271 {e} {f} {x} {y} hx hy = record {
    stands =
        subst (Stands (fpmul1271 x y)) (mul_mod-pow e f) (fpmul1271-Stands hx.stands hy.stands);
  }

  IsPower-fpsqr1271 : {e : ℕ} {x : Felm} → IsPower a e x → IsPower a (e + e) (fpsqr1271 x)
  IsPower-fpsqr1271 {e} {x} hx = record {
    stands = subst (Stands (fpsqr1271 x)) (mul_mod-pow e e) (fpsqr1271-Stands hx.stands);
  }

  IsPower-sqr_times :
      (n : ℕ) {e : ℕ} {x : Felm} → IsPower a e x → IsPower a (2 ^ n * e) (sqr_times n x)
  unfolding sqr_times
  IsPower-sqr_times zero {e} {x} hx =
      let same : e ≡ 1 * e = omega arith in subst (λ k. IsPower a k x) same hx
  IsPower-sqr_times (suc n) {e} {x} hx =
      subst (λ k. IsPower a k (sqr_times n (fpsqr1271 x))) same
        (IsPower-sqr_times n (IsPower-fpsqr1271 hx))
    where
      same : 2 ^ n * (e + e) ≡ 2 ^ suc n * e
      same = omega (arith, ap (λ (t : ℕ). t * e) (pow-suc 2 n))

  IsPower-self : IsFelm a → IsPower a 1 a
  IsPower-self ha = record {
    stands = record { in_range = ha; same = omega (arith, pow-one (residue a)) };
  }

  -- The named steps of the chain: `t` holds the power 2 ^ n - 1.
  chain-IsPower : IsFelm a → IsPower a (2 ^ 125 - 1) (fpexp1251 a)
  unfolding fpexp1251
  chain-IsPower ha =
      let p1 = IsPower-self ha in
      let p2 = IsPower-fpmul1271 p1 (IsPower-fpsqr1271 p1) in
      let p3 = IsPower-fpmul1271 p2 (IsPower-fpsqr1271 (IsPower-fpsqr1271 p2)) in
      let p4 =
        IsPower-fpmul1271 p3
          (IsPower-fpsqr1271 (IsPower-fpsqr1271 (IsPower-fpsqr1271 (IsPower-fpsqr1271 p3)))) in
      let p5 = IsPower-fpmul1271 p4 (IsPower-sqr_times 7 (IsPower-fpsqr1271 p4)) in
      let p6 = IsPower-fpmul1271 p5 (IsPower-sqr_times 15 (IsPower-fpsqr1271 p5)) in
      let p7 = IsPower-fpmul1271 p6 (IsPower-sqr_times 31 (IsPower-fpsqr1271 p6)) in
      let p8 = IsPower-fpmul1271 (IsPower-sqr_times 32 p7) p6 in
      let p9 = IsPower-fpmul1271 p5 (IsPower-sqr_times 16 p8) in
      let p10 = IsPower-fpmul1271 p4 (IsPower-sqr_times 8 p9) in
      let p11 = IsPower-fpmul1271 p3 (IsPower-sqr_times 4 p10) in
      IsPower-fpmul1271 p1 (IsPower-fpsqr1271 p11)

-- `fpexp1251` raises to the power 2 ^ 125 - 1, in 127 bits.
pub fpexp1251-IsPower : (a : Felm) → IsFelm a → IsPower a (2 ^ 125 - 1) (fpexp1251 a)
fpexp1251-IsPower a ha = chain-IsPower a ha

-- `fpinv1271` of an element of 127 bits is in 127 bits and congruent to its power p - 2.
pub fpinv1271-IsPower : (a : Felm) → IsFelm a → IsPower a (prime1271 - 2) (fpinv1271 a)
unfolding fpinv1271
fpinv1271-IsPower a ha =
    IsPower-fpmul1271 a (IsPower-self a ha)
      (IsPower-fpsqr1271 a (IsPower-fpsqr1271 a (chain-IsPower a ha)))
