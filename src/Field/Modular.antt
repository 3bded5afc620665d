-- ===== src/Field/Modular.antt =====
-- GF(2 ^ 127 - 1) as residues, and the relation by which limbs stand for one.
use zkproof_demo.Base.{ℕ, ◌+◌, ◌-◌, ◌*◌, ◌%◌, ◌≡◌, refl, ap₂, ◌∙◌, arith}
use zkproof_demo.Base.Modulo.{mul-mod}
use zkproof_demo.Field.{
  Felm, IsFelm, felm_value, prime1271, fpadd1271, fpsub1271, fpneg1271, fpmul1271, fpsqr1271,
}
use zkproof_demo.Field.Linear.{
  fpadd1271-IsFelm, fpadd1271_lem, fpsub1271-IsFelm, fpsub1271_lem, fpneg1271-IsFelm, fpneg1271_lem,
}
use zkproof_demo.Field.Multiply.{fpmul1271_lem, fpsqr1271_lem}

abbrev pub residue : Felm → ℕ
residue a = felm_value a % prime1271

abbrev pub add_mod : ℕ → ℕ → ℕ
add_mod x y = (x + y) % prime1271

abbrev pub sub_mod : ℕ → ℕ → ℕ
sub_mod x y = (x + (prime1271 - y)) % prime1271

abbrev pub mul_mod : ℕ → ℕ → ℕ
mul_mod x y = (x * y) % prime1271

abbrev pub neg_mod : ℕ → ℕ
neg_mod x = (prime1271 - x) % prime1271

-- `a` is in range and of residue `r`.
pub record Stands (a : Felm) (r : ℕ) : Type 0 where
  pub in_range : IsFelm a
  pub same : residue a ≡ r

pub Stands-self : (a : Felm) → IsFelm a → Stands a (residue a)
Stands-self a ha = record { in_range = ha; same = refl }

module _ {a b : Felm} {r s : ℕ} (ha : Stands a r) (hb : Stands b s) where
  pub fpadd1271-Stands : Stands (fpadd1271 a b) (add_mod r s)
  fpadd1271-Stands = record {
    in_range = fpadd1271-IsFelm a b ha.in_range hb.in_range;
    same = omega (arith, ha.same, hb.same, fpadd1271_lem a b ha.in_range hb.in_range);
  }

  pub fpsub1271-Stands : Stands (fpsub1271 a b) (sub_mod r s)
  fpsub1271-Stands = record {
    in_range = fpsub1271-IsFelm a b ha.in_range hb.in_range;
    same = omega (arith, ha.same, hb.same, fpsub1271_lem a b ha.in_range hb.in_range);
  }

  pub fpmul1271-Stands : Stands (fpmul1271 a b) (mul_mod r s)
  fpmul1271-Stands = record {
    in_range = (fpmul1271_lem a b ha.in_range hb.in_range).0;
    same =
        (fpmul1271_lem a b ha.in_range hb.in_range).1
        ∙ mul-mod (felm_value a) (felm_value b) prime1271
        ∙ ap₂ mul_mod ha.same hb.same;
  }

module _ {a : Felm} {r : ℕ} (ha : Stands a r) where
  pub fpsqr1271-Stands : Stands (fpsqr1271 a) (mul_mod r r)
  fpsqr1271-Stands = record {
    in_range = (fpsqr1271_lem a ha.in_range).0;
    same =
        (fpsqr1271_lem a ha.in_range).1
        ∙ mul-mod (felm_value a) (felm_value a) prime1271
        ∙ ap₂ mul_mod ha.same ha.same;
  }

  pub fpneg1271-Stands : Stands (fpneg1271 a) (neg_mod r)
  fpneg1271-Stands = record {
    in_range = fpneg1271-IsFelm a ha.in_range;
    same = omega (arith, ha.same, fpneg1271_lem a ha.in_range);
  }

pub ruleset field_rules =
    (fpadd1271-Stands, fpsub1271-Stands, fpmul1271-Stands, fpsqr1271-Stands, fpneg1271-Stands)
