-- ===== src/Fixture/Result.antt =====
-- The outcome of a tool that stops at its first failure, and how a success is taken apart.
use zkproof_demo.Base.{◌≡◌, refl, Bool, true, false}

pub data Result {ℓ} (E : Type 0) (A : Type ℓ) : Type ℓ where
  ok : A → Result E A
  failed : E → Result E A

infixl 5 ◌>>=◌
abbrev pub ◌>>=◌ {ℓ κ} :
    {E : Type 0} {A : Type ℓ} {B : Type κ} → Result E A → (A → Result E B) → Result E B
ok a >>= f = f a
failed e >>= f = failed e

-- `if (b) fail(e);` and what follows it
abbrev pub unless {ℓ} : {E : Type 0} {A : Type ℓ} → Bool → E → Result E A → Result E A
unless true e r = failed e
unless false e r = r

module _ {ℓ} {E : Type 0} {A : Type ℓ} where
  -- A conclusion is drawn from the parts of a success.
  pub >>=-elim {κ μ} :
      {B : Type κ} {C : Type μ} (m : Result E A) (g : A → Result E B) {b : B}
      → (m >>= g) ≡ ok b
      → ((a : A) → m ≡ ok a → g a ≡ ok b → C)
      → C
  >>=-elim (ok a) g h k = k a refl h
  >>=-elim (failed e) g h k = absurd (cc)

  pub unless-eq-ok :
      (b : Bool) (e : E) (r : Result E A) {a : A} → unless b e r ≡ ok a → (b ≡ false) × (r ≡ ok a)
  unless-eq-ok true e r h = cc
  unless-eq-ok false e r h = (refl, h)

  pub unless-elim {μ} :
      {C : Type μ} (b : Bool) (e : E) (r : Result E A) {a : A}
      → unless b e r ≡ ok a
      → (b ≡ false → r ≡ ok a → C)
      → C
  unless-elim true e r h k = absurd (cc)
  unless-elim false e r h k = k refl h
