-- ===== src/Fixture/Distinct.antt =====
-- The places of a list with no duplicates, and the marks of those that are seen.
use zkproof_demo.Base.{
  ℕ, zero, suc, ◌<◌, ◌≡◌, refl, ap, List, [], ◌∷◌, length, get_or, set, replicate, arith,
}
use mathlib.Core.List.{Mem, Nodup, Nodup-cons, mem-cons_self, mem-cons_of_mem}
use mathlib.Core.Path.{subst}

pub mem-get_or : (xs : List ℕ) (i : ℕ) → i < length xs → Mem (get_or xs i 0) xs
mem-get_or [] i h = absurd (omega arith)
mem-get_or (x ∷ xs) zero h = mem-cons_self
mem-get_or (x ∷ xs) (suc i) h = mem-cons_of_mem x (mem-get_or xs i (omega arith))

pub Nodup-get_or :
    (xs : List ℕ) (i j : ℕ) → Nodup xs → i < j → j < length xs → get_or xs j 0 ≡ get_or xs i 0 → ⊥
Nodup-get_or [] i j h below inside same = absurd (omega arith)
Nodup-get_or (x ∷ xs) i zero h below inside same = absurd (omega arith)
Nodup-get_or (x ∷ xs) zero (suc j) h below inside same =
    (Nodup-cons.0 h).0 (subst (λ t. Mem t xs) same (mem-get_or xs j (omega arith)))
Nodup-get_or (x ∷ xs) (suc i) (suc j) h below inside same =
    Nodup-get_or xs i j (Nodup-cons.0 h).1 (omega arith) (omega arith) same

pub get_or-set_ne :
    (xs : List ℕ) (i j v : ℕ) → (j ≡ i → ⊥) → get_or (set xs i v) j 0 ≡ get_or xs j 0
get_or-set_ne [] i j v h = refl
get_or-set_ne (x ∷ xs) zero zero v h = absurd (h refl)
get_or-set_ne (x ∷ xs) zero (suc j) v h = refl
get_or-set_ne (x ∷ xs) (suc i) zero v h = refl
get_or-set_ne (x ∷ xs) (suc i) (suc j) v h = get_or-set_ne xs i j v (λ e. h (ap suc e))

pub get_or-replicate : (n i : ℕ) → get_or (replicate {A = ℕ} n 0) i 0 ≡ 0
get_or-replicate zero i = refl
get_or-replicate (suc n) zero = refl
get_or-replicate (suc n) (suc i) = get_or-replicate n i
