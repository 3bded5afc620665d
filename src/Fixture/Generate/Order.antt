-- ===== src/Fixture/Generate/Order.antt =====
-- The order of the commits is an order of all computors, shuffled or not.
use zkproof_demo.Base.{
  ℕ, zero, suc, ◌+◌, ◌%◌, ◌≤◌, ◌<◌, ◌≡◌, refl, ap, ◌∙◌, Bool, true, false, List, [], ◌∷◌, length,
  length-set, get_or, set, arith,
}
use native.Mathlib.Bridge.{le_prop}
use mathlib.Core.Logic.Or
use mathlib.Core.List.{Perm, Mem, Nodup, Nodup-nil, Nodup-cons, not-mem-nil, mem-cons}
use mathlib.Core.List.Perm
use zkproof_demo.Fixture.{num_computors}
use zkproof_demo.Fixture.Generate.{next_random, swap, file_order, shuffle_loop, commit_order}

-- Setting a place of `xs` puts `v` in and takes out what stood there.
exchange : (xs : List ℕ) (i v : ℕ) → i < length xs → Perm (get_or xs i 0 ∷ set xs i v) (v ∷ xs)
exchange [] i v h = absurd (omega arith)
exchange (x ∷ xs) zero v h = Perm.swap v x xs
exchange (x ∷ xs) (suc i) v h =
    let inner = exchange xs i v (omega arith) in
    Perm.trans (Perm.swap x _ _) (Perm.trans (Perm.cons x inner) (Perm.swap v x xs))

get_or-set_same :
    (xs : List ℕ) (i j : ℕ) → j < length xs → get_or (set xs i (get_or xs j 0)) j 0 ≡ get_or xs j 0
get_or-set_same [] i j h = refl
get_or-set_same (x ∷ xs) zero zero h = refl
get_or-set_same (x ∷ xs) zero (suc j) h = refl
get_or-set_same (x ∷ xs) (suc i) zero h = refl
get_or-set_same (x ∷ xs) (suc i) (suc j) h = get_or-set_same xs i j (omega arith)

swap-perm : (xs : List ℕ) (i j : ℕ) → i < length xs → j < length xs → Perm (swap xs i j) xs
unfolding swap
swap-perm xs i j hi hj =
    let ys = set xs i (get_or xs j 0) in
    let outer = exchange ys j (get_or xs i 0) (omega (arith, length-set xs i (get_or xs j 0))) in
    let outer' = rw (get_or-set_same xs i j hj) at outer in
    Perm.cons_inv (Perm.trans outer' (exchange xs i (get_or xs j 0) hi))

length-swap : (xs : List ℕ) (i j : ℕ) → length (swap xs i j) ≡ length xs
unfolding swap
length-swap xs i j = length-set _ j _ ∙ length-set xs i _

shuffle_loop-perm :
    (i x : ℕ) (order : List ℕ) → i < length order → Perm (shuffle_loop i x order) order
unfolding shuffle_loop
shuffle_loop-perm zero x order h = Perm.refl order
shuffle_loop-perm (suc i) x order h =
    let j = next_random x % (suc i + 1) in
    Perm.trans
      (shuffle_loop-perm i (next_random x) (swap order (suc i) j)
        (omega (arith, length-swap order (suc i) j)))
      (swap-perm order (suc i) j h (omega arith))

length-shuffle_loop : (i x : ℕ) (order : List ℕ) → length (shuffle_loop i x order) ≡ length order
unfolding shuffle_loop
length-shuffle_loop zero x order = refl
length-shuffle_loop (suc i) x order =
    length-shuffle_loop i (next_random x) _
    ∙ length-swap order (suc i) (next_random x % (suc i + 1))

length-file_order : (n i : ℕ) → length (file_order n i) ≡ n
unfolding file_order
length-file_order zero i = refl
length-file_order (suc n) i = ap suc (length-file_order n (i + 1))

-- For either choice, the order holds each computor of the packet once.
pub commit_order-perm : (shuffle : Bool) → Perm (commit_order shuffle) (file_order num_computors 0)
unfolding commit_order
commit_order-perm false = Perm.refl _
commit_order-perm true =
    shuffle_loop-perm 675 0x9e3779b97f4a7c15 (file_order num_computors 0)
      (omega (arith, length-file_order num_computors 0))

mem-file_order : (n i : ℕ) {a : ℕ} → Mem a (file_order n i) → (i ≤ a) × (a < i + n)
unfolding file_order
mem-file_order zero i m = absurd (not-mem-nil m)
mem-file_order (suc n) i m = (
  Or.elim le_prop (mem-cons.0 m) (λ e. omega arith)
      (λ later. omega (arith, mem-file_order n (i + 1) later)),
  Or.elim le_prop (mem-cons.0 m) (λ e. omega arith)
      (λ later. omega (arith, mem-file_order n (i + 1) later)),
)

Nodup-file_order : (n i : ℕ) → Nodup (file_order n i)
unfolding file_order
Nodup-file_order zero i = Nodup-nil
Nodup-file_order (suc n) i =
    Nodup-cons.1 ((λ m. omega (arith, mem-file_order n (i + 1) m)), Nodup-file_order n (i + 1))

pub Nodup-commit_order : (shuffle : Bool) → Nodup (commit_order shuffle)
Nodup-commit_order shuffle =
    Perm.nodup (Perm.symm (commit_order-perm shuffle)) (Nodup-file_order num_computors 0)

pub mem-commit_order : (shuffle : Bool) {a : ℕ} → Mem a (commit_order shuffle) → a < num_computors
mem-commit_order shuffle m =
    (mem-file_order num_computors 0 (Perm.subset (commit_order-perm shuffle) _ m)).1

pub length-commit_order : (shuffle : Bool) → length (commit_order shuffle) ≡ num_computors
unfolding commit_order
length-commit_order false = length-file_order num_computors 0
length-commit_order true =
    length-shuffle_loop 675 0x9e3779b97f4a7c15 _ ∙ length-file_order num_computors 0
