-- ===== src/Base/Bits/Xor.antt =====
-- `^` of C: associative, commutative, its own inverse, a sum on disjoint fields, and within the width.
use zkproof_demo.Base.{
  ℕ, zero, suc, ◌+◌, ◌*◌, ◌/◌, ◌%◌, ◌^◌, ◌<◌, ◌≤◌, bit_xor, ◌≡◌, refl, ap, arith,
}
use zkproof_demo.Base.Bits.Step.{bit_xor_step}
use native.Mathlib.Nat.{pow-suc}
use Prim.Native.Nat.{bit_xor-bitwise}

-- The digits above and at the lowest place.
xor_digits :
    (a b : ℕ)
    → (bit_xor a b / 2 ≡ bit_xor (a / 2) (b / 2)) × (bit_xor a b % 2 ≡ (a % 2 + b % 2) % 2)
xor_digits a b = omega (arith, bit_xor_step a b)

-- Each law goes from the halves to the numbers; `n` bounds them.
assoc_below :
    (n a b c : ℕ) → a ≤ n → b ≤ n → c ≤ n → bit_xor (bit_xor a b) c ≡ bit_xor a (bit_xor b c)
assoc_below zero zero zero zero ha hb hc = refl
assoc_below zero zero zero (suc c) ha hb hc = absurd (omega arith)
assoc_below zero zero (suc b) c ha hb hc = absurd (omega arith)
assoc_below zero (suc a) b c ha hb hc = absurd (omega arith)
assoc_below (suc n) a b c ha hb hc = ground (
  arith,
  bit_xor_step (bit_xor a b) c,
  xor_digits a b,
  xor_digits b c,
  bit_xor_step a (bit_xor b c),
  assoc_below n (a / 2) (b / 2) (c / 2) (omega arith) (omega arith) (omega arith),
)

pub bit_xor_assoc : (a b c : ℕ) → bit_xor (bit_xor a b) c ≡ bit_xor a (bit_xor b c)
bit_xor_assoc a b c = assoc_below (a + b + c) a b c (omega arith) (omega arith) (omega arith)

comm_below : (n a b : ℕ) → a ≤ n → b ≤ n → bit_xor a b ≡ bit_xor b a
comm_below zero zero zero ha hb = refl
comm_below zero zero (suc b) ha hb = absurd (omega arith)
comm_below zero (suc a) b ha hb = absurd (omega arith)
comm_below (suc n) a b ha hb = omega (
  arith,
  bit_xor_step a b,
  bit_xor_step b a,
  comm_below n (a / 2) (b / 2) (omega arith) (omega arith),
)

pub bit_xor_comm : (a b : ℕ) → bit_xor a b ≡ bit_xor b a
bit_xor_comm a b = comm_below (a + b) a b (omega arith) (omega arith)

self_below : (n a : ℕ) → a ≤ n → bit_xor a a ≡ 0
self_below zero zero h = refl
self_below zero (suc a) h = absurd (omega arith)
self_below (suc n) a h = omega (arith, bit_xor_step a a, self_below n (a / 2) (omega arith))

pub bit_xor_self : (a : ℕ) → bit_xor a a ≡ 0
bit_xor_self a = self_below a a (omega arith)

pub zero-bit_xor : (a : ℕ) → bit_xor 0 a ≡ a
zero-bit_xor a = bit_xor-bitwise 0 a

-- `r ^ (q << k)` is a sum when `r` fits `k` bits.
pub bit_xor_low : (k q r : ℕ) → r < 2 ^ k → bit_xor r (q * 2 ^ k) ≡ q * 2 ^ k + r
bit_xor_low zero q r fits = let e : r ≡ 0 = omega arith in rw (e, zero-bit_xor) (omega arith)
bit_xor_low (suc k) q r fits = ground (
  arith,
  bit_xor_step r (q * 2 ^ suc k),
  ap (λ (t : ℕ). q * t) (pow-suc 2 k),
  pow-suc 2 k,
  bit_xor_low k q (r / 2) (omega (arith, pow-suc 2 k)),
)

pub bit_xor-lt : (k a b : ℕ) → a < 2 ^ k → b < 2 ^ k → bit_xor a b < 2 ^ k
bit_xor-lt zero zero zero ha hb = omega arith
bit_xor-lt zero zero (suc b) ha hb = absurd (omega arith)
bit_xor-lt zero (suc a) b ha hb = absurd (omega arith)
bit_xor-lt (suc k) a b ha hb = omega (
  arith,
  bit_xor_step a b,
  pow-suc 2 k,
  bit_xor-lt k (a / 2) (b / 2) (omega (arith, pow-suc 2 k)) (omega (arith, pow-suc 2 k)),
)
