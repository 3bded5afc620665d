-- ===== src/Base/Table.antt =====
-- A test of all numbers below a bound, for what a byte may be.
use zkproof_demo.Base.{ℕ, zero, suc, ◌<◌, ◌≡◌, Bool, true, ◌&&◌, arith}

unfoldable pub every : (ℕ → Bool) → ℕ → Bool
every test zero = true
every test (suc bound) = every test bound && test bound

pub every-at : (test : ℕ → Bool) (bound x : ℕ) → x < bound → every test bound ≡ true → test x ≡ true
unfolding every
every-at test (suc bound) x below passed = ground (arith, every-at test bound x)
every-at test zero x below passed = absurd (omega arith)
