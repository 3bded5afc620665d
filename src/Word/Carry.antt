-- ===== src/Word/Carry.antt =====
-- Chained addition and subtraction of words lose nothing.
use zkproof_demo.Base.{ℕ, ◌+◌, ◌*◌, ◌^◌, ◌≤◌, ◌<◌, ◌≡◌, arith}
use zkproof_demo.Word.{addcarry64, subborrow64}

-- Sum and carry of `addcarry64` make up the exact sum.
pub addcarry64_exact :
    (cin a b : ℕ)
    → cin ≤ 1
    → a < 2 ^ 64
    → b < 2 ^ 64
    → ((addcarry64 cin a b).1 + 2 ^ 64 * (addcarry64 cin a b).0 ≡ a + b + cin)
      × ((addcarry64 cin a b).1 < 2 ^ 64)
      × ((addcarry64 cin a b).0 ≤ 1)
unfolding addcarry64
addcarry64_exact cin a b hc ha hb = ground arith

-- Difference and borrow of `subborrow64` make up the exact difference.
pub subborrow64_exact :
    (bin a b : ℕ)
    → bin ≤ 1
    → a < 2 ^ 64
    → b < 2 ^ 64
    → ((subborrow64 bin a b).1 + b + bin ≡ a + 2 ^ 64 * (subborrow64 bin a b).0)
      × ((subborrow64 bin a b).1 < 2 ^ 64)
      × ((subborrow64 bin a b).0 ≤ 1)
unfolding subborrow64
subborrow64_exact bin a b hc ha hb = ground arith
