-- ===== src/Tests/Seeds.antt =====
-- A seed file of a comment, two seeds and an empty line between them.
use zkproof_demo.Base.{ℕ, zero, suc, ◌≡◌, refl, some, List, [], ◌∷◌, ◌++◌, replicate, take, arith}
use zkproof_demo.Fixture.Generate.{Key}
use zkproof_demo.Fixture.Result.{ok, failed}
use zkproof_demo.Fixture.Seeds.{
  Stock, bad_seed, too_many_seeds, derive, fgets, c_string, trim, seed_loop, read_seeds,
}
use zkproof_demo.Fixture.Seeds.Lines.{
  IsLetter, AllBytes, no_bytes, one_byte, HasSeeds, no_lines, empty_line, comment_line, seed_line,
  read_seeds-HasSeeds,
}

-- A stock library whose subseed is the front of the seed.
abbrev front_stock : Stock
front_stock = record { subseed = λ seed. some (take 32 seed); public_key = λ sub. sub }

letters-AllBytes : (n c : ℕ) → IsLetter c → AllBytes IsLetter (replicate n c)
letters-AllBytes zero c h = no_bytes
letters-AllBytes (suc n) c h = one_byte h (letters-AllBytes n c h)

abbrev seed_a : List ℕ
seed_a = replicate 55 b'a'

abbrev seed_b : List ℕ
seed_b = replicate 55 b'b'

abbrev two_seeds : List ℕ
two_seeds = b'#' ∷ b'x' ∷ 10 ∷ seed_a ++ 10 ∷ 10 ∷ seed_b ++ 10 ∷ []

abbrev two_keys : List Key
two_keys =
    record { sub = replicate 32 b'a'; pub_key = replicate 32 b'a' }
    ∷ record { sub = replicate 32 b'b'; pub_key = replicate 32 b'b' }
    ∷ []

two_seeds-HasSeeds : HasSeeds front_stock two_seeds two_keys
two_seeds-HasSeeds =
    comment_line {text = b'x' ∷ []} (one_byte (λ e. omega arith, λ e. omega arith) no_bytes)
      (omega arith)
      (seed_line {seed = seed_a} (letters-AllBytes 55 b'a' (omega arith, omega arith)) refl refl (
        empty_line (
          seed_line {seed = seed_b} (letters-AllBytes 55 b'b' (omega arith, omega arith)) refl refl
            no_lines)))

read_seeds-HasSeeds_example : read_seeds front_stock 676 two_seeds ≡ ok two_keys
read_seeds-HasSeeds_example = read_seeds-HasSeeds front_stock 676 two_seeds-HasSeeds

-- The same file where one seed is asked for, and a line that is no seed.
one_seed_only : read_seeds front_stock 1 two_seeds ≡ failed too_many_seeds
unfolding read_seeds seed_loop fgets c_string trim derive
one_seed_only = refl

short_seed : read_seeds front_stock 676 (b'a' ∷ 10 ∷ []) ≡ failed bad_seed
unfolding read_seeds seed_loop fgets c_string trim derive
short_seed = refl
