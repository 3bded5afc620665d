-- ===== src/Fixture/Seeds.antt =====
-- The seed files of crypto/tools/gen_fixture.c: `derive` and `read_seeds`. A file is its bytes; `exit`
-- and `die` are a result, and the stock library is a parameter.
pub mod Lines
use zkproof_demo.Base.{
  ℕ, zero, suc, ◌+◌, ◌&&◌, ◌||◌, ◌==◌, leb, Bool, true, false, if◌then◌else◌, Option, none, some,
  List, [], ◌∷◌, length,
}
use zkproof_demo.Fixture.Generate.{Key}
use zkproof_demo.Fixture.Result.{Result, ok, failed, ◌>>=◌, unless}

-- `qubic_seed_to_subseed`, and the public key of `qubic_subseed_to_keys`.
pub record Stock : Type 0 where
  pub subseed : List ℕ → Option (List ℕ)
  pub public_key : List ℕ → List ℕ

pub data SeedError : Type 0 where
  bad_seed : SeedError
  too_many_seeds : SeedError

abbrev pub key_of : Stock → Option (List ℕ) → Result SeedError Key
key_of s none = failed bad_seed
key_of s (some sub) = ok (record { sub = sub; pub_key = s.public_key sub })

unfoldable pub derive : Stock → List ℕ → Result SeedError Key
derive s seed = if length seed == 55 then key_of s (s.subseed seed) else failed bad_seed

-- `fgets` into a buffer with room for `room` bytes and the final 0: the line and the rest of the file.
unfoldable pub fgets : ℕ → List ℕ → List ℕ × List ℕ
fgets zero file = ([], file)
fgets (suc room) [] = ([], [])
fgets (suc room) (c ∷ file) =
    let more = fgets room file in if c == 10 then (c ∷ [], file) else (c ∷ more.0, more.1)

-- The bytes that `strlen` counts.
unfoldable pub c_string : List ℕ → List ℕ
c_string [] = []
c_string (c ∷ cs) = let more = c_string cs in if c == 0 then [] else c ∷ more

abbrev pub is_end : ℕ → Bool
is_end c = (c == b'\n') || (c == b'\r') || (c == b' ')

abbrev pub keep_end : ℕ → List ℕ → List ℕ
keep_end c [] = if is_end c then [] else c ∷ []
keep_end c (d ∷ ds) = c ∷ d ∷ ds

-- `while (len && ...) line[--len] = 0;`
unfoldable pub trim : List ℕ → List ℕ
trim [] = []
trim (c ∷ cs) = keep_end c (trim cs)

abbrev pub is_skipped : List ℕ → Bool
is_skipped [] = true
is_skipped (c ∷ cs) = c == b'#'

-- `while (fgets(...))`, with `n` keys so far; every line that is read takes a byte of the file.
unfoldable pub seed_loop : Stock → ℕ → ℕ → ℕ → List ℕ → Result SeedError (List Key)
seed_loop s most zero n file = ok []
seed_loop s most (suc fuel) n [] = ok []
seed_loop s most (suc fuel) n (c ∷ cs) =
    let read = fgets 511 (c ∷ cs) in
    let line = trim (c_string read.0) in
    elim (is_skipped line) [
      | true ↦ seed_loop s most fuel n read.1
      | false ↦
          unless (leb most n) too_many_seeds
            (derive s line >>= λ k. seed_loop s most fuel (n + 1) read.1 >>= λ ks. ok (k ∷ ks))
    ]

unfoldable pub read_seeds : Stock → ℕ → List ℕ → Result SeedError (List Key)
read_seeds s most file = seed_loop s most (length file) 0 file
