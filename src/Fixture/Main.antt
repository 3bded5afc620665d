-- ===== src/Fixture/Main.antt =====
-- `main` of crypto/tools/gen_fixture.c, from the command line to the bytes of the file. The files are
-- a parameter.
use zkproof_demo.Base.{ℕ, ◌==◌, not, Bool, Option, none, some, List, length, get_or}
use zkproof_demo.Crypto.{Crypto}
use zkproof_demo.Fixture.{num_computors}
use zkproof_demo.Fixture.Result.{Result, ok, failed, ◌>>=◌, unless}
use zkproof_demo.Fixture.Generate.{
  Refusal, few_seeds, Key, no_key, Sign, check_options, gen_fixture,
}
use zkproof_demo.Fixture.Seeds.{Stock, SeedError, derive, read_seeds}
use zkproof_demo.Fixture.Arguments.{ArgumentError, read_arguments}

pub data MainError : Type 0 where
  bad_arguments : ArgumentError → MainError
  refused : Refusal → MainError
  bad_seeds : SeedError → MainError
  no_file no_arbitrator not_written : MainError

-- What `fopen` finds at a path that is read, and whether `fopen` and `fclose` succeed on a path and the
-- bytes that are written to it.
pub record Files : Type 0 where
  pub open_file : List ℕ → Option (List ℕ)
  pub writes : List ℕ → List ℕ → Bool

-- A failure of a part, as a failure of the whole.
abbrev pub as_failure {ℓ} :
    {E : Type 0} {A : Type ℓ} → (E → MainError) → Result E A → Result MainError A
as_failure f (ok a) = ok a
as_failure f (failed e) = failed (f e)

-- `fopen` and the reading of one seed file.
abbrev pub read_seed_file : Stock → ℕ → Option (List ℕ) → Result MainError (List Key)
read_seed_file s most none = failed no_file
read_seed_file s most (some file) = as_failure bad_seeds (read_seeds s most file)

unfoldable pub main : Crypto → Sign → Stock → Files → List (List ℕ) → Result MainError (List ℕ)
main c sign s files args = do
  asked ← as_failure bad_arguments (read_arguments args)
  _ ← as_failure refused (check_options asked.options)
  keys ← read_seed_file s num_computors (files.open_file asked.seeds_path)
  _ ← unless (not (length keys == num_computors)) (refused few_seeds) (ok (tt {0}))
  arb ← read_seed_file s 1 (files.open_file asked.arb_path)
  _ ← unless (not (length arb == 1)) no_arbitrator (ok (tt {0}))
  user ← as_failure bad_seeds (derive s asked.user)
  bytes ← as_failure refused (gen_fixture c sign keys (get_or arb 0 no_key) user asked.options)
  unless (not (files.writes asked.out_path bytes)) not_written (ok bytes)
