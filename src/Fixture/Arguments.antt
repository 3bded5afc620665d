-- ===== src/Fixture/Arguments.antt =====
-- The argument loop of `main` in crypto/tools/gen_fixture.c. An argument is its bytes, without the 0
-- that ends it; `return 2` and `die` are a result.
use zkproof_demo.Base.{
  ℕ, ◌+◌, ◌-◌, ◌*◌, ◌^◌, ◌==◌, ◌&&◌, ◌||◌, not, leb, min, Bool, true, false, if◌then◌else◌, Option,
  none, some, List, [], ◌∷◌, length, replicate,
}
use zkproof_demo.Base.Bytes.{bytes_equal}
use zkproof_demo.Fixture.Generate.{Options}
use zkproof_demo.Fixture.Result.{Result, ok, failed, ◌>>=◌, unless}
use Prim.Native.String.{String}
use Prim.Native.Char.{code}

-- The bytes of a text in the source.
abbrev pub text_bytes : String → List ℕ
text_bytes String.[] = []
text_bytes (String.◌∷◌ c s) = code c ∷ text_bytes s

-- `!strcmp(a, text)`
abbrev equals_text : List ℕ → String → Bool
equals_text a text = bytes_equal a (text_bytes text)

abbrev is_space : ℕ → Bool
is_space c = (c == 32) || (leb 9 c && leb c 13)

abbrev is_digit : ℕ → Bool
is_digit c = leb b'0' c && leb c b'9'

-- The digits up to the end, as `strtol` reads them: a larger number becomes LONG_MAX.
unfoldable pub read_digits : ℕ → List ℕ → Option ℕ
read_digits value [] = some value
read_digits value (c ∷ cs) =
    let more = read_digits (min (value * 10 + (c - b'0')) (2 ^ 63 - 1)) cs in
    if is_digit c then more else none

unfoldable pub read_first : List ℕ → Option ℕ
read_first [] = none
read_first (c ∷ cs) = read_digits 0 (c ∷ cs)

-- A number below 0 is refused, -0 is not.
abbrev pub not_negative : Option ℕ → Option ℕ
not_negative none = none
not_negative (some value) = if value == 0 then some 0 else none

unfoldable pub read_sign : List ℕ → Option ℕ
read_sign [] = none
read_sign (c ∷ cs) =
    if c == b'-'
    then not_negative (read_first cs)
    else if c == b'+'
    then read_first cs
    else read_first (c ∷ cs)

-- `strtol(v, &end, 10)`, if it reads all of a `v` that is not empty, and gives no number below 0.
unfoldable pub read_number : List ℕ → Option ℕ
read_number [] = none
read_number (c ∷ cs) = let more = read_number cs in if is_space c then more else read_sign (c ∷ cs)

pub data ArgumentError : Type 0 where
  needs_value bad_user_seed bad_value unknown_argument usage : ArgumentError

-- The variables of `main`; those that it starts at NULL or -1 are options.
pub record Arguments : Type 0 where
  pub seeds : Option (List ℕ)
  pub arb_seed : Option (List ℕ)
  pub message : Option (List ℕ)
  pub out : Option (List ℕ)
  pub user_seed : List ℕ
  pub epoch : Option ℕ
  pub commits : Option ℕ
  pub bad_commits : ℕ
  pub wrong_digest : ℕ
  pub reveal_by : ℕ
  pub query_tick : ℕ
  pub commit_tick : ℕ
  pub reveal_tick : ℕ
  pub interface : ℕ
  pub timeout_ms : ℕ
  pub replay : Bool
  pub shuffle : Bool

abbrev pub no_arguments : Arguments
no_arguments = record {
  seeds = none;
  arb_seed = none;
  message = none;
  out = none;
  user_seed = replicate 55 b'a';
  epoch = none;
  commits = none;
  bad_commits = 0;
  wrong_digest = 0;
  reveal_by = 0;
  query_tick = 1000000;
  commit_tick = 1000004;
  reveal_tick = 1000007;
  interface = 0;
  timeout_ms = 60000;
  replay = false;
  shuffle = false;
}

-- An option whose value is a number.
unfoldable pub set_number : Arguments → List ℕ → Option ℕ → Result ArgumentError Arguments
set_number s a none = failed bad_value
set_number s a (some num) =
    if equals_text a "--epoch"
    then ok (record s { epoch = some num })
    else if equals_text a "--commits"
    then ok (record s { commits = some num })
    else if equals_text a "--bad-commits"
    then ok (record s { bad_commits = num })
    else if equals_text a "--wrong-digest"
    then ok (record s { wrong_digest = num })
    else if equals_text a "--reveal-by"
    then ok (record s { reveal_by = num })
    else if equals_text a "--query-tick"
    then ok (record s { query_tick = num })
    else if equals_text a "--commit-tick"
    then ok (record s { commit_tick = num })
    else if equals_text a "--reveal-tick"
    then ok (record s { reveal_tick = num })
    else if equals_text a "--interface"
    then ok (record s { interface = num })
    else if equals_text a "--timeout-ms"
    then ok (record s { timeout_ms = num })
    else failed unknown_argument

unfoldable pub set_value : Arguments → List ℕ → List ℕ → Result ArgumentError Arguments
set_value s a v =
    if equals_text a "--seeds"
    then ok (record s { seeds = some v })
    else if equals_text a "--arbitrator-seed"
    then ok (record s { arb_seed = some v })
    else if equals_text a "--message"
    then ok (record s { message = some v })
    else if equals_text a "--out"
    then ok (record s { out = some v })
    else if equals_text a "--user-seed"
    then unless (not (length v == 55)) bad_user_seed (ok (record s { user_seed = v }))
    else set_number s a (read_number v)

abbrev pub set_flag : Arguments → List ℕ → Option Arguments
set_flag s a =
    if equals_text a "--replay-query"
    then some (record s { replay = true })
    else if equals_text a "--shuffle"
    then some (record s { shuffle = true })
    else none

-- `for (int i = 1; i < argc; i++)`, over the arguments that are left.
unfoldable pub argument_loop : Arguments → List (List ℕ) → Result ArgumentError Arguments
argument_loop s [] = ok s
argument_loop s (a ∷ []) = elim (set_flag s a) [ none ↦ failed needs_value | some t ↦ ok t ]
argument_loop s (a ∷ v ∷ rest) = elim (set_flag s a) [
  | none ↦ set_value s a v >>= λ t. argument_loop t rest
  | some t ↦ argument_loop t (v ∷ rest)
]

-- What a command line that gives all that is needed asks for.
pub record Asked : Type 0 where
  pub seeds_path : List ℕ
  pub arb_path : List ℕ
  pub out_path : List ℕ
  pub user : List ℕ
  pub options : Options

unfoldable pub options_of : Arguments → List ℕ → ℕ → ℕ → Options
options_of s message epoch commits = record {
  epoch = epoch;
  commits = commits;
  bad_commits = s.bad_commits;
  wrong_digest = s.wrong_digest;
  reveal_by = s.reveal_by;
  query_tick = s.query_tick;
  commit_tick = s.commit_tick;
  reveal_tick = s.reveal_tick;
  interface = s.interface;
  timeout_ms = s.timeout_ms;
  replay = s.replay;
  shuffle = s.shuffle;
  message = message;
}

-- `if (!seeds || !arbSeed || !message || !out || epoch < 0 || commits < 0)`
unfoldable pub asked_for :
    Arguments
    → Option (List ℕ)
    → Option (List ℕ)
    → Option (List ℕ)
    → Option (List ℕ)
    → Option ℕ
    → Option ℕ
    → Result ArgumentError Asked
asked_for s (some seeds) (some arb_seed) (some message) (some out) (some epoch) (some commits) =
    ok (record {
      seeds_path = seeds;
      arb_path = arb_seed;
      out_path = out;
      user = s.user_seed;
      options = options_of s message epoch commits;
    })
asked_for s seeds arb_seed message out epoch commits = failed usage

unfoldable pub read_arguments : List (List ℕ) → Result ArgumentError Asked
read_arguments args = argument_loop no_arguments args >>= λ s.
    asked_for s s.seeds s.arb_seed s.message s.out s.epoch s.commits
