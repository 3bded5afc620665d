-- ===== src/Tests/Arguments.antt =====
-- Command lines of the fixture generator.
use zkproof_demo.Base.{ℕ, ◌≡◌, refl, true, false, some, List, [], ◌∷◌, replicate}
use zkproof_demo.Base.Bytes.{bytes_equal}
use zkproof_demo.Fixture.Generate.{Options}
use zkproof_demo.Fixture.Result.{ok, failed}
use zkproof_demo.Fixture.Arguments.{
  text_bytes, read_digits, read_first, read_sign, read_number, needs_value, bad_value,
  unknown_argument, usage, set_number, set_value, argument_loop, options_of, asked_for, Asked,
  read_arguments,
}

abbrev short_line : List (List ℕ)
short_line =
    text_bytes "--seeds"
    ∷ text_bytes "s"
    ∷ text_bytes "--arbitrator-seed"
    ∷ text_bytes "a"
    ∷ text_bytes "--shuffle"
    ∷ text_bytes "--epoch"
    ∷ text_bytes "7"
    ∷ text_bytes "--message"
    ∷ text_bytes "m"
    ∷ text_bytes "--commits"
    ∷ text_bytes "451"
    ∷ text_bytes "--out"
    ∷ text_bytes "o"
    ∷ []

abbrev short_options : Options
short_options = record {
  epoch = 7;
  commits = 451;
  bad_commits = 0;
  wrong_digest = 0;
  reveal_by = 0;
  query_tick = 1000000;
  commit_tick = 1000004;
  reveal_tick = 1000007;
  interface = 0;
  timeout_ms = 60000;
  replay = false;
  shuffle = true;
  message = b'm' ∷ [];
}

abbrev short_asked : Asked
short_asked = record {
  seeds_path = b's' ∷ [];
  arb_path = b'a' ∷ [];
  out_path = b'o' ∷ [];
  user = replicate 55 b'a';
  options = short_options;
}

read_short_line : read_arguments short_line ≡ ok short_asked
unfolding read_arguments argument_loop set_value set_number read_number read_sign read_first
    read_digits asked_for options_of bytes_equal
read_short_line = refl

nothing_asked_for : read_arguments [] ≡ failed usage
unfolding read_arguments argument_loop asked_for
nothing_asked_for = refl

value_missing : read_arguments (text_bytes "--epoch" ∷ []) ≡ failed needs_value
unfolding read_arguments argument_loop bytes_equal
value_missing = refl

negative_value : read_arguments (text_bytes "--epoch" ∷ text_bytes "-1" ∷ []) ≡ failed bad_value
unfolding read_arguments argument_loop set_value set_number read_number read_sign read_first
    read_digits bytes_equal
negative_value = refl

signed_number : read_number (text_bytes " +12") ≡ some 12
unfolding read_number read_sign read_first read_digits
signed_number = refl

largest_number : read_number (text_bytes "9223372036854775808") ≡ some 0x7FFFFFFFFFFFFFFF
unfolding read_number read_sign read_first read_digits
largest_number = refl

no_such_argument :
    read_arguments (text_bytes "--seed" ∷ text_bytes "1" ∷ []) ≡ failed unknown_argument
unfolding read_arguments argument_loop set_value set_number read_number read_sign read_first
    read_digits bytes_equal
no_such_argument = refl
