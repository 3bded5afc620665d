-- ===== src/Fixture/Seeds/Lines.antt =====
-- What `read_seeds` makes of a file of lines.
use zkproof_demo.Base.{
  ℕ, zero, suc, ◌+◌, ◌≤◌, ◌<◌, ◌≡◌, ◌≢◌, refl, ap, ap₂, ◌∙◌, if◌then◌else◌, ne→==, le→leb, lt→leb,
  true, false, leb, some, List, [], ◌∷◌, ◌++◌, length, length-append, arith,
}
use native.Mathlib.Decide.{dec_lt}
use zkproof_demo.Fixture.Generate.{Key}
use zkproof_demo.Fixture.Result.{Result, ok, failed, ◌>>=◌, unless}
use zkproof_demo.Fixture.Seeds.{
  Stock, SeedError, too_many_seeds, derive, fgets, c_string, trim, keep_end, is_skipped, seed_loop,
  read_seeds,
}

-- A byte within a line, and one that stays at its end.
abbrev pub IsInner : ℕ → Type 0
IsInner c = (c ≢ 0) × (c ≢ 10)

abbrev pub IsLetter : ℕ → Type 0
IsLetter c = (97 ≤ c) × (c ≤ 122)

pub data AllBytes (P : ℕ → Type 0) : List ℕ → Type 0 where
  no_bytes : AllBytes P []
  one_byte : {c : ℕ} {cs : List ℕ} → P c → AllBytes P cs → AllBytes P (c ∷ cs)

letter-IsInner : (cs : List ℕ) → AllBytes IsLetter cs → AllBytes IsInner cs
letter-IsInner [] h = no_bytes
letter-IsInner (c ∷ cs) (one_byte (a, z) hs) =
    one_byte (λ e. omega arith, λ e. omega arith) (letter-IsInner cs hs)

fgets_line :
    (room : ℕ) (line rest : List ℕ)
    → AllBytes IsInner line
    → length line < room
    → fgets room (line ++ 10 ∷ rest) ≡ (line ++ 10 ∷ [], rest)
unfolding fgets
fgets_line zero line rest h hr = absurd (omega arith)
fgets_line (suc room) [] rest h hr = refl
fgets_line (suc room) (c ∷ line) rest (one_byte (nz, nl) hs) hr =
    rw (ne→== c 10 nl, fgets_line room line rest hs (omega arith)) refl

c_string_line :
    (line : List ℕ) → AllBytes IsInner line → c_string (line ++ 10 ∷ []) ≡ line ++ 10 ∷ []
unfolding c_string
c_string_line [] h = refl
c_string_line (c ∷ line) (one_byte (nz, nl) hs) = rw (ne→== c 0 nz, c_string_line line hs) refl

trim-newline : (line : List ℕ) → trim (line ++ 10 ∷ []) ≡ trim line
unfolding trim
trim-newline [] = refl
trim-newline (c ∷ line) = ap (keep_end c) (trim-newline line)

trim-letters : (line : List ℕ) → AllBytes IsLetter line → trim line ≡ line
unfolding trim
trim-letters [] h = refl
trim-letters (c ∷ []) (one_byte (a, z) hs) =
    rw (ne→== c 10 (λ e. omega arith), ne→== c 13 (λ e. omega arith), ne→== c 32 (λ e. omega arith))
      refl
trim-letters (c ∷ d ∷ ds) (one_byte h hs) = ap (keep_end c) (trim-letters (d ∷ ds) hs)

-- The line that the loop looks at.
looked_at :
    (line rest : List ℕ)
    → AllBytes IsInner line
    → length line < 511
    → trim (c_string (fgets 511 (line ++ 10 ∷ rest)).0) ≡ trim line
looked_at line rest h hr =
    ap (λ r. trim (c_string r.0)) (fgets_line 511 line rest h hr)
    ∙ ap trim (c_string_line line h)
    ∙ trim-newline line

-- A file of lines and the keys of its seeds.
pub data HasSeeds (s : Stock) : List ℕ → List Key → Type 0 where
  no_lines : HasSeeds s [] []
  empty_line : {file : List ℕ} {ks : List Key} → HasSeeds s file ks → HasSeeds s (10 ∷ file) ks
  comment_line :
      {text file : List ℕ} {ks : List Key}
      → AllBytes IsInner text
      → length text < 510
      → HasSeeds s file ks
      → HasSeeds s (b'#' ∷ text ++ 10 ∷ file) ks
  seed_line :
      {seed sub file : List ℕ} {ks : List Key}
      → AllBytes IsLetter seed
      → length seed ≡ 55
      → s.subseed seed ≡ some sub
      → HasSeeds s file ks
      → HasSeeds s (seed ++ 10 ∷ file) (record { sub = sub; pub_key = s.public_key sub } ∷ ks)

module _ (s : Stock) (most : ℕ) where
  -- One round, from the line that it looks at and the rest of the file.
  abbrev turn : ℕ → ℕ → List ℕ → List ℕ → Result SeedError (List Key)
  turn fuel n line rest = elim (is_skipped line) [
    | true ↦ seed_loop s most fuel n rest
    | false ↦
        unless (leb most n) too_many_seeds
          (derive s line >>= λ k. seed_loop s most fuel (n + 1) rest >>= λ ks. ok (k ∷ ks))
  ]

  read_turn :
      (fuel n : ℕ) (line rest : List ℕ)
      → seed_loop s most (suc fuel) n (line ++ 10 ∷ rest)
        ≡ turn fuel n
            (trim (c_string (fgets 511 (line ++ 10 ∷ rest)).0))
            (fgets 511 (line ++ 10 ∷ rest)).1
  unfolding seed_loop
  read_turn fuel n [] rest = refl
  read_turn fuel n (c ∷ line) rest = refl

  line_turn :
      (fuel n : ℕ) (line rest : List ℕ)
      → AllBytes IsInner line
      → length line < 511
      → seed_loop s most (suc fuel) n (line ++ 10 ∷ rest) ≡ turn fuel n (trim line) rest
  line_turn fuel n line rest h hr =
      read_turn fuel n line rest
      ∙ ap₂ (turn fuel n) (looked_at line rest h hr) (ap (λ r. r.1) (fgets_line 511 line rest h hr))

  abbrev answer : ℕ → List Key → Result SeedError (List Key)
  answer n ks = if leb (n + length ks) most then ok ks else failed too_many_seeds

  skipped-keep_end : (ds : List ℕ) → is_skipped (keep_end b'#' ds) ≡ true
  skipped-keep_end [] = refl
  skipped-keep_end (d ∷ ds) = refl

  comment_turn :
      (fuel n : ℕ) (text rest : List ℕ)
      → turn fuel n (trim (b'#' ∷ text)) rest ≡ seed_loop s most fuel n rest
  unfolding trim
  comment_turn fuel n text rest = rw (turn, skipped-keep_end (trim text)) refl

  seed_turn :
      (fuel n : ℕ) (seed rest : List ℕ)
      → AllBytes IsLetter seed
      → length seed ≡ 55
      → turn fuel n (trim seed) rest
        ≡ unless
            (leb most n)
            too_many_seeds
            (derive s seed >>= λ k. seed_loop s most fuel (n + 1) rest >>= λ ks. ok (k ∷ ks))
  seed_turn fuel n [] rest h e = absurd (omega arith)
  seed_turn fuel n (c ∷ seed) rest (one_byte (a, z) hs) e =
      ap (λ l. turn fuel n l rest) (trim-letters (c ∷ seed) (one_byte (a, z) hs))
      ∙ rw (turn, ne→== c b'#' (λ e. omega arith)) refl

  derived :
      {seed sub : List ℕ}
      → length seed ≡ 55
      → s.subseed seed ≡ some sub
      → derive s seed ≡ ok (record { sub = sub; pub_key = s.public_key sub })
  unfolding derive
  derived e es = rw (e, es) refl

  -- A key in front of what the rest of the loop gives.
  with_key :
      (fuel n : ℕ) (k : Key) (ks : List Key) (rest : List ℕ)
      → n ≤ most
      → (n + 1 ≤ most → seed_loop s most fuel (n + 1) rest ≡ answer (n + 1) ks)
      → unless
          (leb most n)
          too_many_seeds
          (seed_loop s most fuel (n + 1) rest >>= λ ks. ok (k ∷ ks))
        ≡ answer n (k ∷ ks)
  with_key fuel n k ks rest hn h = elim (dec_lt n most) [
    | no full ↦
        rw (le→leb most n (omega arith), lt→leb (n + suc (length ks)) most (omega arith)) refl
    | yes room ↦ elim (dec_lt most (n + suc (length ks))) [
      | yes more ↦
          rw
            (
              lt→leb most n room,
              h (omega arith),
              lt→leb (n + 1 + length ks) most (omega arith),
              lt→leb (n + suc (length ks)) most more,
            )
            refl
      | no fits ↦
          rw
            (
              lt→leb most n room,
              h (omega arith),
              le→leb (n + 1 + length ks) most (omega arith),
              le→leb (n + suc (length ks)) most (omega arith),
            )
            refl
    ]
  ]

  seed_loop-answer :
      (fuel n : ℕ) {file : List ℕ} {ks : List Key}
      → HasSeeds s file ks
      → length file ≤ fuel
      → n ≤ most
      → seed_loop s most fuel n file ≡ answer n ks
  unfolding seed_loop trim
  seed_loop-answer zero n no_lines hf hn = rw (le→leb (n + 0) most (omega arith)) refl
  seed_loop-answer (suc fuel) n no_lines hf hn = rw (le→leb (n + 0) most (omega arith)) refl
  seed_loop-answer zero n (empty_line h) hf hn = absurd (omega arith)
  seed_loop-answer (suc fuel) n (empty_line {file} h) hf hn =
      line_turn fuel n [] file no_bytes (omega arith) ∙ seed_loop-answer fuel n h (omega arith) hn
  seed_loop-answer zero n (comment_line ht hl h) hf hn = absurd (omega arith)
  seed_loop-answer (suc fuel) n (comment_line {text} {file} ht hl h) hf hn =
      line_turn fuel n (b'#' ∷ text) file (one_byte (λ e. omega arith, λ e. omega arith) ht)
        (omega arith)
      ∙ comment_turn fuel n text file
      ∙ seed_loop-answer fuel n h (omega (arith, length-append text (10 ∷ file))) hn
  seed_loop-answer zero n (seed_line {seed} {file} hs e es h) hf hn =
      absurd (omega (arith, length-append seed (10 ∷ file)))
  seed_loop-answer (suc fuel) n (seed_line {seed} {sub} {file} {ks} hs e es h) hf hn =
      line_turn fuel n seed file (letter-IsInner seed hs) (omega arith)
      ∙ seed_turn fuel n seed file hs e
      ∙ ap
          (λ r.
            unless (leb most n) too_many_seeds
              (r >>= λ k. seed_loop s most fuel (n + 1) file >>= λ ks. ok (k ∷ ks)))
          (derived e es)
      ∙ with_key fuel n _ ks file hn (λ room.
        seed_loop-answer fuel (n + 1) h (omega (arith, length-append seed (10 ∷ file))) room)

  -- Of a file of lines that end in a newline, each empty, a comment of at most 510 bytes, or a seed of 55
  -- letters that the stock library takes, `read_seeds` gives the keys of the seeds, in their order, if
  -- they are no more than `max`, and otherwise refuses the file for that.
  pub read_seeds-HasSeeds :
      {file : List ℕ} {ks : List Key}
      → HasSeeds s file ks
      → read_seeds s most file ≡ (if leb (length ks) most then ok ks else failed too_many_seeds)
  unfolding read_seeds
  read_seeds-HasSeeds {file} {ks} h =
      let e : 0 + length ks ≡ length ks = omega arith in
      seed_loop-answer (length file) 0 h (omega arith) (omega arith)
      ∙ ap (λ m. if leb m most then ok ks else failed too_many_seeds) e
