-- ===== src/Transaction/Fields.antt =====
-- Where the fields of a transaction that `build_tx` built stand.
use zkproof_demo.Base.{
  ℕ, suc, ◌+◌, ◌-◌, ◌%◌, ◌^◌, ◌<◌, ◌≡◌, ap, ◌∙◌, List, [], ◌∷◌, ◌++◌, length, length-append, take,
  drop, take_all, take-append_le, arith,
}
use mathlib.Core.List.{append_assoc}
use mathlib.Core.Path.{subst}
use zkproof_demo.Crypto.{Crypto}
use zkproof_demo.Transaction.{
  put_u16, put_u32, put_u64, put_bytes, get_u16, get_u32, fields, unsigned_tx, build_tx,
}
use zkproof_demo.Transaction.Numbers.{get_u16-put_u16, get_u32-put_u32}

pub drop_past : (xs ys : List ℕ) (k : ℕ) → drop (length xs + k) (xs ++ ys) ≡ drop k ys
drop_past [] ys k = let e : 0 + k ≡ k = omega arith in ap (λ n. drop n ys) e
drop_past (x ∷ xs) ys k =
    let e : suc (length xs) + k ≡ suc (length xs + k) = omega arith in
    ap (λ n. drop n (x ∷ xs ++ ys)) e ∙ drop_past xs ys k

-- What stands behind the public key of a signed transaction.
abbrev pub body : ℕ → ℕ → ℕ → List ℕ → List ℕ → List ℕ
body amount tick input_type input s = fields amount tick input_type input ++ s

module _ (pub_key : List ℕ) (amount tick input_type : ℕ) (input s : List ℕ)
    (key_length : length pub_key ≡ 32) where
  pub signed :
      unsigned_tx pub_key amount tick input_type input ++ s
      ≡ pub_key ++ body amount tick input_type input s
  unfolding unsigned_tx put_u64 put_u32 put_u16 put_bytes
  signed = append_assoc pub_key (fields amount tick input_type input) s

  pub behind :
      (k : ℕ)
      → drop (32 + k) (unsigned_tx pub_key amount tick input_type input ++ s)
        ≡ drop k (body amount tick input_type input s)
  behind k =
      ap (drop (32 + k)) signed
      ∙ subst
          (λ n.
            drop (n + k) (pub_key ++ body amount tick input_type input s)
            ≡ drop k (body amount tick input_type input s))
          key_length (drop_past pub_key _ k)

  pub unsigned_length :
      length (unsigned_tx pub_key amount tick input_type input) ≡ 80 + length input
  unfolding unsigned_tx put_u64 put_u32 put_u16 put_bytes
  unsigned_length =
      omega (arith, key_length, length-append pub_key (fields amount tick input_type input))

-- The last 64 bytes of a transaction whose signature has that length, and the bytes before them.
pub split_tx :
    (u s : List ℕ)
    → length s ≡ 64
    → (take (length (u ++ s) - 64) (u ++ s) ≡ u) × (drop (length (u ++ s) - 64) (u ++ s) ≡ s)
split_tx u s h =
    let e : length (u ++ s) - 64 ≡ length u + 0 = omega (arith, length-append u s) in
    let e' : length u + 0 ≡ length u = omega arith in
    (
      ap (λ n. take n (u ++ s)) (e ∙ e')
          ∙ take-append_le (length u) u s (omega arith)
          ∙ take_all (length u) u (omega arith),
      ap (λ n. drop n (u ++ s)) e ∙ drop_past u s 0,
    )

pub take_append : (xs ys : List ℕ) (n : ℕ) → length xs ≡ n → take n (xs ++ ys) ≡ xs
take_append xs ys n h = take-append_le n xs ys (omega arith) ∙ take_all n xs (omega arith)

pub same_answer :
    (c : Crypto) {k k' s s' u u' : List ℕ}
    → k ≡ k'
    → s ≡ s'
    → u ≡ u'
    → c.verify k s (c.k12 u) ≡ c.verify k' s' (c.k12 u')
same_answer c hk hs hu = cc

module _ (c : Crypto) (sign : List ℕ → List ℕ) (pub_key : List ℕ) (amount tick input_type : ℕ)
    (input : List ℕ) (key_length : length pub_key ≡ 32) where
  abbrev tx : List ℕ
  tx = build_tx c sign pub_key amount tick input_type input

  abbrev signature : List ℕ
  signature = sign (c.k12 (unsigned_tx pub_key amount tick input_type input))

  pub take-build_tx : take 32 tx ≡ pub_key
  unfolding build_tx
  take-build_tx =
      ap (take 32) (signed pub_key amount tick input_type input signature key_length)
      ∙ take_append pub_key _ 32 key_length

  pub tick-build_tx : get_u32 (drop 72 tx) ≡ tick % 2 ^ 32
  unfolding build_tx put_u64 put_u32 put_bytes get_u32
  tick-build_tx =
      ap get_u32 (behind pub_key amount tick input_type input signature key_length 40)
      ∙ get_u32-put_u32 tick
          (put_u16 input_type ++ (put_u16 (length input) ++ (input ++ signature)))

  pub size-build_tx : length input < 2 ^ 16 → get_u16 (drop 78 tx) ≡ length input
  unfolding build_tx put_u64 put_u32 put_u16 put_bytes
  size-build_tx short =
      ap get_u16 (behind pub_key amount tick input_type input signature key_length 46)
      ∙ get_u16-put_u16 (length input) (input ++ signature) short

  pub input-build_tx : drop 80 tx ≡ input ++ signature
  unfolding build_tx put_u64 put_u32 put_u16 put_bytes
  input-build_tx = behind pub_key amount tick input_type input signature key_length 48

  pub length-build_tx : length signature ≡ 64 → length tx ≡ 144 + length input
  unfolding build_tx
  length-build_tx full = omega (
    arith,
    full,
    unsigned_length pub_key amount tick input_type input signature key_length,
    length-append (unsigned_tx pub_key amount tick input_type input) signature,
  )
