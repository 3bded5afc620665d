-- ===== src/Fixture/Format.antt =====
-- What the generator writes, the checker reads back.
use zkproof_demo.Base.{
  ℕ, zero, suc, ◌+◌, ◌*◌, ◌^◌, ◌<◌, ◌≡◌, refl, sym, ap, ap₂, ◌∙◌, le→ltb, List, [], ◌∷◌, ◌++◌,
  length, length-append, take, drop, get_or, arith,
}
use mathlib.Core.Path.{subst}
use mathlib.Core.List.{append_assoc}
use zkproof_demo.Transaction.{put_bytes, put_u32, get_u32, put_u16}
use zkproof_demo.Transaction.Numbers.{get_u32-put_u32}
use zkproof_demo.Transaction.Fields.{drop_past, take_append}
use zkproof_demo.Fixture.{computor_key}
use zkproof_demo.Fixture.Result.{ok, ◌>>=◌}
use zkproof_demo.Fixture.Check.{Failure, take_input, blob}
use zkproof_demo.Fixture.Generate.{put_blob, Key, no_key, put_keys, packet_body}

pub drop_append : (xs ys : List ℕ) (n : ℕ) → length xs ≡ n → drop n (xs ++ ys) ≡ ys
drop_append xs ys n h =
    let e : length xs + 0 ≡ n = omega arith in
    subst (λ k. drop k (xs ++ ys) ≡ ys) e (drop_past xs ys 0)

pub take_input-append :
    (n : ℕ) (what : Failure) (a rest : List ℕ)
    → length a ≡ n
    → take_input n what (a ++ rest) ≡ ok (a, rest)
unfolding take_input
take_input-append n what a rest h =
    rw
      (
        le→ltb (length (a ++ rest)) n (omega (arith, length-append a rest)),
        take_append a rest n h,
        drop_append a rest n h,
      )
      refl

pub length-put_u32 : (n : ℕ) → length (put_u32 n) ≡ 4
unfolding put_u32 put_bytes
length-put_u32 n = refl

pub get_u32-put_u32_self : (n : ℕ) → n < 2 ^ 32 → get_u32 (put_u32 n) ≡ n
unfolding put_u32 put_bytes
get_u32-put_u32_self n small = get_u32-put_u32 n [] ∙ omega arith

-- A blob of less than 2 ^ 32 bytes is read back, whatever follows it.
pub blob-put_blob :
    (what : Failure) (p rest : List ℕ)
    → length p < 2 ^ 32
    → blob what (put_blob p ++ rest) ≡ ok (p, rest)
unfolding blob put_blob put_u32 put_bytes
blob-put_blob what p rest h =
    let size : get_u32 (put_u32 (length p) ++ []) ≡ length p =
      get_u32-put_u32 (length p) [] ∙ omega arith in
    ap (λ t. blob what t) (append_assoc (put_u32 (length p)) p rest)
    ∙ ap (λ r. r >>= λ (n, behind). take_input (get_u32 n) what behind)
        (take_input-append 4 what (put_u32 (length p)) (p ++ rest) refl)
    ∙ take_input-append _ what p rest (sym size)

-- All keys have 32 bytes.
abbrev pub Sized : List Key → Type 0
Sized [] = Unit
Sized (k ∷ keys) = (length k.pub_key ≡ 32) × Sized keys

pub Sized-get_or :
    (keys : List Key) (i : ℕ) → Sized keys → length (get_or keys i no_key).pub_key ≡ 32
Sized-get_or [] i h = refl
Sized-get_or (k ∷ keys) zero h = h.0
Sized-get_or (k ∷ keys) (suc i) h = Sized-get_or keys i h.1

pub length-put_keys : (keys : List Key) → Sized keys → length (put_keys keys) ≡ 32 * length keys
unfolding put_keys
length-put_keys [] h = refl
length-put_keys (k ∷ keys) h =
    omega (arith, length-append k.pub_key (put_keys keys), length-put_keys keys h.1)

at_key :
    (keys : List Key) (i : ℕ) (rest : List ℕ)
    → Sized keys
    → i < length keys
    → take 32 (drop (32 * i) (put_keys keys ++ rest)) ≡ (get_or keys i no_key).pub_key
unfolding put_keys
at_key [] i rest h below = absurd (omega arith)
at_key (k ∷ keys) zero rest h below =
    ap (take 32) (append_assoc k.pub_key (put_keys keys) rest) ∙ take_append k.pub_key _ 32 h.0
at_key (k ∷ keys) (suc i) rest h below =
    let e : 32 * suc i ≡ length k.pub_key + 32 * i = omega arith in
    ap₂ (λ n t. take 32 (drop n t)) e (append_assoc k.pub_key (put_keys keys) rest)
    ∙ ap (take 32) (drop_past k.pub_key (put_keys keys ++ rest) (32 * i))
    ∙ at_key keys i rest h.1 (omega arith)

-- The packet's entry `i` is the key of computor `i`.
pub computor_key-packet_body :
    (keys : List Key) (epoch i : ℕ) (signature : List ℕ)
    → Sized keys
    → i < length keys
    → computor_key (packet_body keys epoch ++ signature) i ≡ (get_or keys i no_key).pub_key
unfolding computor_key packet_body put_u16
computor_key-packet_body keys epoch i signature h below =
    let e : 2 + 32 * i ≡ suc (suc (32 * i)) = omega arith in
    ap (λ n. take 32 (drop n (packet_body keys epoch ++ signature))) e
    ∙ at_key keys i signature h below
