-- ===== src/Scalar/Words.antt =====
-- The limbs that `copyMem` takes from bytes are words.
use zkproof_demo.Base.{
  ℕ, zero, suc, ◌+◌, ◌-◌, ◌*◌, ◌^◌, ◌<◌, ◌≤◌, ◌≡◌, refl, sym, ap, ◌∙◌, List, [], ◌∷◌, length,
  length-take, take, drop, get_or, arith,
}
use zkproof_demo.Base.Modulo.{pow_le, pow-pos, pow-add}
use zkproof_demo.Scalar.Product.{AllWords, no_words, one_word}
use zkproof_demo.Sponge.{load_lane, load_lanes}
use zkproof_demo.Sponge.Bytes.{IsBytes, IsBytes-take, IsBytes-drop, load_lane-lt}
use mathlib.Core.Path.{subst}

lane-lt : (bytes : List ℕ) → IsBytes bytes → load_lane (take 8 bytes) < 2 ^ 64
lane-lt bytes h =
    let n = length (take 8 bytes) in
    let short : n ≤ 8 = omega (arith, length-take 8 bytes) in
    let e : 8 * n + (64 - 8 * n) ≡ 64 = omega arith in
    let below : 2 ^ (8 * n) ≤ 2 ^ 64 =
      subst (λ t. 2 ^ (8 * n) ≤ 2 ^ t) e (pow_le (8 * n) (64 - 8 * n)) in
    omega (arith, below, load_lane-lt (take 8 bytes) (IsBytes-take 8 bytes h))

pub load_lanes-AllWords : (n : ℕ) (bytes : List ℕ) → IsBytes bytes → AllWords (load_lanes n bytes)
unfolding load_lanes
load_lanes-AllWords zero bytes h = no_words
load_lanes-AllWords (suc n) bytes h =
    one_word (lane-lt bytes h) (load_lanes-AllWords n (drop 8 bytes) (IsBytes-drop 8 bytes h))

pub words-get_or : (xs : List ℕ) (i : ℕ) → AllWords xs → get_or xs i 0 < 2 ^ 64
words-get_or [] i h = omega arith
words-get_or (x ∷ xs) zero (one_word h hs) = h
words-get_or (x ∷ xs) (suc i) (one_word h hs) = words-get_or xs i hs

-- The top bit of the last byte is that of the lane.
pub short_lane :
    (k : ℕ) (bytes : List ℕ)
    → IsBytes bytes
    → get_or bytes k 0 < 128
    → load_lane (take (suc k) bytes) < 2 ^ (8 * k + 7)
unfolding load_lane
short_lane zero [] h top = omega arith
short_lane (suc k) [] h top = pow-pos (8 * suc k + 7)
short_lane zero (b ∷ bs) h top = omega arith
short_lane (suc k) (b ∷ bs) h top =
    let e : 8 + (8 * k + 7) ≡ 8 * suc k + 7 = omega arith in
    let grown : 2 ^ (8 * suc k + 7) ≡ 256 * 2 ^ (8 * k + 7) =
      ap (λ t. 2 ^ t) (sym e) ∙ pow-add 2 8 (8 * k + 7) in
    omega (arith, short_lane k bs (IsBytes-drop 1 (b ∷ bs) h) top, h, grown)

pub get_or-drop : (n i : ℕ) (xs : List ℕ) → get_or (drop n xs) i 0 ≡ get_or xs (n + i) 0
get_or-drop zero i xs = let e : 0 + i ≡ i = omega arith in ap (λ k. get_or xs k 0) (sym e)
get_or-drop (suc n) i [] = refl
get_or-drop (suc n) i (x ∷ xs) =
    let e : suc n + i ≡ suc (n + i) = omega arith in
    get_or-drop n i xs ∙ ap (λ k. get_or (x ∷ xs) k 0) (sym e)
