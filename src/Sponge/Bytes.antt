-- ===== src/Sponge/Bytes.antt =====
-- Lanes and bytes: what the exclusive or of a lane does byte by byte.
use zkproof_demo.Base.{
  ℕ, zero, suc, ◌+◌, ◌*◌, ◌/◌, ◌%◌, ◌^◌, ◌<◌, ◌≤◌, bit_xor, ◌≡◌, refl, sym, ap, ◌∙◌, List, [], ◌∷◌,
  ◌++◌, length, take, drop, arith,
}
use native.Mathlib.Nat.{one-le-pow}
use zkproof_demo.Base.Modulo.{pow-add}
use zkproof_demo.Base.Bits.Xor.{bit_xor_assoc, bit_xor_low}
use zkproof_demo.Base.Bits.{bit_xor-zero}
use zkproof_demo.Sponge.{load_lane, xor_lane, xor_byte}

-- Every entry is a byte.
abbrev pub IsBytes : List ℕ → Type 0
IsBytes [] = Unit
IsBytes (b ∷ bs) = (b < 256) × IsBytes bs

pub IsBytes-take : (n : ℕ) (bs : List ℕ) → IsBytes bs → IsBytes (take n bs)
IsBytes-take zero bs h = tt
IsBytes-take (suc n) [] h = tt
IsBytes-take (suc n) (b ∷ bs) h = (h.0, IsBytes-take n bs h.1)

pub IsBytes-drop : (n : ℕ) (bs : List ℕ) → IsBytes bs → IsBytes (drop n bs)
IsBytes-drop zero bs h = h
IsBytes-drop (suc n) [] h = tt
IsBytes-drop (suc n) (b ∷ bs) h = IsBytes-drop n bs h.1

-- The bytes from index `k` on.
unfoldable pub xor_bytes : List ℕ → ℕ → List ℕ → List ℕ
xor_bytes s k [] = s
xor_bytes s k (b ∷ bs) = xor_bytes (xor_byte s k b) (k + 1) bs

xor_lane-xor_lane :
    (s : List ℕ) (j v w : ℕ) → xor_lane (xor_lane s j v) j w ≡ xor_lane s j (bit_xor v w)
unfolding xor_lane
xor_lane-xor_lane [] j v w = refl
xor_lane-xor_lane (x ∷ s) zero v w = ap (λ t. t ∷ s) (bit_xor_assoc x v w)
xor_lane-xor_lane (x ∷ s) (suc j) v w = ap (λ t. x ∷ t) (xor_lane-xor_lane s j v w)

pub xor_lane-zero : (s : List ℕ) (j : ℕ) → xor_lane s j 0 ≡ s
unfolding xor_lane
xor_lane-zero [] j = refl
xor_lane-zero (x ∷ s) zero = ap (λ t. t ∷ s) (bit_xor-zero x)
xor_lane-zero (x ∷ s) (suc j) = ap (λ t. x ∷ t) (xor_lane-zero s j)

pub length-xor_lane : (s : List ℕ) (j v : ℕ) → length (xor_lane s j v) ≡ length s
unfolding xor_lane
length-xor_lane [] j v = refl
length-xor_lane (x ∷ s) zero v = refl
length-xor_lane (x ∷ s) (suc j) v = ap suc (length-xor_lane s j v)

pub length-xor_bytes : (s : List ℕ) (k : ℕ) (bs : List ℕ) → length (xor_bytes s k bs) ≡ length s
unfolding xor_bytes xor_byte
length-xor_bytes s k [] = refl
length-xor_bytes s k (b ∷ bs) =
    length-xor_bytes (xor_byte s k b) (k + 1) bs ∙ length-xor_lane s (k / 8) _

pub xor_bytes-append :
    (s : List ℕ) (k : ℕ) (xs ys : List ℕ)
    → xor_bytes s k (xs ++ ys) ≡ xor_bytes (xor_bytes s k xs) (k + length xs) ys
unfolding xor_bytes
xor_bytes-append s k [] ys = let e : k ≡ k + 0 = omega arith in ap (λ t. xor_bytes s t ys) e
xor_bytes-append s k (x ∷ xs) ys =
    let e : k + 1 + length xs ≡ k + suc (length xs) = omega arith in
    xor_bytes-append (xor_byte s k x) (k + 1) xs ys
    ∙ ap (λ t. xor_bytes (xor_bytes (xor_byte s k x) (k + 1) xs) t ys) e

-- A lane of `n` bytes stays below 256 ^ n.
pub load_lane-lt : (bs : List ℕ) → IsBytes bs → load_lane bs < 2 ^ (8 * length bs)
unfolding load_lane
load_lane-lt [] h = omega arith
load_lane-lt (b ∷ bs) h =
    let e : 8 * suc (length bs) ≡ 8 + 8 * length bs = omega arith in
    rw e (omega (arith, pow-add 2 8 (8 * length bs), load_lane-lt bs h.1))

pub scaled : (b n p : ℕ) → b < n → 1 ≤ p → b * p < n * p
scaled b n p h pos = grind arith

-- A byte in front of the others of its lane.
front_byte :
    (b m off : ℕ)
    → b < 256
    → bit_xor (b * 2 ^ (8 * off)) (m * 2 ^ (8 * suc off)) ≡ (b + 256 * m) * 2 ^ (8 * off)
front_byte b m off h =
    bit_xor_low (8 * suc off) m (b * 2 ^ (8 * off)) below
    ∙ omega (arith, ap (λ (t : ℕ). m * t) power)
  where
    power : 2 ^ (8 * suc off) ≡ 256 * 2 ^ (8 * off)
    power =
        let e : 8 * suc off ≡ 8 + 8 * off = omega arith in ap (λ t. 2 ^ t) e ∙ pow-add 2 8 (8 * off)

    below : b * 2 ^ (8 * off) < 2 ^ (8 * suc off)
    below = rw power (scaled b 256 (2 ^ (8 * off)) h (one-le-pow (8 * off) 2 (omega arith)))

-- The bytes of one lane, from place `off` on, are one exclusive or with that lane.
pub xor_bytes-lane :
    (s : List ℕ) (j off : ℕ) (bs : List ℕ)
    → IsBytes bs
    → off + length bs ≤ 8
    → xor_bytes s (8 * j + off) bs ≡ xor_lane s j (load_lane bs * 2 ^ (8 * off))
unfolding xor_bytes xor_byte load_lane
xor_bytes-lane s j off [] h fits =
    let e : 0 ≡ 0 * 2 ^ (8 * off) = omega arith in sym (xor_lane-zero s j) ∙ ap (xor_lane s j) e
xor_bytes-lane s j off (b ∷ bs) h fits =
    let lane : (8 * j + off) / 8 ≡ j = omega arith in
    let place : (8 * j + off) % 8 ≡ off = omega arith in
    let next : 8 * j + off + 1 ≡ 8 * j + suc off = omega arith in
    rw (lane, place, next)
      (xor_bytes-lane (xor_lane s j (b * 2 ^ (8 * off))) j (suc off) bs h.1 (omega arith)
        ∙ xor_lane-xor_lane s j _ _
        ∙ ap (xor_lane s j) (front_byte b (load_lane bs) off h.0))
