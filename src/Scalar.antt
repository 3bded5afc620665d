-- ===== src/Scalar.antt =====
-- Scalars in crypto/src/riscv_fourq_verify.c: `multiply`, `Montgomery_multiply_mod_order`,
-- `mul_truncate` and `decompose`. A number is the list of its 64-bit limbs, the lowest first. The
-- array `r` of a product is walked as a list: a round of the outer loop fixes its first limb and goes
-- on behind it.
pub mod Recode
pub mod Constants
pub mod Product
pub mod Words
pub mod Limbs
pub mod Order
pub mod Montgomery
use zkproof_demo.Base.{
  ℕ, zero, suc, ◌+◌, ◌-◌, ◌*◌, ◌%◌, ◌^◌, bit_and, ◌==◌, ◌&&◌, if◌then◌else◌, List, [], ◌∷◌, ◌++◌,
  get_or, take, drop, replicate,
}
use Constants.{
  b11, b12, b13, b14, b21, b22, b23, b24, b31, b32, b33, b34, b41, b42, b43, b44, c1, c2, c3, c4,
}
use zkproof_demo.Word.{add64, sub64, umul128, addcarry64, subborrow64}

-- The number that the limbs make up.
unfoldable pub value : List ℕ → ℕ
value [] = 0
value (x ∷ xs) = x + 2 ^ 64 * value xs

abbrev pub curve_order : List ℕ
curve_order = 0x2FB2540EC7768CE7 ∷ 0xDFBD004DFE0F7999 ∷ 0xF05397829CBC14E5 ∷ 0x0029CBC14E5E0A72 ∷ []

abbrev pub montgomery_small_r_prime : List ℕ
montgomery_small_r_prime =
    0xE12FE5F079BC3929 ∷ 0xD75E78B8D1FCDCF3 ∷ 0xBCE409ED76B5DB21 ∷ 0xF32702FDAFC1C074 ∷ []

-- A round of an inner loop: the limb of `r` and the carry that follow from `a * b`, the limb and the
-- carry before.
unfoldable pub mul_step : ℕ → ℕ → ℕ → ℕ → ℕ × ℕ
mul_step a b r carry =
    let (lo, hi) = umul128 a b in
    let (c1, s) = addcarry64 0 r lo in
    let (c2, r') = addcarry64 0 s carry in (r', (hi + c1 + c2) % 2 ^ 64)

-- The inner loop for one limb `a`, from `r[i]` on, and `r[i + 4] += carry`.
unfoldable pub mul_row : ℕ → List ℕ → List ℕ → ℕ → List ℕ
mul_row a bs [] carry = []
mul_row a [] (r ∷ rs) carry = add64 r carry ∷ rs
mul_row a (b ∷ bs) (r ∷ rs) carry =
    let (r', carry') = mul_step a b r carry in r' ∷ mul_row a bs rs carry'

-- The outer loop.
unfoldable pub mul_rows : List ℕ → List ℕ → List ℕ → List ℕ
mul_rows [] bs r = r
mul_rows (a ∷ xs) bs r = let row = mul_row a bs r 0 in take 1 row ++ mul_rows xs bs (drop 1 row)

unfoldable pub multiply : List ℕ → List ℕ → List ℕ
multiply a b = mul_rows a b (replicate 8 0)

-- The inner loop while `i + j < 4`: what would go past the end is dropped.
unfoldable pub low_row : ℕ → List ℕ → List ℕ → ℕ → List ℕ
low_row a bs [] carry = []
low_row a [] rs carry = rs
low_row a (b ∷ bs) (r ∷ rs) carry =
    let (r', carry') = mul_step a b r carry in r' ∷ low_row a bs rs carry'

unfoldable pub low_rows : List ℕ → List ℕ → List ℕ → List ℕ
low_rows [] bs r = r
low_rows (a ∷ xs) bs r = let row = low_row a bs r 0 in take 1 row ++ low_rows xs bs (drop 1 row)

-- Limb by limb with the carry on; the sum and the last carry.
unfoldable pub add_limbs : ℕ → List ℕ → List ℕ → List ℕ × ℕ
add_limbs carry (a ∷ xs) (b ∷ bs) =
    let (c, s) = addcarry64 carry a b in let (ss, out) = add_limbs c xs bs in (s ∷ ss, out)
add_limbs carry xs bs = ([], carry)

unfoldable pub sub_limbs : ℕ → List ℕ → List ℕ → List ℕ × ℕ
sub_limbs borrow (a ∷ xs) (b ∷ bs) =
    let (c, s) = subborrow64 borrow a b in let (ss, out) = sub_limbs c xs bs in (s ∷ ss, out)
sub_limbs borrow xs bs = ([], borrow)

-- `P`: the product, or `ma` with zeros where `mb` is 1.
unfoldable pub montgomery_product : List ℕ → List ℕ → List ℕ
montgomery_product ma mb =
    if (get_or mb 0 0 == 1) && (get_or mb 1 0 == 0) && (get_or mb 2 0 == 0) && (get_or mb 3 0 == 0)
    then ma ++ replicate 4 0
    else multiply ma mb

-- From `Q` on: the sum with a multiple of the order, its high half, and the order off it.
unfoldable pub montgomery_reduce : List ℕ → List ℕ
montgomery_reduce p =
    let q = low_rows (take 4 p) montgomery_small_r_prime (replicate 4 0) in
    let (temp, add_carry) = add_limbs 0 p (multiply q curve_order) in
    let (mc, borrow) = sub_limbs 0 (drop 4 temp) curve_order in
    if (add_carry + 256 - borrow) % 256 == 0 then mc else (add_limbs 0 mc curve_order).0

unfoldable pub montgomery_multiply_mod_order : List ℕ → List ℕ → List ℕ
montgomery_multiply_mod_order ma mb = montgomery_reduce (montgomery_product ma mb)

-- The limb 4 of the product of the first four limbs.
unfoldable pub mul_truncate : List ℕ → List ℕ → ℕ
mul_truncate s c = get_or (mul_rows (take 4 s) c (replicate 8 0)) 4 0

abbrev pub ell1 : List ℕ
ell1 = 0x259686E09D1A7D4F ∷ 0xF75682ACE6A6BD66 ∷ 0xFC5BB5C5EA2BE5DF ∷ 0x07 ∷ []

abbrev pub ell2 : List ℕ
ell2 = 0xD1BA1D84DD627AFB ∷ 0x2BD235580F468D8D ∷ 0x8FD4B04CAA6C0F8A ∷ 0x03 ∷ []

abbrev pub ell3 : List ℕ
ell3 = 0x9B291A33678C203C ∷ 0xC42BD6C965DCA902 ∷ 0xD038BF8D0BFFBAF6 ∷ 0x00 ∷ []

abbrev pub ell4 : List ℕ
ell4 = 0x12E5666B77E7FDC0 ∷ 0x81CBDC3714983D82 ∷ 0x1B073877A22D8410 ∷ 0x03 ∷ []

-- `a1 * B1j + a2 * B2j + a3 * B3j + a4 * B4j + Cj`, in 64 bits.
abbrev combine : (a1 a2 a3 a4 b1 b2 b3 b4 c : ℕ) → ℕ
combine a1 a2 a3 a4 b1 b2 b3 b4 c = (a1 * b1 + a2 * b2 + a3 * b3 + a4 * b4 + c) % 2 ^ 64

unfoldable pub decompose : List ℕ → List ℕ
decompose k =
    let a1 = mul_truncate k ell1 in
    let a2 = mul_truncate k ell2 in
    let a3 = mul_truncate k ell3 in
    let a4 = mul_truncate k ell4 in
    let s0 = combine a1 a2 a3 a4 b11 b21 b31 b41 (c1 + get_or k 0 0) in
    let s1 = combine a1 a2 a3 a4 b12 b22 b32 b42 c2 in
    let s2 = combine a1 a2 a3 a4 b13 b23 b33 b43 c3 in
    let s3 = combine a1 a2 a3 a4 b14 b24 b34 b44 c4 in
    if bit_and s0 1 == 0
    then sub64 s0 b41 ∷ sub64 s1 b42 ∷ sub64 s2 b43 ∷ sub64 s3 b44 ∷ []
    else s0 ∷ s1 ∷ s2 ∷ s3 ∷ []
