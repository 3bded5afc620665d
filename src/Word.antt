-- ===== src/Word.antt =====
-- The primitive helpers of crypto/src/riscv_fourq_verify.c: rotation, the 64 x 64 multiplication
-- from 32-bit halves, carries, borrows and funnel shifts. A `uint64_t` is a number below 2 ^ 64;
-- an operation on it is written with its wrap. A value that C returns through a pointer stands
-- beside the returned one.
pub mod Carry
pub mod Product
pub mod Shift
use zkproof_demo.Base.{
  ℕ, ◌+◌, ◌-◌, ◌*◌, ◌/◌, ◌%◌, ◌^◌, bit_and, bit_or, bit_xor, ltb, ◌==◌, flag, if◌then◌else◌,
}

abbrev pub u64_mod : ℕ
u64_mod = 2 ^ 64

abbrev pub u64_max : ℕ
u64_max = 0xFFFFFFFFFFFFFFFF

abbrev pub add64 : ℕ → ℕ → ℕ
add64 a b = (a + b) % 2 ^ 64

-- 2 ^ 64 is added first, since `-` stops at 0.
abbrev pub sub64 : ℕ → ℕ → ℕ
sub64 a b = (a + 2 ^ 64 - b) % 2 ^ 64

abbrev pub mul64 : ℕ → ℕ → ℕ
mul64 a b = (a * b) % 2 ^ 64

abbrev pub not64 : ℕ → ℕ
not64 a = 2 ^ 64 - 1 - a

infixl 75 ◌<<<◌ ◌>>>◌
abbrev pub ◌<<<◌ : ℕ → ℕ → ℕ
x <<< k = x * 2 ^ k % 2 ^ 64

abbrev pub ◌>>>◌ : ℕ → ℕ → ℕ
x >>> k = x / 2 ^ k

unfoldable pub rol64 : ℕ → ℕ → ℕ
rol64 a offset = if offset == 0 then a else bit_xor (a <<< offset) (a >>> (64 - offset))

unfoldable pub andn64 : ℕ → ℕ → ℕ
andn64 a b = bit_and (not64 a) b

-- The low half first, then `*hi`.
unfoldable pub umul128 : ℕ → ℕ → ℕ × ℕ
umul128 a b =
    let a_lo = a % 2 ^ 32 in
    let a_hi = a >>> 32 in
    let b_lo = b % 2 ^ 32 in
    let b_hi = b >>> 32 in
    let p_ll = mul64 a_lo b_lo in
    let p_lh = mul64 a_lo b_hi in
    let p_hl = mul64 a_hi b_lo in
    let p_hh = mul64 a_hi b_hi in
    let mid = add64 (add64 (p_ll >>> 32) (p_lh % 2 ^ 32)) (p_hl % 2 ^ 32) in
    let lo = bit_or (bit_and p_ll 0xFFFFFFFF) (mid <<< 32) in
    (lo, add64 (add64 (add64 p_hh (p_lh >>> 32)) (p_hl >>> 32)) (mid >>> 32))

-- The carry out first, then `*out`.
unfoldable pub addcarry64 : ℕ → ℕ → ℕ → ℕ × ℕ
addcarry64 cin a b =
    let t = add64 a cin in let s = add64 t b in (bit_or (flag (ltb t a)) (flag (ltb s t)), s)

-- The borrow out first, then `*out`.
unfoldable pub subborrow64 : ℕ → ℕ → ℕ → ℕ × ℕ
subborrow64 bin a b =
    let t = sub64 a b in let s = sub64 t bin in (bit_or (flag (ltb a b)) (flag (ltb t bin)), s)

unfoldable pub shiftright128 : ℕ → ℕ → ℕ → ℕ
shiftright128 lo hi n = if n == 0 then lo else bit_or (lo >>> n) (hi <<< (64 - n))

unfoldable pub shiftleft128 : ℕ → ℕ → ℕ → ℕ
shiftleft128 lo hi n = if n == 0 then hi else bit_or (hi <<< n) (lo >>> (64 - n))
