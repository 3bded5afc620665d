-- ===== src/Word/Shift.antt =====
-- The funnel shifts, at the distances that the field arithmetic uses.
use zkproof_demo.Base.{ℕ, ◌+◌, ◌*◌, ◌/◌, ◌%◌, ◌^◌, ◌<◌, ◌≡◌, bit_or, ◌∙◌, ap, arith}
use zkproof_demo.Base.Bits.{bit_or_fields, bit_or_low}
use zkproof_demo.Word.{shiftright128, shiftleft128}

pub shiftright128-63 :
    (lo hi : ℕ) → lo < 2 ^ 64 → shiftright128 lo hi 63 ≡ lo / 2 ^ 63 + 2 * (hi % 2 ^ 63)
unfolding shiftright128
shiftright128-63 lo hi h =
    let e : hi * 2 % 2 ^ 64 ≡ (hi % 2 ^ 63) * 2 ^ 1 = omega arith in
    ap (bit_or (lo / 2 ^ 63)) e
    ∙ bit_or_low 1 (hi % 2 ^ 63) (lo / 2 ^ 63) (omega arith)
    ∙ omega arith

pub shiftright128-1 : (lo hi : ℕ) → lo < 2 ^ 64 → shiftright128 lo hi 1 ≡ lo / 2 + 2 ^ 63 * (hi % 2)
unfolding shiftright128
shiftright128-1 lo hi h =
    let e : hi * 2 ^ 63 % 2 ^ 64 ≡ (hi % 2) * 2 ^ 63 = omega arith in
    ap (bit_or (lo / 2)) e ∙ bit_or_low 63 (hi % 2) (lo / 2) (omega arith) ∙ omega arith

pub shiftleft128-1 :
    (lo hi : ℕ) → lo < 2 ^ 64 → shiftleft128 lo hi 1 ≡ 2 * (hi % 2 ^ 63) + lo / 2 ^ 63
unfolding shiftleft128
shiftleft128-1 lo hi h =
    let e : hi * 2 % 2 ^ 64 ≡ (hi % 2 ^ 63) * 2 ^ 1 = omega arith in
    ap (λ t. bit_or t (lo / 2 ^ 63)) e
    ∙ bit_or_fields 1 (hi % 2 ^ 63) (lo / 2 ^ 63) (omega arith)
    ∙ omega arith
