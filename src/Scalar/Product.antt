-- ===== src/Scalar/Product.antt =====
-- The products of limbs in crypto/src/riscv_fourq_verify.c are exact: `multiply` and `mul_truncate`.
use zkproof_demo.Base.{
  ℕ, suc, ◌+◌, ◌-◌, ◌*◌, ◌/◌, ◌%◌, ◌^◌, ◌<◌, ◌≤◌, ◌≡◌, refl, sym, ap, ◌∙◌, List, [], ◌∷◌, ◌++◌,
  length, replicate, get_or, take_all, arith,
}
use zkproof_demo.Word.{umul128, addcarry64}
use zkproof_demo.Word.Carry.{addcarry64_exact}
use zkproof_demo.Word.Product.{umul128_exact}
use mathlib.Core.Path.{subst}
use mathlib.Core.List.{append-nil}
use zkproof_demo.Scalar.{value, mul_step, mul_row, mul_rows, multiply, mul_truncate}

-- Limbs in 64 bits.
pub data AllWords : List ℕ → Type 0 where
  no_words : AllWords []
  one_word : {x : ℕ} {xs : List ℕ} → x < 2 ^ 64 → AllWords xs → AllWords (x ∷ xs)

pub words_head : {x : ℕ} {xs : List ℕ} → AllWords (x ∷ xs) → x < 2 ^ 64
words_head (one_word h hs) = h

pub words_tail : {x : ℕ} {xs : List ℕ} → AllWords (x ∷ xs) → AllWords xs
words_tail (one_word h hs) = hs

word_product : (x y : ℕ) → x < 2 ^ 64 → y < 2 ^ 64 → x * y ≤ (2 ^ 64 - 1) * (2 ^ 64 - 1)
word_product x y hx hy = grind arith

pub mul_step_exact :
    (a b r c : ℕ)
    → a < 2 ^ 64
    → b < 2 ^ 64
    → r < 2 ^ 64
    → c < 2 ^ 64
    → ((mul_step a b r c).0 + 2 ^ 64 * (mul_step a b r c).1 ≡ a * b + r + c)
      × ((mul_step a b r c).0 < 2 ^ 64)
      × ((mul_step a b r c).1 < 2 ^ 64)
unfolding mul_step
mul_step_exact a b r c ha hb hr hc =
    let m = umul128_exact a b ha hb in
    let s = addcarry64_exact 0 r (umul128 a b).0 (omega arith) hr m.1 in
    let t = addcarry64_exact 0 (addcarry64 0 r (umul128 a b).0).1 c (omega arith) s.1 hc in
    omega (arith, word_product a b ha hb, m, s, t)

-- What the inner loop makes of the limbs `ps` of `r`, with the last carry as the limb behind them.
unfoldable row : ℕ → List ℕ → List ℕ → ℕ → List ℕ
row a (b ∷ bs) (p ∷ ps) c = (mul_step a b p c).0 ∷ row a bs ps (mul_step a b p c).1
row a bs ps c = c ∷ []

mul_row-row :
    (a : ℕ) (bs ps zs : List ℕ) (c : ℕ)
    → length ps ≡ length bs
    → c < 2 ^ 64
    → a < 2 ^ 64
    → AllWords bs
    → AllWords ps
    → mul_row a bs (ps ++ 0 ∷ zs) c ≡ row a bs ps c ++ zs
unfolding mul_row row
mul_row-row a [] [] zs c e hc ha hb hp =
    let w : (0 + c) % 2 ^ 64 ≡ c = omega arith in ap (λ t. t ∷ zs) w
mul_row-row a [] (p ∷ ps) zs c e hc ha hb hp = absurd (omega arith)
mul_row-row a (b ∷ bs) [] zs c e hc ha hb hp = absurd (omega arith)
mul_row-row a (b ∷ bs) (p ∷ ps) zs c e hc ha (one_word hb hbs) (one_word hp hps) =
    let s = mul_step_exact a b p c ha hb hp hc in
    ap (λ t. (mul_step a b p c).0 ∷ t) (mul_row-row a bs ps zs _ (omega arith) s.2 ha hbs hps)

record RowExact (a : ℕ) (bs ps : List ℕ) (c : ℕ) : Type 0 where
  row_length : length (row a bs ps c) ≡ suc (length bs)
  row_words : AllWords (row a bs ps c)
  row_value : value (row a bs ps c) ≡ value ps + a * value bs + c

row-RowExact :
    (a : ℕ) (bs ps : List ℕ) (c : ℕ)
    → length ps ≡ length bs
    → c < 2 ^ 64
    → a < 2 ^ 64
    → AllWords bs
    → AllWords ps
    → RowExact a bs ps c
unfolding row value
row-RowExact a [] [] c e hc ha hb hp = record {
  row_length = refl;
  row_words = one_word hc no_words;
  row_value = omega arith;
}
row-RowExact a [] (p ∷ ps) c e hc ha hb hp = absurd (omega arith)
row-RowExact a (b ∷ bs) [] c e hc ha hb hp = absurd (omega arith)
row-RowExact a (b ∷ bs) (p ∷ ps) c e hc ha (one_word hb hbs) (one_word hp hps) =
    let s = mul_step_exact a b p c ha hb hp hc in
    let h = row-RowExact a bs ps (mul_step a b p c).1 (omega arith) s.2 ha hbs hps in
    record {
      row_length = ap suc h.row_length;
      row_words = one_word s.1 h.row_words;
      row_value = omega (arith, h.row_value, s);
    }

-- The outer loop over limbs of `r` of which the ones behind `ps` are still 0.
pub record RowsExact (xs bs ps rs : List ℕ) : Type 0 where
  pub rows_length : length rs ≡ length xs + length bs
  pub rows_words : AllWords rs
  pub rows_value : value rs ≡ value ps + value xs * value bs

mul_rows-RowsExact :
    (xs bs ps : List ℕ)
    → length ps ≡ length bs
    → AllWords xs
    → AllWords bs
    → AllWords ps
    → RowsExact xs bs ps (mul_rows xs bs (ps ++ replicate (length xs) 0))
unfolding mul_rows value
mul_rows-RowsExact [] bs ps e hx hb hp =
    rw (append-nil ps)
      (record { rows_length = omega arith; rows_words = hp; rows_value = omega arith })
mul_rows-RowsExact (x ∷ xs) bs ps e (one_word hx hxs) hb hp =
    let r = row-RowExact x bs ps 0 e (omega arith) hx hb hp in
    let zs : List ℕ = replicate (length xs) 0 in
    let same = mul_row-row x bs ps zs 0 e (omega arith) hx hb hp in
    elim (row x bs ps 0)
        as (λ qs.
          mul_row x bs (ps ++ 0 ∷ zs) 0 ≡ qs ++ zs
          → length qs ≡ suc (length bs)
          → AllWords qs
          → value qs ≡ value ps + x * value bs + 0
          → RowsExact (x ∷ xs) bs ps (mul_rows (x ∷ xs) bs (ps ++ 0 ∷ zs))) [
            | [] ↦ λ same l w v. absurd (omega arith)
            | q ∷ qs ↦ λ same l w v.
                let h = mul_rows-RowsExact xs bs qs (omega arith) hxs hb (words_tail w) in
                rw (same, mul_rows)
                  (record {
                    rows_length = omega (arith, h.rows_length);
                    rows_words = one_word (words_head w) h.rows_words;
                    rows_value = omega (arith, v, h.rows_value);
                  })
          ]
      same r.row_length r.row_words r.row_value

-- Four limbs by four, from an array of eight zeros.
pub four_rows :
    (a b : List ℕ)
    → length a ≡ 4
    → length b ≡ 4
    → AllWords a
    → AllWords b
    → RowsExact a b (replicate 4 0) (mul_rows a b (replicate 8 0))
four_rows a b la lb ha hb =
    let h = mul_rows-RowsExact a b (replicate 4 0) (sym lb) ha hb zeros-AllWords in
    subst (λ n. RowsExact a b (replicate 4 0) (mul_rows a b (replicate 4 0 ++ replicate n 0))) la h
  where
    zeros-AllWords : AllWords (replicate 4 0)
    zeros-AllWords =
        one_word (omega arith)
          (one_word (omega arith) (one_word (omega arith) (one_word (omega arith) no_words)))

drop_zeros : (n : ℕ) → value (replicate 4 0) + n ≡ n
unfolding value
drop_zeros n = omega arith

limb_four : (r : List ℕ) → length r ≡ 8 → AllWords r → get_or r 4 0 ≡ value r / 2 ^ 256 % 2 ^ 64
unfolding value
limb_four (r0 ∷ r1 ∷ r2 ∷ r3 ∷ r4 ∷ rs) l
      (one_word h0 (one_word h1 (one_word h2 (one_word h3 (one_word h4 h))))) =
    omega arith
limb_four [] l h = absurd (omega arith)
limb_four (_ ∷ []) l h = absurd (omega arith)
limb_four (_ ∷ _ ∷ []) l h = absurd (omega arith)
limb_four (_ ∷ _ ∷ _ ∷ []) l h = absurd (omega arith)
limb_four (_ ∷ _ ∷ _ ∷ _ ∷ []) l h = absurd (omega arith)

-- For two numbers of four limbs, `multiply` gives the eight limbs of their exact product.
pub multiply_lem :
    (a b : List ℕ)
    → length a ≡ 4
    → length b ≡ 4
    → AllWords a
    → AllWords b
    → (value (multiply a b) ≡ value a * value b)
      × (length (multiply a b) ≡ 8)
      × AllWords (multiply a b)
unfolding multiply
multiply_lem a b la lb ha hb =
    let h = four_rows a b la lb ha hb in
    (h.rows_value ∙ drop_zeros (value a * value b), omega (arith, h.rows_length), h.rows_words)

-- For two numbers of four limbs, `mul_truncate` gives the 64 bits of their product from bit 256 on.
pub mul_truncate_lem :
    (s c : List ℕ)
    → length s ≡ 4
    → length c ≡ 4
    → AllWords s
    → AllWords c
    → mul_truncate s c ≡ value s * value c / 2 ^ 256 % 2 ^ 64
unfolding mul_truncate
mul_truncate_lem s c ls lc hs hc =
    let h = four_rows s c ls lc hs hc in
    rw (take_all 4 s (omega arith)) (
      limb_four (mul_rows s c (replicate 8 0)) (omega (arith, h.rows_length)) h.rows_words
      ∙ ap (λ t. t / 2 ^ 256 % 2 ^ 64) (h.rows_value ∙ drop_zeros (value s * value c)))
