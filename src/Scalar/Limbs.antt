-- ===== src/Scalar/Limbs.antt =====
-- What `low_rows`, `add_limbs` and `sub_limbs` compute on numbers of any count of limbs.
use zkproof_demo.Base.{
  ℕ, zero, suc, ◌+◌, ◌*◌, ◌^◌, ◌<◌, ◌≤◌, ◌≡◌, refl, ap, List, [], ◌∷◌, length, take, drop, arith,
}
use zkproof_demo.Word.{addcarry64, subborrow64}
use zkproof_demo.Word.Carry.{addcarry64_exact, subborrow64_exact}
use zkproof_demo.Scalar.{value, mul_step, low_row, low_rows, add_limbs, sub_limbs}
use zkproof_demo.Scalar.Product.{
  AllWords, no_words, one_word, words_head, words_tail, mul_step_exact,
}

-- 2 ^ (64 n)
unfoldable pub span : ℕ → ℕ
span zero = 1
span (suc n) = 2 ^ 64 * span n

-- `n` limbs that stand for a number up to a multiple of 2 ^ (64 n).
pub record Low (n : ℕ) (rs : List ℕ) (total : ℕ) : Type 0 where
  pub low_length : length rs ≡ n
  pub low_words : AllWords rs
  pub over : ℕ
  pub low_value : value rs + span n * over ≡ total

low_row-Low :
    (a : ℕ) (bs rs : List ℕ) (c : ℕ)
    → length rs ≤ length bs
    → a < 2 ^ 64
    → c < 2 ^ 64
    → AllWords bs
    → AllWords rs
    → Low (length rs) (low_row a bs rs c) (value rs + a * value bs + c)
unfolding low_row value span
low_row-Low a bs [] c e ha hc hb hr = record {
  low_length = refl;
  low_words = no_words;
  over = a * value bs + c;
  low_value = omega arith;
}
low_row-Low a [] (r ∷ rs) c e ha hc hb hr = absurd (omega arith)
low_row-Low a (b ∷ bs) (r ∷ rs) c e ha hc (one_word hb hbs) (one_word hr hrs) =
    let s = mul_step_exact a b r c ha hb hr hc in
    let h = low_row-Low a bs rs (mul_step a b r c).1 (omega arith) ha s.2 hbs hrs in
    record {
      low_length = ap suc h.low_length;
      low_words = one_word s.1 h.low_words;
      over = h.over;
      low_value = omega (arith, h.low_value, s);
    }

pub low_rows-Low :
    (xs bs rs : List ℕ)
    → length xs ≡ length rs
    → length rs ≤ length bs
    → AllWords xs
    → AllWords bs
    → AllWords rs
    → Low (length xs) (low_rows xs bs rs) (value rs + value xs * value bs)
unfolding low_rows value span
low_rows-Low [] bs [] e l hx hb hr = record {
  low_length = refl;
  low_words = hr;
  over = 0;
  low_value = omega arith;
}
low_rows-Low [] bs (r ∷ rs) e l hx hb hr = absurd (omega arith)
low_rows-Low (x ∷ xs) bs [] e l hx hb hr = absurd (omega arith)
low_rows-Low (x ∷ xs) bs (r ∷ rs) e l (one_word hx hxs) hb hr =
    let h = low_row-Low x bs (r ∷ rs) 0 l hx (omega arith) hb hr in
    elim (low_row x bs (r ∷ rs) 0)
        as (λ qs.
          low_row x bs (r ∷ rs) 0 ≡ qs
          → length qs ≡ suc (length rs)
          → AllWords qs
          → value qs + span (suc (length rs)) * h.over ≡ value (r ∷ rs) + x * value bs + 0
          → Low (suc (length xs)) (low_rows (x ∷ xs) bs (r ∷ rs))
              (value (r ∷ rs) + value (x ∷ xs) * value bs)) [
                | [] ↦ λ same k w v. absurd (omega arith)
                | q ∷ qs ↦ λ same k w v.
                    let lengths : length rs ≡ length xs = omega arith in
                    let t =
                      low_rows-Low xs bs qs (omega arith) (omega arith) hxs hb (words_tail w) in
                    rw (same, low_rows)
                      (record {
                        low_length = ap suc t.low_length;
                        low_words = one_word (words_head w) t.low_words;
                        over = h.over + t.over;
                        low_value =
                            omega (arith, v, t.low_value, ap (λ n. span n * h.over) lengths);
                      })
              ]
      refl h.low_length h.low_words h.low_value

-- Chained addition and subtraction of `n` limbs.
pub record Sum (n : ℕ) (result : List ℕ × ℕ) (total : ℕ) : Type 0 where
  pub sum_length : length result.0 ≡ n
  pub sum_words : AllWords result.0
  pub sum_carry : result.1 ≤ 1
  pub sum_value : value result.0 + span n * result.1 ≡ total

pub add_limbs-Sum :
    (c : ℕ) (xs ys : List ℕ)
    → c ≤ 1
    → length xs ≡ length ys
    → AllWords xs
    → AllWords ys
    → Sum (length xs) (add_limbs c xs ys) (value xs + value ys + c)
unfolding add_limbs value span
add_limbs-Sum c [] [] hc e hx hy = record {
  sum_length = refl;
  sum_words = no_words;
  sum_carry = hc;
  sum_value = omega arith;
}
add_limbs-Sum c [] (y ∷ ys) hc e hx hy = absurd (omega arith)
add_limbs-Sum c (x ∷ xs) [] hc e hx hy = absurd (omega arith)
add_limbs-Sum c (x ∷ xs) (y ∷ ys) hc e (one_word hx hxs) (one_word hy hys) =
    let s = addcarry64_exact c x y hc hx hy in
    let h = add_limbs-Sum (addcarry64 c x y).0 xs ys s.2 (omega arith) hxs hys in
    record {
      sum_length = ap suc h.sum_length;
      sum_words = one_word s.1 h.sum_words;
      sum_carry = h.sum_carry;
      sum_value = omega (arith, s, h.sum_value);
    }

pub record Difference (n : ℕ) (result : List ℕ × ℕ) (from less : ℕ) : Type 0 where
  pub diff_length : length result.0 ≡ n
  pub diff_words : AllWords result.0
  pub diff_borrow : result.1 ≤ 1
  pub diff_value : value result.0 + less ≡ from + span n * result.1

pub sub_limbs-Difference :
    (c : ℕ) (xs ys : List ℕ)
    → c ≤ 1
    → length xs ≡ length ys
    → AllWords xs
    → AllWords ys
    → Difference (length xs) (sub_limbs c xs ys) (value xs) (value ys + c)
unfolding sub_limbs value span
sub_limbs-Difference c [] [] hc e hx hy = record {
  diff_length = refl;
  diff_words = no_words;
  diff_borrow = hc;
  diff_value = omega arith;
}
sub_limbs-Difference c [] (y ∷ ys) hc e hx hy = absurd (omega arith)
sub_limbs-Difference c (x ∷ xs) [] hc e hx hy = absurd (omega arith)
sub_limbs-Difference c (x ∷ xs) (y ∷ ys) hc e (one_word hx hxs) (one_word hy hys) =
    let s = subborrow64_exact c x y hc hx hy in
    let h = sub_limbs-Difference (subborrow64 c x y).0 xs ys s.2 (omega arith) hxs hys in
    record {
      diff_length = ap suc h.diff_length;
      diff_words = one_word s.1 h.diff_words;
      diff_borrow = h.diff_borrow;
      diff_value = omega (arith, s, h.diff_value);
    }

pub AllWords-take : (n : ℕ) (xs : List ℕ) → AllWords xs → AllWords (take n xs)
AllWords-take zero xs h = no_words
AllWords-take (suc n) [] h = no_words
AllWords-take (suc n) (x ∷ xs) (one_word hx h) = one_word hx (AllWords-take n xs h)

pub AllWords-drop : (n : ℕ) (xs : List ℕ) → AllWords xs → AllWords (drop n xs)
AllWords-drop zero xs h = h
AllWords-drop (suc n) [] h = no_words
AllWords-drop (suc n) (x ∷ xs) (one_word hx h) = AllWords-drop n xs h

pub value-split :
    (n : ℕ) (xs : List ℕ)
    → n ≤ length xs
    → value xs ≡ value (take n xs) + span n * value (drop n xs)
unfolding value span
value-split zero xs h = omega arith
value-split (suc n) [] h = absurd (omega arith)
value-split (suc n) (x ∷ xs) h = omega (arith, value-split n xs (omega arith))

pub value-lt : (xs : List ℕ) → AllWords xs → value xs < span (length xs)
unfolding value span
value-lt [] h = omega arith
value-lt (x ∷ xs) (one_word hx h) = omega (arith, value-lt xs h)
