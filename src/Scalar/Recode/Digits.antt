-- ===== src/Scalar/Recode/Digits.antt =====
-- The number that signed digits make up, and what a digit of `wNAF_recode` may be.
use zkproof_demo.Base.{
  ℕ, zero, suc, ◌+◌, ◌-◌, ◌*◌, ◌%◌, ◌^◌, ◌<◌, ◌≤◌, ◌≡◌, refl, ap, ◌⊎◌, inl, List, [], ◌∷◌, ◌++◌,
  length, replicate, arith,
}
use zkproof_demo.Base.Modulo.{pow-double}
use zkproof_demo.Scalar.Recode.{ℤ, pos, negsuc}

-- A digit is the difference of two numbers, one of them 0.
abbrev pub plus : ℤ → ℕ
plus (pos n) = n
plus (negsuc n) = 0

abbrev pub minus : ℤ → ℕ
minus (pos n) = 0
minus (negsuc n) = suc n

-- The sums of the positive and of the negative digits, with their weights.
unfoldable pub sum_plus : List ℤ → ℕ
sum_plus [] = 0
sum_plus (d ∷ ds) = plus d + 2 * sum_plus ds

unfoldable pub sum_minus : List ℤ → ℕ
sum_minus [] = 0
sum_minus (d ∷ ds) = minus d + 2 * sum_minus ds

-- 0, or odd and below 2 ^ (w - 1) on either side.
abbrev pub IsDigit : ℕ → ℤ → Type 0
IsDigit w d =
    (plus d + minus d ≡ 0) ⊎ (((plus d + minus d) % 2 ≡ 1) × (plus d + minus d < 2 ^ (w - 1)))

pub data AllDigits (w : ℕ) : List ℤ → Type 0 where
  none_left : AllDigits w []
  one_more : {d : ℤ} {ds : List ℤ} → IsDigit w d → AllDigits w ds → AllDigits w (d ∷ ds)

pub record Recodes (w room scalar : ℕ) (ds : List ℤ) : Type 0 where
  pub fits : length ds ≤ room
  pub adds_up : scalar + sum_minus ds ≡ sum_plus ds
  pub digits : AllDigits w ds

pub sum_plus-zeros :
    (m : ℕ) (ds : List ℤ) → sum_plus (replicate m (pos 0) ++ ds) ≡ 2 ^ m * sum_plus ds
unfolding sum_plus
sum_plus-zeros zero ds = omega arith
sum_plus-zeros (suc m) ds =
    omega (arith, sum_plus-zeros m ds, ap (λ t. t * sum_plus ds) (pow-double m))

pub sum_minus-zeros :
    (m : ℕ) (ds : List ℤ) → sum_minus (replicate m (pos 0) ++ ds) ≡ 2 ^ m * sum_minus ds
unfolding sum_minus
sum_minus-zeros zero ds = omega arith
sum_minus-zeros (suc m) ds =
    omega (arith, sum_minus-zeros m ds, ap (λ t. t * sum_minus ds) (pow-double m))

pub AllDigits-zeros :
    (w m : ℕ) (ds : List ℤ) → AllDigits w ds → AllDigits w (replicate m (pos 0) ++ ds)
AllDigits-zeros w zero ds h = h
AllDigits-zeros w (suc m) ds h = one_more (inl refl) (AllDigits-zeros w m ds h)

pub AllDigits-pad :
    (w m : ℕ) (ds : List ℤ) → AllDigits w ds → AllDigits w (ds ++ replicate m (pos 0))
AllDigits-pad w zero [] h = h
AllDigits-pad w (suc m) [] h = one_more (inl refl) (AllDigits-pad w m [] h)
AllDigits-pad w m (d ∷ ds) (one_more hd hs) = one_more hd (AllDigits-pad w m ds hs)

pub sum_plus-pad : (m : ℕ) (ds : List ℤ) → sum_plus (ds ++ replicate m (pos 0)) ≡ sum_plus ds
unfolding sum_plus
sum_plus-pad zero [] = refl
sum_plus-pad (suc m) [] = omega (arith, sum_plus-pad m [])
sum_plus-pad m (d ∷ ds) = omega (arith, sum_plus-pad m ds)

pub sum_minus-pad : (m : ℕ) (ds : List ℤ) → sum_minus (ds ++ replicate m (pos 0)) ≡ sum_minus ds
unfolding sum_minus
sum_minus-pad zero [] = refl
sum_minus-pad (suc m) [] = omega (arith, sum_minus-pad m [])
sum_minus-pad m (d ∷ ds) = omega (arith, sum_minus-pad m ds)
