-- ===== src/Base/Bytes.antt =====
-- `memcmp` of two byte strings of one length, as a test for equality.
use zkproof_demo.Base.{ℕ, ◌≡◌, refl, Bool, true, false, ◌&&◌, ◌==◌, List, [], ◌∷◌, eq→==, arith}

unfoldable pub bytes_equal : List ℕ → List ℕ → Bool
bytes_equal (a ∷ xs) (b ∷ bs) = (a == b) && bytes_equal xs bs
bytes_equal [] [] = true
bytes_equal xs bs = false

pub bytes_equal→eq : (xs ys : List ℕ) → bytes_equal xs ys ≡ true → xs ≡ ys
unfolding bytes_equal
bytes_equal→eq [] [] h = refl
bytes_equal→eq [] (y ∷ ys) h = cc
bytes_equal→eq (x ∷ xs) [] h = cc
bytes_equal→eq (x ∷ xs) (y ∷ ys) h = ground (arith, bytes_equal→eq xs ys)

pub bytes_equal_self : (xs : List ℕ) → bytes_equal xs xs ≡ true
unfolding bytes_equal
bytes_equal_self [] = refl
bytes_equal_self (x ∷ xs) = rw (eq→== x x refl) (bytes_equal_self xs)

pub ne→bytes_equal : (xs ys : List ℕ) → (xs ≡ ys → ⊥) → bytes_equal xs ys ≡ false
ne→bytes_equal xs ys h = ground (arith, bytes_equal→eq xs ys)
