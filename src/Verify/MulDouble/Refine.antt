-- ===== src/Verify/MulDouble/Refine.antt =====
-- The loop of `ecc_mul_double` adds up the multiples of eight points.
use zkproof_demo.Base.{ℕ, zero, suc, ◌*◌, refl, sym, inl, List, [], ◌∷◌, get_or, arith}
use mathlib.Core.Path.{subst}
use zkproof_demo.Quadratic.Ring.{◌⊗◌, reduce, raw_mul}
use zkproof_demo.Curve.Points.{PointExtproj, PointPrecomp}
use zkproof_demo.Curve.Validate.{one_value, one-Stands2}
use zkproof_demo.Curve.Law.{IsAt, one-IsUnit}
use zkproof_demo.Curve.Double.{eccdouble-IsAt}
use zkproof_demo.Curve.Group.{CurveGroup, Holds}
use zkproof_demo.Scalar.Product.{AllWords}
use zkproof_demo.Scalar.Words.{words-get_or}
use zkproof_demo.Scalar.Recode.{ℤ, pos, wnaf_recode}
use zkproof_demo.Scalar.Recode.Digits.{IsDigit, AllDigits, one_more}
use zkproof_demo.Scalar.Recode.Loop.{wnaf_recode_lem}
use zkproof_demo.Verify.MulDouble.{Parts, parts_of, mul_round, mul_loop, neutral}
use zkproof_demo.Verify.MulDouble.Combine.{
  Strings, add_digits, total, add_digits-total, sum_of_multiples, Recoded, all_done, one_string,
  total_end, total_start,
}
use zkproof_demo.Verify.MulDouble.Selected.{
  move, ecc_precomp_double-HasOdd, add_multiple-Holds, Selected, add_fixed-Holds,
}

pub digits-get_or : (w : ℕ) (ds : List ℤ) (i : ℕ) → AllDigits w ds → IsDigit w (get_or ds i (pos 0))
digits-get_or w [] i h = inl refl
digits-get_or w (d ∷ ds) zero (one_more h hs) = h
digits-get_or w (d ∷ ds) (suc i) (one_more h hs) = digits-get_or w ds i hs

zero_point : IsAt neutral (record { re = 0; im = 0 }) one_value
unfolding ◌⊗◌ reduce raw_mul
zero_point = record {
  z = one_value;
  ta = record { re = 0; im = 0 };
  tb = record { re = 0; im = 0 };
  x_stands = omega arith;
  y_stands = omega arith;
  z_stands = one-Stands2;
  z_unit = one-IsUnit;
  ta_stands = omega arith;
  tb_stands = omega arith;
  product = refl;
}

module _ {A : Type 0} (g : CurveGroup A) where
  neutral-Holds : Holds g neutral g.origin
  neutral-Holds =
      subst (λ x. IsAt neutral x (g.y g.origin)) (sym g.x_origin)
        (subst (IsAt neutral _) (sym g.y_origin) zero_point)

  -- Each digit other than 0 of a string selects an entry that holds the multiple of its size.
  abbrev pub AllSelected : List PointPrecomp → ℕ → List ℤ → A → Type 0
  AllSelected dst base ds b = (i : ℕ) → Selected g dst base (get_or ds i (pos 0)) b

  module _ (ks ls : List ℕ) (a1 a2 a3 a4 b1 b2 b3 b4 : A) where
    abbrev k_digits : ℕ → List ℤ
    k_digits j = wnaf_recode (get_or ks j 0) 8

    abbrev l_digits : ℕ → List ℤ
    l_digits j = wnaf_recode (get_or ls j 0) 4

    strings : Strings g
    strings =
        (k_digits 3, b4)
        ∷ (k_digits 2, b3)
        ∷ (k_digits 1, b2)
        ∷ (k_digits 0, b1)
        ∷ (l_digits 3, a4)
        ∷ (l_digits 2, a3)
        ∷ (l_digits 1, a2)
        ∷ (l_digits 0, a1)
        ∷ []

    -- The points of which `sum_of_multiples` adds up the multiples, and how often each is taken.
    unfoldable pub factors : List (ℕ × A)
    factors =
        (get_or ks 3 0, b4)
        ∷ (get_or ks 2 0, b3)
        ∷ (get_or ks 1 0, b2)
        ∷ (get_or ks 0 0, b1)
        ∷ (get_or ls 3 0, a4)
        ∷ (get_or ls 2 0, a3)
        ∷ (get_or ls 1 0, a2)
        ∷ (get_or ls 0 0, a1)
        ∷ []

    strings-Recoded : AllWords ks → AllWords ls → Recoded g strings factors
    unfolding strings factors
    strings-Recoded hk hl = k_string 3 (
        k_string 2
          (k_string 1 (k_string 0 (l_string 3 (l_string 2 (l_string 1 (l_string 0 all_done)))))))
      where
        k_string :
            (j : ℕ) {a : A} {ss : Strings g} {ts : List (ℕ × A)}
            → Recoded g ss ts
            → Recoded g ((k_digits j, a) ∷ ss) ((get_or ks j 0, a) ∷ ts)
        k_string j h =
            let r =
              wnaf_recode_lem (get_or ks j 0) 8 (words-get_or ks j hk) (omega arith)
                (omega arith) in
            one_string r.1 r.2 h

        l_string :
            (j : ℕ) {a : A} {ss : Strings g} {ts : List (ℕ × A)}
            → Recoded g ss ts
            → Recoded g ((l_digits j, a) ∷ ss) ((get_or ls j 0, a) ∷ ts)
        l_string j h =
            let r =
              wnaf_recode_lem (get_or ls j 0) 4 (words-get_or ls j hl) (omega arith)
                (omega arith) in
            one_string r.1 r.2 h

    l_digit : AllWords ls → (j i : ℕ) → IsDigit 4 (get_or (l_digits j) i (pos 0))
    l_digit hl j i =
        let r =
          wnaf_recode_lem (get_or ls j 0) 4 (words-get_or ls j hl) (omega arith) (omega arith) in
        digits-get_or 4 (l_digits j) i r.3

    module _ (dst : List PointPrecomp) {p1 p2 p3 p4 : PointExtproj} (hl : AllWords ls)
        (h1 : Holds g p1 a1) (h2 : Holds g p2 a2) (h3 : Holds g p3 a3) (h4 : Holds g p4 a4)
        (s1 : AllSelected dst 0 (k_digits 0) b1) (s2 : AllSelected dst 64 (k_digits 1) b2)
        (s3 : AllSelected dst (2 * 64) (k_digits 2) b3)
        (s4 : AllSelected dst (3 * 64) (k_digits 3) b4) where
      abbrev parts : Parts
      parts = parts_of dst ks ls p1 p2 p3 p4

      mul_round-Holds :
          (i : ℕ) (t : PointExtproj)
          → Holds g t (total g (suc i) strings)
          → Holds g (mul_round parts i t) (total g i strings)
      unfolding mul_round add_digits strings
      mul_round-Holds i t ht =
          let sum = total g (suc i) strings in
          let odd1 = ecc_precomp_double-HasOdd g p1 h1 in
          let odd2 = ecc_precomp_double-HasOdd g p2 h2 in
          let odd3 = ecc_precomp_double-HasOdd g p3 h3 in
          let odd4 = ecc_precomp_double-HasOdd g p4 h4 in
          let t = eccdouble-IsAt (g.sum_law sum sum) (g.on_curve sum) t ht in
          let t = add_multiple-Holds g _ _ a1 _ odd1 (l_digit hl 0 i) t in
          let t = add_multiple-Holds g _ _ a2 _ odd2 (l_digit hl 1 i) t in
          let t = add_multiple-Holds g _ _ a3 _ odd3 (l_digit hl 2 i) t in
          let t = add_multiple-Holds g _ _ a4 _ odd4 (l_digit hl 3 i) t in
          let t = add_fixed-Holds g dst 0 _ b1 _ (s1 i) t in
          let t = add_fixed-Holds g dst 64 _ b2 _ (s2 i) t in
          let t = add_fixed-Holds g dst (2 * 64) _ b3 _ (s3 i) t in
          let t = add_fixed-Holds g dst (3 * 64) _ b4 _ (s4 i) t in
          move g _ (add_digits-total g i strings) t

      mul_loop-total :
          (n : ℕ) (t : PointExtproj)
          → Holds g t (total g n strings)
          → Holds g (mul_loop parts n t) (total g 0 strings)
      unfolding mul_loop
      mul_loop-total zero t ht = ht
      mul_loop-total (suc i) t ht = mul_loop-total i (mul_round parts i t) (mul_round-Holds i t ht)

      -- For scalars of 64 bits and, in any group of points of the curve, for p1 to p4 in range that stand
      -- for a1 to a4, with a z that has an inverse, and a table from which the digits of the scalars `ks` select what stands for the
      -- multiples of b1 to b4: the 65 rounds of `ecc_mul_double` from the neutral point, with that table
      -- for `DST`, give coordinates in range, with a z that has an inverse, of the sum of `ls` times a1
      -- to a4 and `ks` times b1 to b4.
      pub mul_loop-Holds :
          AllWords ks → Holds g (mul_loop parts 65 neutral) (sum_of_multiples g factors)
      mul_loop-Holds hk =
          let r = strings-Recoded hk hl in
          move g (mul_loop parts 65 neutral) (total_start g r)
            (mul_loop-total 65 neutral (move g neutral (sym (total_end g r)) neutral-Holds))
