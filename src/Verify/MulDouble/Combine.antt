-- ===== src/Verify/MulDouble/Combine.antt =====
-- What the rounds of `ecc_mul_double` add up in a group: digits from the highest down, several strings
-- at once.
use zkproof_demo.Base.{
  ℕ, zero, suc, ◌+◌, ◌*◌, ◌≤◌, ◌≡◌, refl, sym, ap, ap₂, ◌∙◌, List, [], ◌∷◌, get_or, length, arith,
}
use zkproof_demo.Scalar.Recode.{ℤ, pos, negsuc}
use zkproof_demo.Scalar.Recode.Digits.{plus, minus, sum_plus, sum_minus}
use zkproof_demo.Curve.Group.{
  CurveGroup, multiple, multiple_add, sum_cancel, origin_sum, interchange,
}

module _ {A : Type 0} (g : CurveGroup A) where
  -- A signed multiple, and the number that digits make up times a.
  unfoldable pub digit : ℤ → A → A
  digit (pos n) a = multiple g n a
  digit (negsuc n) a = g.opposite (multiple g (suc n) a)

  unfoldable value : List ℤ → A → A
  value [] a = g.origin
  value (d ∷ ds) a = g.sum (digit d a) (g.sum (value ds a) (value ds a))

  twice : A → A
  twice a = g.sum a a

  digit_sum : (d : ℤ) (a : A) → g.sum (digit d a) (multiple g (minus d) a) ≡ multiple g (plus d) a
  unfolding digit multiple
  digit_sum (pos n) a = g.sum_origin (multiple g n a)
  digit_sum (negsuc n) a =
      g.sum_comm (g.opposite (multiple g (suc n) a)) (multiple g (suc n) a)
      ∙ g.sum_opposite (multiple g (suc n) a)

  digit_and_rest :
      (m n : ℕ) (a : A)
      → multiple g (m + 2 * n) a ≡ g.sum (multiple g m a) (g.sum (multiple g n a) (multiple g n a))
  digit_and_rest m n a =
      let e : m + 2 * n ≡ m + (n + n) = omega arith in
      ap (λ t. multiple g t a) e
      ∙ multiple_add g m (n + n) a
      ∙ ap (g.sum (multiple g m a)) (multiple_add g n n a)

  value_sum :
      (ds : List ℤ) (a : A)
      → g.sum (value ds a) (multiple g (sum_minus ds) a) ≡ multiple g (sum_plus ds) a
  unfolding value sum_plus sum_minus multiple
  value_sum [] a = g.sum_origin g.origin
  value_sum (d ∷ ds) a =
      let v = value ds a in
      let m = multiple g (sum_minus ds) a in
      ap (g.sum (g.sum (digit d a) (g.sum v v))) (digit_and_rest (minus d) (sum_minus ds) a)
      ∙ interchange g (digit d a) (g.sum v v) (multiple g (minus d) a) (g.sum m m)
      ∙ ap₂ g.sum (digit_sum d a)
          (interchange g v v m m ∙ ap₂ g.sum (value_sum ds a) (value_sum ds a))
      ∙ sym (digit_and_rest (plus d) (sum_plus ds) a)

  -- Digits that add up to n make n times a.
  value-multiple :
      (ds : List ℤ) (n : ℕ) (a : A) → n + sum_minus ds ≡ sum_plus ds → value ds a ≡ multiple g n a
  value-multiple ds n a h =
      sum_cancel g (value ds a) (multiple g n a) (multiple g (sum_minus ds) a)
        (value_sum ds a ∙ ap (λ t. multiple g t a) (sym h) ∙ multiple_add g n (sum_minus ds) a)

  -- The part of it from the digit at one index on.
  unfoldable value_from : ℕ → List ℤ → A → A
  value_from zero ds a = value ds a
  value_from (suc i) [] a = g.origin
  value_from (suc i) (d ∷ ds) a = value_from i ds a

  value_from_end : (i : ℕ) (ds : List ℤ) (a : A) → length ds ≤ i → value_from i ds a ≡ g.origin
  unfolding value_from value
  value_from_end zero [] a h = refl
  value_from_end zero (d ∷ ds) a h = absurd (omega arith)
  value_from_end (suc i) [] a h = refl
  value_from_end (suc i) (d ∷ ds) a h = value_from_end i ds a (omega arith)

  nothing : g.origin ≡ g.sum g.origin (g.sum g.origin g.origin)
  nothing = sym (origin_sum g (g.sum g.origin g.origin) ∙ g.sum_origin g.origin)

  value_from_step :
      (i : ℕ) (ds : List ℤ) (a : A)
      → value_from i ds a
        ≡ g.sum
            (digit (get_or ds i (pos 0)) a)
            (g.sum (value_from (suc i) ds a) (value_from (suc i) ds a))
  unfolding value_from value digit multiple
  value_from_step zero [] a = nothing
  value_from_step zero (d ∷ ds) a = refl
  value_from_step (suc i) [] a = nothing
  value_from_step (suc i) (d ∷ ds) a = value_from_step i ds a

  -- Several digit strings, each with its point; the last of the list is added first.
  abbrev pub Strings : Type 0
  Strings = List (List ℤ × A)

  pub total : ℕ → Strings → A
  total i [] = g.origin
  total i (s ∷ ss) = g.sum (total i ss) (value_from i s.0 s.1)

  unfoldable digits_total : ℕ → Strings → A
  digits_total i [] = g.origin
  digits_total i (s ∷ ss) = g.sum (digits_total i ss) (digit (get_or s.0 i (pos 0)) s.1)

  -- One round: the digits at an index are added in turn.
  unfoldable pub add_digits : ℕ → Strings → A → A
  add_digits i [] t = t
  add_digits i (s ∷ ss) t = g.sum (add_digits i ss t) (digit (get_or s.0 i (pos 0)) s.1)

  add_digits-sum : (i : ℕ) (ss : Strings) (t : A) → add_digits i ss t ≡ g.sum t (digits_total i ss)
  unfolding add_digits digits_total
  add_digits-sum i [] t = sym (g.sum_origin t)
  add_digits-sum i (s ∷ ss) t =
      let d = digit (get_or s.0 i (pos 0)) s.1 in
      ap (λ u. g.sum u d) (add_digits-sum i ss t) ∙ g.sum_assoc t (digits_total i ss) d

  total_step :
      (i : ℕ) (ss : Strings)
      → total i ss ≡ g.sum (g.sum (total (suc i) ss) (total (suc i) ss)) (digits_total i ss)
  unfolding total digits_total
  total_step i [] = nothing ∙ sym (g.sum_assoc g.origin g.origin g.origin)
  total_step i (s ∷ ss) =
      let t = total (suc i) ss in
      let v = value_from (suc i) s.0 s.1 in
      let d = digit (get_or s.0 i (pos 0)) s.1 in
      ap₂ g.sum (total_step i ss) (value_from_step i s.0 s.1 ∙ g.sum_comm d (g.sum v v))
      ∙ interchange g (g.sum t t) (digits_total i ss) (g.sum v v) d
      ∙ ap (λ u. g.sum u (g.sum (digits_total i ss) d)) (interchange g t t v v)

  -- A round takes the digits above an index to those from it on.
  pub add_digits-total :
      (i : ℕ) (ss : Strings)
      → add_digits i ss (g.sum (total (suc i) ss) (total (suc i) ss)) ≡ total i ss
  add_digits-total i ss =
      add_digits-sum i ss (g.sum (total (suc i) ss) (total (suc i) ss)) ∙ sym (total_step i ss)

  -- The sum of the multiples of points, the last of the list first.
  unfoldable pub sum_of_multiples : List (ℕ × A) → A
  sum_of_multiples [] = g.origin
  sum_of_multiples (t ∷ ts) = g.sum (sum_of_multiples ts) (multiple g t.0 t.1)

  -- Each string has 65 digits, which add up to the factor of the same point.
  pub data Recoded : Strings → List (ℕ × A) → Type 0 where
    all_done : Recoded [] []
    one_string :
        {ds : List ℤ} {n : ℕ} {a : A} {ss : Strings} {ts : List (ℕ × A)}
        → length ds ≡ 65
        → n + sum_minus ds ≡ sum_plus ds
        → Recoded ss ts
        → Recoded ((ds, a) ∷ ss) ((n, a) ∷ ts)

  pub total_end : {ss : Strings} {ts : List (ℕ × A)} → Recoded ss ts → total 65 ss ≡ g.origin
  unfolding total
  total_end all_done = refl
  total_end (one_string {ds} {a} h e hs) =
      ap₂ g.sum (total_end hs) (value_from_end 65 ds a (omega arith)) ∙ g.sum_origin g.origin

  pub total_start :
      {ss : Strings} {ts : List (ℕ × A)} → Recoded ss ts → total 0 ss ≡ sum_of_multiples ts
  unfolding total sum_of_multiples value_from
  total_start all_done = refl
  total_start (one_string {ds} {n} {a} h e hs) =
      ap₂ g.sum (total_start hs) (value-multiple ds n a e)
