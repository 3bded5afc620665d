-- ===== src/Verify/MulDouble/Selected.antt =====
-- What `ecc_mul_double` adds for one digit: the multiple that the digit says, when the entry that it
-- selects holds the multiple of its size.
use zkproof_demo.Base.{
  ℕ, zero, suc, ◌+◌, ◌*◌, ◌%◌, ◌^◌, ◌<◌, ◌≡◌, ◌≢◌, ◌⊎◌, sym, ap, ◌∙◌, inl, inr, List, get_or, arith,
}
use mathlib.Core.Path.{subst}
use zkproof_demo.Word.{◌>>>◌}
use zkproof_demo.Quadratic.Laws.{Fp2, Stands2}
use zkproof_demo.Quadratic.Ring.{◌⊕◌, ◌⊖◌, ◌⊗◌, neg_one, sub-eq-add, sub-neg, add_comm, ring_rules}
use zkproof_demo.Quadratic.Rules.{neg_stands}
use zkproof_demo.Curve.{eccadd, eccneg_extproj_precomp, eccneg_precomp}
use zkproof_demo.Curve.Points.{PointExtproj, PointExtprojPrecomp, PointPrecomp}
use zkproof_demo.Curve.Validate.{d_value}
use zkproof_demo.Curve.Law.{IsPrecomp, IsTabled}
use zkproof_demo.Curve.Sum.{
  r1_to_r2-IsPrecomp, eccneg_extproj_precomp-IsPrecomp, eccadd-IsAt, eccmadd-IsAt,
}
use zkproof_demo.Curve.Double.{eccdouble-IsAt}
use zkproof_demo.Curve.Group.{CurveGroup, Holds, Prepares, Tables, multiple, multiple_one}
use zkproof_demo.Scalar.Recode.{ℤ, pos, negsuc}
use zkproof_demo.Scalar.Recode.Digits.{plus, minus, IsDigit}
use zkproof_demo.Tables.{no_point}
use zkproof_demo.Verify.MulDouble.{ecc_precomp_double, no_multiple, add_multiple, add_fixed}
use zkproof_demo.Verify.MulDouble.Combine.{digit}

eccneg_precomp-IsTabled :
    (q : PointPrecomp) {x y : Fp2} → IsTabled q x y → IsTabled (eccneg_precomp q) (neg_one ⊗ x) y
unfolding eccneg_precomp
eccneg_precomp-IsTabled q {x} {y} h =
    let xy : y ⊖ x ≡ neg_one ⊗ x ⊕ y = sub-eq-add y x ∙ add_comm y (neg_one ⊗ x) in
    record {
      xy_stands = subst (Stands2 _) xy h.yx_stands;
      yx_stands = subst (Stands2 _) (sym (sub-neg x y)) h.xy_stands;
      t2_stands = subst (Stands2 _) (carry d_value neg_one) (neg_stands h.t2_stands);
    }
  where
    carry : (d e : Fp2) → e ⊗ (d ⊗ (x ⊗ y ⊕ x ⊗ y)) ≡ d ⊗ ((e ⊗ x) ⊗ y ⊕ (e ⊗ x) ⊗ y)
    carry d e = simp ring_rules

module _ {A : Type 0} (g : CurveGroup A) where
  eccadd-Holds :
      (q : PointExtprojPrecomp) (p : PointExtproj) {a b : A}
      → Prepares g q b
      → Holds g p a
      → Holds g (eccadd q p) (g.sum a b)
  eccadd-Holds q p {a} {b} hq hp = eccadd-IsAt (g.sum_law a b) q p hq hp

  pub move : (p : PointExtproj) {a b : A} → a ≡ b → Holds g p a → Holds g p b
  move p e h = subst (Holds g p) e h

  -- The first four odd multiples of a point.
  abbrev pub HasOdd : List PointExtprojPrecomp → A → Type 0
  HasOdd table a =
      (j : ℕ) → j < 4 → Prepares g (get_or table j no_multiple) (multiple g (2 * j + 1) a)

  next_odd : (n : ℕ) (a : A) → g.sum (g.sum a a) (multiple g n a) ≡ multiple g (n + 2) a
  unfolding multiple
  next_odd n a =
      let e : n + 2 ≡ suc (suc n) = omega arith in
      g.sum_assoc a a (multiple g n a) ∙ ap (λ t. multiple g t a) (sym e)

  pub ecc_precomp_double-HasOdd :
      (p : PointExtproj) {a : A} → Holds g p a → HasOdd (ecc_precomp_double p) a
  unfolding ecc_precomp_double eccadd
  ecc_precomp_double-HasOdd p {a} h =
      let h2 = eccdouble-IsAt (g.sum_law a a) (g.on_curve a) p h in
      let t0 = r1_to_r2-IsPrecomp p (move p (sym (multiple_one g a)) h) in
      let t1 = r1_to_r2-IsPrecomp _ (move _ (next_odd 1 a) (eccadd-Holds _ _ t0 h2)) in
      let t2 = r1_to_r2-IsPrecomp _ (move _ (next_odd 3 a) (eccadd-Holds _ _ t1 h2)) in
      let t3 = r1_to_r2-IsPrecomp _ (move _ (next_odd 5 a) (eccadd-Holds _ _ t2 h2)) in
      λ j hj.
        elim j
            as (λ j.
              j < 4
              → Prepares g (get_or (ecc_precomp_double p) j no_multiple)
                  (multiple g (2 * j + 1) a)) [
                    | zero ↦ λ hj. t0
                    | suc zero ↦ λ hj. t1
                    | suc (suc zero) ↦ λ hj. t2
                    | suc (suc (suc zero)) ↦ λ hj. t3
                    | suc (suc (suc (suc j))) ↦ λ hj. absurd (omega arith)
                  ]
          hj

  abbrev IsOddBelow : ℕ → Type 0
  IsOddBelow n = (n ≡ 0) ⊎ ((n % 2 ≡ 1) × (n < 2 ^ 3))

  -- The entry that an odd size below 8 selects.
  odd_entry :
      (table : List PointExtprojPrecomp) (n : ℕ) (q : A)
      → HasOdd table q
      → IsOddBelow n
      → n ≢ 0
      → Prepares g (get_or table (n >>> 1) no_multiple) (multiple g n q)
  odd_entry table n q h (inl z) nz = absurd (nz z)
  odd_entry table n q h (inr (odd, small)) nz =
      let e : 2 * (n >>> 1) + 1 ≡ n = omega arith in
      subst (λ m. Prepares g (get_or table (n >>> 1) no_multiple) (multiple g m q)) e
        (h (n >>> 1) (omega arith))

  -- For one digit of `l`.
  pub add_multiple-Holds :
      (table : List PointExtprojPrecomp) (d : ℤ) (q : A) (t : PointExtproj) {a : A}
      → HasOdd table q
      → IsDigit 4 d
      → Holds g t a
      → Holds g (add_multiple table d t) (g.sum a (digit g d q))
  unfolding add_multiple digit multiple
  add_multiple-Holds table (pos zero) q t {a} h hd ht = move t (sym (g.sum_origin a)) ht
  add_multiple-Holds table (pos (suc n)) q t h hd ht =
      let e : suc n + 0 ≡ suc n = omega arith in
      let entry = odd_entry table (suc n) q h (subst IsOddBelow e hd) (λ z. omega arith) in
      eccadd-Holds _ t entry ht
  add_multiple-Holds table (negsuc n) q t h hd ht =
      let e : 0 + suc n ≡ suc n = omega arith in
      let entry = odd_entry table (suc n) q h (subst IsOddBelow e hd) (λ z. omega arith) in
      eccadd-Holds _ t (opposite_entry _ entry) ht
    where
      opposite_entry :
          (p : PointExtprojPrecomp) {b : A}
          → Prepares g p b
          → Prepares g (eccneg_extproj_precomp p) (g.opposite b)
      opposite_entry p {b} hp =
          subst (λ x. IsPrecomp (eccneg_extproj_precomp p) x (g.y (g.opposite b)))
            (sym (g.x_opposite b))
            (subst (IsPrecomp (eccneg_extproj_precomp p) (neg_one ⊗ g.x b)) (sym (g.y_opposite b))
              (eccneg_extproj_precomp-IsPrecomp p hp))

  -- The entry of a table that a digit selects, if it is not 0, holds the multiple of its size.
  abbrev pub Selected : List PointPrecomp → ℕ → ℤ → A → Type 0
  Selected dst base d b =
      (n : ℕ)
      → plus d + minus d ≡ suc n
      → Tables g (get_or dst (base + (suc n >>> 1)) no_point) (multiple g (suc n) b)

  -- For one digit of `k`.
  pub add_fixed-Holds :
      (dst : List PointPrecomp) (base : ℕ) (d : ℤ) (b : A) (t : PointExtproj) {a : A}
      → Selected dst base d b
      → Holds g t a
      → Holds g (add_fixed dst base d t) (g.sum a (digit g d b))
  unfolding add_fixed digit multiple
  add_fixed-Holds dst base (pos zero) b t {a} h ht = move t (sym (g.sum_origin a)) ht
  add_fixed-Holds dst base (pos (suc n)) b t {a} h ht =
      eccmadd-IsAt (g.sum_law a (multiple g (suc n) b)) _ t (h n (omega arith)) ht
  add_fixed-Holds dst base (negsuc n) b t {a} h ht =
      eccmadd-IsAt (g.sum_law a (g.opposite (multiple g (suc n) b))) _ t
        (opposite_entry _ (h n (omega arith))) ht
    where
      opposite_entry :
          (p : PointPrecomp) {b : A} → Tables g p b → Tables g (eccneg_precomp p) (g.opposite b)
      opposite_entry p {b} hp =
          subst (λ x. IsTabled (eccneg_precomp p) x (g.y (g.opposite b))) (sym (g.x_opposite b))
            (subst (IsTabled (eccneg_precomp p) (neg_one ⊗ g.x b)) (sym (g.y_opposite b))
              (eccneg_precomp-IsTabled p hp))
