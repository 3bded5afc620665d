-- ===== src/Fixture/Keys.antt =====
-- Looking a computor up among pairwise distinct keys.
use zkproof_demo.Base.{
  ℕ, zero, suc, ◌+◌, ◌≤◌, ◌<◌, ◌≡◌, refl, ap, ◌∙◌, false, ◌==◌, some, List, take, arith, Bool-cases,
  inl, inr, ==→eq,
}
use zkproof_demo.Base.Bytes.{bytes_equal, bytes_equal_self, ne→bytes_equal}
use zkproof_demo.Fixture.{num_computors, computor_key}
use zkproof_demo.Fixture.Check.{computor_from, computor_index, repeats, some_repeats}
use zkproof_demo.Fixture.Check.Parts.{KeysDiffer}

module _ (packet : List ℕ) (differ : KeysDiffer packet) where
  differ_both :
      (i j : ℕ)
      → i < num_computors
      → j < num_computors
      → (i ≡ j → ⊥)
      → bytes_equal (computor_key packet i) (computor_key packet j) ≡ false
  differ_both i j hi hj apart = ne→bytes_equal _ _ (λ same. grind (arith, differ i j, differ j i))

  found :
      (k i r : ℕ)
      → i ≤ r
      → r < i + k
      → i + k ≤ num_computors
      → computor_from packet (computor_key packet r) k i ≡ some r
  unfolding computor_from
  found zero i r low high top = absurd (omega arith)
  found (suc k) i r low high top = elim (Bool-cases (i == r)) [
    | inl at ↦
        let e = ==→eq i r at in
        rw (e, bytes_equal_self (computor_key packet r), computor_from) (ap some e)
    | inr off ↦
        let other = differ_both i r (omega arith) (omega arith) (ground arith) in
        rw (other, computor_from) (found k (i + 1) r (ground arith) (omega arith) (omega arith))
  ]

  no_repeats : (i k j : ℕ) → i < j → j + k ≤ num_computors → repeats packet i k j ≡ false
  unfolding repeats
  no_repeats i zero j below top = refl
  no_repeats i (suc k) j below top =
      rw (differ_both i j (omega arith) (omega arith) (omega arith), repeats)
        (no_repeats i k (j + 1) (omega arith) (omega arith))

  pub KeysDiffer-some_repeats : (k i : ℕ) → i + k ≤ num_computors → some_repeats packet k i ≡ false
  unfolding some_repeats
  KeysDiffer-some_repeats zero i top = refl
  KeysDiffer-some_repeats (suc k) i top =
      rw (no_repeats i k (i + 1) (omega arith) (omega arith), some_repeats)
        (KeysDiffer-some_repeats k (i + 1) (omega arith))

  pub computor_index-computor_key :
      (tx : List ℕ) (r : ℕ)
      → r < num_computors
      → take 32 tx ≡ computor_key packet r
      → computor_index packet tx ≡ some r
  unfolding computor_index
  computor_index-computor_key tx r below at =
      ap (λ k. computor_from packet k num_computors 0) at
      ∙ found num_computors 0 r (omega arith) (omega arith) (omega arith)
