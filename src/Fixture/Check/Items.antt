-- ===== src/Fixture/Check/Items.antt =====
-- What the loop over the items of a commit finds.
use zkproof_demo.Base.{
  ℕ, zero, suc, ◌+◌, ◌*◌, ◌≤◌, ◌<◌, ◌≡◌, refl, sym, ap, ◌∙◌, Bool, true, false, ◌||◌, leb, List,
  take, drop, arith, Bool-cases, inl, inr, ◌⊎◌, leb→le, le→leb, eq→==, ◌↔◌,
}
use zkproof_demo.Base.Bytes.{bytes_equal→eq, bytes_equal_self}
use zkproof_demo.Crypto.{Crypto}
use zkproof_demo.Transaction.{get_u16, get_u64}
use zkproof_demo.Fixture.Check.{Claim, knowledge, is_item, hit_loop, has_item}

-- The item of 72 bytes at `off` names the query, the digest of the reply and the knowledge proof of
-- the computor.
pub record IsItem (c : Crypto) (f : Claim) (tx : List ℕ) (idx off : ℕ) : Type 0 where
  pub within : off + 72 ≤ get_u16 (drop 78 tx)
  pub query : get_u64 (drop (80 + off) tx) ≡ f.query_id
  pub digest : take 32 (drop 8 (drop (80 + off) tx)) ≡ c.k12 f.reply
  pub proof : take 32 (drop 40 (drop (80 + off) tx)) ≡ knowledge c f.reply idx

-- Where the items hold one that passes the test `item`, from `off` on.
abbrev Finds : (ℕ → Bool) → ℕ → ℕ → Type 0
Finds item size off = (k : ℕ) × (off + 72 * k + 72 ≤ size) × (item (off + 72 * k) ≡ true)

further : (item : ℕ → Bool) (size off : ℕ) → Finds item size (off + 72) → Finds item size off
further item size off (k, within, e) =
    let at : off + 72 * suc k ≡ off + 72 + 72 * k = omega arith in
    (suc k, omega arith, ap item at ∙ e)

hit_loop-Finds :
    (item : ℕ → Bool) (size fuel off : ℕ) (hit : Bool)
    → hit_loop item size fuel off hit ≡ true
    → (hit ≡ true) ⊎ Finds item size off
unfolding hit_loop
hit_loop-Finds item size zero off hit h = inl h
hit_loop-Finds item size (suc fuel) off hit h = elim (Bool-cases (leb (off + 72) size)) [
  | inr out ↦ inl (ground arith)
  | inl inside ↦ elim (hit_loop-Finds item size fuel (off + 72) (item off || hit) (ground arith)) [
    | inr found ↦ inr (further item size off found)
    | inl e ↦ elim (Bool-cases (item off)) [
      | inr no_item ↦ inl (ground arith)
      | inl here ↦
          let at : off + 72 * 0 ≡ off = omega arith in
          inr (0, omega (arith, leb→le (off + 72) size inside), ap item at ∙ here)
    ]
  ]
]

or_true : (b : Bool) → (b || true) ≡ true
or_true true = refl
or_true false = refl

pub has_item-IsItem :
    (c : Crypto) (f : Claim) (tx : List ℕ) (idx : ℕ)
    → has_item c f tx idx ≡ true
    → (k : ℕ) × IsItem c f tx idx (72 * k)
unfolding has_item is_item
has_item-IsItem c f tx idx h =
    elim (hit_loop-Finds (is_item c f tx idx) (get_u16 (drop 78 tx)) _ 0 false h) [
      | inl e ↦ cc
      | inr (k, within, e) ↦
          let at : 0 + 72 * k ≡ 72 * k = omega arith in
          let e' = ap (is_item c f tx idx) (sym at) ∙ e in
          let it = drop (80 + 72 * k) tx in
          (
            k,
            record {
              within = omega arith;
              query = ground arith;
              digest = bytes_equal→eq (take 32 (drop 8 it)) (c.k12 f.reply) (ground arith);
              proof =
                  bytes_equal→eq (take 32 (drop 40 it)) (knowledge c f.reply idx) (ground arith);
            },
          )
    ]

hit_loop-hit : (item : ℕ → Bool) (size fuel off : ℕ) → hit_loop item size fuel off true ≡ true
unfolding hit_loop
hit_loop-hit item size zero off = refl
hit_loop-hit item size (suc fuel) off = elim (Bool-cases (leb (off + 72) size)) [
  | inr out ↦ rw (out, hit_loop) refl
  | inl inside ↦
      rw (inside, hit_loop)
        (ap (hit_loop item size fuel (off + 72)) (or_true (item off))
          ∙ hit_loop-hit item size fuel (off + 72))
]

Finds-hit_loop :
    (item : ℕ → Bool) (size k fuel off : ℕ) (hit : Bool)
    → k < fuel
    → off + 72 * k + 72 ≤ size
    → item (off + 72 * k) ≡ true
    → hit_loop item size fuel off hit ≡ true
unfolding hit_loop
Finds-hit_loop item size k zero off hit short within e = absurd (omega arith)
Finds-hit_loop item size zero (suc fuel) off hit short within e =
    let at : off + 72 * 0 ≡ off = omega arith in
    rw (le→leb (off + 72) size (omega arith), ap item (sym at) ∙ e, hit_loop)
      (hit_loop-hit item size fuel (off + 72))
Finds-hit_loop item size (suc k) (suc fuel) off hit short within e =
    let at : off + 72 * suc k ≡ off + 72 + 72 * k = omega arith in
    rw (le→leb (off + 72) size (omega arith), hit_loop)
      (Finds-hit_loop item size k fuel (off + 72) (item off || hit) (omega arith) (omega arith)
        (ap item (sym at) ∙ e))

IsItem-has_item :
    (c : Crypto) (f : Claim) (tx : List ℕ) (idx k : ℕ)
    → IsItem c f tx idx (72 * k)
    → has_item c f tx idx ≡ true
unfolding has_item is_item
IsItem-has_item c f tx idx k it =
    let size = get_u16 (drop 78 tx) in
    let at : 0 + 72 * k ≡ 72 * k = omega arith in
    Finds-hit_loop (is_item c f tx idx) size k size 0 false (omega (arith, it.within))
      (omega (arith, it.within))
      (ap (is_item c f tx idx) at
        ∙ rw
            (
              eq→== _ _ it.query,
              it.digest,
              it.proof,
              bytes_equal_self (c.k12 f.reply),
              bytes_equal_self (knowledge c f.reply idx),
            )
            refl)

-- The loop over the items, which has as much fuel as the input has bytes, says that the commit holds
-- an item for the claim exactly when one of the records of 72 bytes that fit the input is one.
pub has_item-iff-IsItem :
    (c : Crypto) (f : Claim) (tx : List ℕ) (idx : ℕ)
    → (has_item c f tx idx ≡ true) ↔ ((k : ℕ) × IsItem c f tx idx (72 * k))
has_item-iff-IsItem c f tx idx =
    (has_item-IsItem c f tx idx, λ (k, it). IsItem-has_item c f tx idx k it)
