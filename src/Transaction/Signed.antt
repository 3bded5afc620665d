-- ===== src/Transaction/Signed.antt =====
-- What holds of a transaction that `tx_ok` accepts.
use zkproof_demo.Base.{
  ℕ, zero, suc, ◌+◌, ◌-◌, ◌<◌, ◌≡◌, ◌≢◌, ◌==◌, ◌&&◌, not, refl, eq→==, le→ltb, Bool, true, false,
  List, [], ◌∷◌, take, drop, get_or, arith,
}
use zkproof_demo.Crypto.{Crypto}
use zkproof_demo.Transaction.{get_u16, get_u64, zero_bytes, zero32, tx_ok}

-- A transaction of `n` bytes: sizes, type, an all-zero destination, amount and signature.
pub record IsSigned (c : Crypto) (tx : List ℕ) (n type amount : ℕ) (check_amount : Bool)
    : Type 0 where
  pub size : 80 + get_u16 (drop 78 tx) + 64 ≡ n
  pub kind : get_u16 (drop 76 tx) ≡ type
  pub destination : (i : ℕ) → i < 32 → get_or (drop 32 tx) i 0 ≡ 0
  pub paid : check_amount ≡ true → get_u64 (drop 64 tx) ≡ amount
  pub signature : c.verify (take 32 tx) (drop (n - 64) tx) (c.k12 (take (n - 64) tx)) ≢ 0

zero_bytes-zero : (n : ℕ) (p : List ℕ) → zero_bytes n p ≡ true → (i : ℕ) → i < n → get_or p i 0 ≡ 0
unfolding zero_bytes
zero_bytes-zero zero p h i below = absurd (omega arith)
zero_bytes-zero (suc n) [] h i below = refl
zero_bytes-zero (suc n) (x ∷ p) h zero below = ground arith
zero_bytes-zero (suc n) (x ∷ p) h (suc i) below = zero_bytes-zero n p (ground arith) i (omega arith)

-- A transaction that `tx_ok` accepts has the size that its header names, the type and, where it is
-- asked for, the amount; its destination is zero and its signature verifies for the key in front.
pub tx_ok-IsSigned :
    (c : Crypto) (tx : List ℕ) (n type amount : ℕ) (check_amount : Bool)
    → tx_ok c tx n type amount check_amount ≢ 0
    → IsSigned c tx n type amount check_amount
unfolding tx_ok zero32
tx_ok-IsSigned c tx n type amount check_amount h = record {
  size = ground arith;
  kind = ground arith;
  destination = zero_bytes-zero 32 (drop 32 tx) (ground arith);
  paid = ground arith;
  signature = ground arith;
}

zero-zero_bytes :
    (n : ℕ) (p : List ℕ) → ((i : ℕ) → i < n → get_or p i 0 ≡ 0) → zero_bytes n p ≡ true
unfolding zero_bytes
zero-zero_bytes zero p h = refl
zero-zero_bytes (suc n) [] h = zero-zero_bytes n [] (λ i below. refl)
zero-zero_bytes (suc n) (x ∷ p) h =
    rw (eq→== x 0 (h 0 (omega arith)), zero-zero_bytes n p (λ i below. h (suc i) (omega arith)))
      refl

unpaid :
    (check_amount : Bool) (paid amount : ℕ)
    → (check_amount ≡ true → paid ≡ amount)
    → check_amount && not (paid == amount) ≡ false
unpaid true paid amount h = rw (eq→== paid amount (h refl)) refl
unpaid false paid amount h = refl

-- Nothing else is asked for.
pub IsSigned-tx_ok :
    (c : Crypto) (tx : List ℕ) (n type amount : ℕ) (check_amount : Bool)
    → IsSigned c tx n type amount check_amount
    → tx_ok c tx n type amount check_amount ≢ 0
unfolding tx_ok zero32
IsSigned-tx_ok c tx n type amount check_amount h =
    rw
      (
        le→ltb n 144 (omega (arith, h.size)),
        eq→== (80 + get_u16 (drop 78 tx) + 64) n h.size,
        eq→== (get_u16 (drop 76 tx)) type h.kind,
        zero-zero_bytes 32 (drop 32 tx) h.destination,
        unpaid check_amount (get_u64 (drop 64 tx)) amount h.paid,
        tx_ok,
      )
      h.signature
