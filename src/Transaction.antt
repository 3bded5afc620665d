-- ===== src/Transaction.antt =====
-- The transactions of a fixture: `put_u16` to `build_tx` of crypto/tools/gen_fixture.c, and `get_u32` to
-- `tx_ok` of crypto/tests/check_fixture.c. A signed amount is its 64-bit pattern.
pub mod Numbers
pub mod Fields
pub mod Accept
pub mod Signed
use zkproof_demo.Base.{
  ℕ, zero, suc, ◌+◌, ◌-◌, ◌*◌, ◌%◌, ◌^◌, bit_and, bit_or, Bool, true, false, not, ◌&&◌, ◌||◌, ◌==◌,
  ltb, if◌then◌else◌, List, [], ◌∷◌, ◌++◌, length, get_or, take, drop, replicate,
}
use zkproof_demo.Word.{◌>>>◌}
use zkproof_demo.Crypto.{Crypto}

unfoldable pub put_u16 : ℕ → List ℕ
put_u16 v = bit_and v 0xff ∷ (v >>> 8) % 2 ^ 8 ∷ []

-- `p[i] = (v >> (8 * i)) & 0xff` for `n` bytes from `i` on
unfoldable pub put_bytes : ℕ → ℕ → ℕ → List ℕ
put_bytes zero i v = []
put_bytes (suc n) i v = bit_and (v >>> (8 * i)) 0xff ∷ put_bytes n (i + 1) v

unfoldable pub put_u32 : ℕ → List ℕ
put_u32 v = put_bytes 4 0 v

unfoldable pub put_u64 : ℕ → List ℕ
put_u64 v = put_bytes 8 0 v

unfoldable pub get_u16 : List ℕ → ℕ
get_u16 p = bit_or (get_or p 0 0) (get_or p 1 0 * 2 ^ 8)

unfoldable pub get_u32 : List ℕ → ℕ
get_u32 p =
    bit_or (bit_or (bit_or (get_or p 0 0) (get_or p 1 0 * 2 ^ 8)) (get_or p 2 0 * 2 ^ 16))
      (get_or p 3 0 * 2 ^ 24)

unfoldable pub get_u64 : List ℕ → ℕ
get_u64 p = bit_or (get_u32 p) (get_u32 (drop 4 p) * 2 ^ 32)

abbrev pub tx_hdr : ℕ
tx_hdr = 80

-- What stands behind the public key: the destination, which is zero, the numbers and the input.
abbrev pub fields : ℕ → ℕ → ℕ → List ℕ → List ℕ
fields amount tick input_type input =
    replicate 32 0
    ++ (put_u64 amount
        ++ (put_u32 tick ++ (put_u16 input_type ++ (put_u16 (length input) ++ input))))

-- The header and the input, which are hashed and signed.
unfoldable pub unsigned_tx : List ℕ → ℕ → ℕ → ℕ → List ℕ → List ℕ
unsigned_tx pub_key amount tick input_type input = pub_key ++ fields amount tick input_type input

-- `qubic_sign`, of the stock library, with the key's subseed and public key applied.
unfoldable pub build_tx : Crypto → (List ℕ → List ℕ) → List ℕ → ℕ → ℕ → ℕ → List ℕ → List ℕ
build_tx c sign pub_key amount tick input_type input =
    let tx = unsigned_tx pub_key amount tick input_type input in tx ++ sign (c.k12 tx)

-- No byte of the first `n` is set.
unfoldable pub zero_bytes : ℕ → List ℕ → Bool
zero_bytes zero p = true
zero_bytes (suc n) p = (get_or p 0 0 == 0) && zero_bytes n (drop 1 p)

unfoldable pub zero32 : List ℕ → Bool
zero32 p = zero_bytes 32 p

-- `fourq_verify` is given the 32 bytes at `tx` and the 64 bytes at `tx + n - 64`.
unfoldable pub tx_ok : Crypto → List ℕ → ℕ → ℕ → ℕ → Bool → ℕ
tx_ok c tx n type amount check_amount =
    let input_size = get_u16 (drop 78 tx) in
    let input_type = get_u16 (drop 76 tx) in
    elim (ltb n (tx_hdr + 64)) [
      | true ↦ 0
      | false ↦
          elim (not (tx_hdr + input_size + 64 == n)
            || (not (input_type == type) || not (zero32 (drop 32 tx)))) [
              | true ↦ 0
              | false ↦ elim (check_amount && not (get_u64 (drop 64 tx) == amount)) [
                | true ↦ 0
                | false ↦ c.verify (take 32 tx) (drop (n - 64) tx) (c.k12 (take (n - 64) tx))
              ]
            ]
    ]
