-- ===== src/Fixture.antt =====
-- An oracle fixture: the constants of crypto/tools/gen_fixture.c and crypto/tests/check_fixture.c and
-- the packet of computors that both read. Fixture.Generate writes fixtures, Fixture.Check reads them.
pub mod Result
pub mod Generate
pub mod Seeds
pub mod Arguments
pub mod Check
pub mod Format
pub mod Keys
pub mod Packet
pub mod Counted
pub mod Distinct
pub mod Written
pub mod Honest
pub mod RoundTrip
pub mod Main
use zkproof_demo.Base.{ℕ, ◌+◌, ◌*◌, List, [], ◌∷◌, take, drop}

abbrev pub num_computors : ℕ
num_computors = 676

abbrev pub packet_size : ℕ
packet_size = 21698

abbrev pub quorum : ℕ
quorum = 451

abbrev pub item_size : ℕ
item_size = 72

-- "ZKQFIX02"
abbrev pub magic : List ℕ
magic = b'Z' ∷ b'K' ∷ b'Q' ∷ b'F' ∷ b'I' ∷ b'X' ∷ b'0' ∷ b'2' ∷ []

-- The 32 bytes at `packet + 2 + 32 * i`.
unfoldable pub computor_key : List ℕ → ℕ → List ℕ
computor_key packet i = take 32 (drop (2 + 32 * i) packet)
