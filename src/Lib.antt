-- ===== src/Lib.antt =====
-- The proof system's C library: the portable FourQ and KangarooTwelve code that the guest program
-- links, crypto/src/riscv_fourq_verify.c, and the tools that write and check oracle fixtures.
--
-- The program proves in a zkVM that a quorum of Qubic computors answered an oracle query. The guest
-- (methods/guest/src/main.rs) hashes packets with `qubic_k12` and checks signatures with
-- `fourq_verify`; both are C functions of crypto/src/riscv_fourq_verify.c. That file is built from
-- below on words: the field and its quadratic extension stand on words, the point formulas on the
-- extension, and the hash on the Keccak permutation and its sponge.
--
-- The parts:
--   Base       the natural numbers, lists and Boolean tests that the parts share; bitwise lemmas in
--              Base.Bits, congruences in Base.Modulo
--   Word       `ROL64` to `shiftleft128`: words below 2 ^ 64 with their wrap-around
--   Field      `mod1271` to `fpinv1271`: GF(p) for p = 2 ^ 127 - 1, two limbs an element;
--              Field.Modular has the residues and the relation between limbs and a residue
--   Quadratic  `fp2div1271` to `fp2addsub1271`; Quadratic.Laws has GF(p)[i],
--              Quadratic.Ring its ring laws, Quadratic.Rules what each C function stands for
--   Keccak     the macros `rounds12` and `thetaRhoPiChiIotaPrepareTheta`, one record field a lane;
--              Keccak.Reference is FIPS 202
--   Sponge     `KangarooTwelve_F`, `KangarooTwelve_F_Absorb`; Sponge.Feed absorbs a byte at a time
--   K12        `KangarooTwelve`, `qubic_k12`; K12.Tree is the tree hash as it is specified
--   Curve      the points, `eccnorm` to `cofactor_clearing`, and the endomorphisms;
--              Curve.Law is the addition law of the curve, which Curve.Sum, Curve.Double and
--              Curve.Multiple compare the formulas with
--   Scalar     `multiply`, `Montgomery_multiply_mod_order`, `mul_truncate`, `decompose`;
--              Scalar.Recode is `wNAF_recode`
--   Tables     the words of crypto/src/riscv_tables.c, and `table_lookup_fixed_base`
--   Verify     `encode`, `decode`, `verify` and the two exported functions over it;
--              Verify.MulDouble is `ecc_mul_double`; its loop is compared with multiples in a
--              group of points, the parameter Curve.Group, in Verify.MulDouble.Refine
--   Crypto     the interface of crypto/include/riscv_qubic_crypto.h, which the fixture tools take;
--              `library` fills it with `qubic_k12` of K12 and `fourq_verify` of Verify
--   Transaction  `build_tx` of crypto/tools/gen_fixture.c and `tx_ok` of
--              crypto/tests/check_fixture.c, which reads what it builds
--   Fixture    Fixture.Generate is `main` of gen_fixture.c, from the tests of its options to the
--              bytes of the file; Fixture.Check is `main` of check_fixture.c, from the magic on;
--              Fixture.Seeds is `read_seeds` of gen_fixture.c, Fixture.Arguments its argument loop,
--              and Fixture.Main puts the three together, with the files at a path as a parameter.
--              All are functions into Fixture.Result, whose failures are the messages of `die` and
--              `fail`; `qubic_sign`, of the stock library, is a parameter, and what is relied on of
--              it is the record `Signs` of Fixture.Counted
--   Tests      runs at concrete inputs
--
-- A function that writes through a pointer returns what it writes; where it writes over an argument
-- the names follow the C names, with a prime for a later value. A byte buffer is the list of the
-- bytes that are left of it, so that a pointer and its counter are one list. A state of 200 bytes
-- is the list of its 25 lanes in little-endian order, the order of the machines the code is for.
--
-- Loops have fuel: `absorb_loop`, `absorb_blocks` and `chunk_loop` take the length of the input,
-- since every round takes at least a byte; `xor_offset` the bytes of its block; `encode_len` the 8
-- rounds that the C loop stops at; `recode_loop` 65, which is proved to be enough. `hit_loop` takes
-- the size of the input and `seed_loop` that of the file, which is proved to be enough, and
-- `commit_loop` the number that the fixture gives. The equivalences have no case in which fuel runs
-- out.
--
-- The code under `ZKQ_BIGINT2` calls the accelerator of methods/guest/src/bigint2.rs and is not
-- modelled: the definitions are of the portable branch. crypto/src/stock_qubic.c is a copy of
-- another project. What is at a path is a value, and so are the arbitrator's key and the file that
-- check_fixture.c is called with; the line that gen_fixture.c prints is not modelled, but for its
-- count of good commits, and crypto/tools/derive_keys.c is not. The Rust, Solidity and shell parts
-- are not modelled.
pub mod Base
pub mod Crypto
pub mod Curve
pub mod Field
pub mod Fixture
pub mod K12
pub mod Keccak
pub mod Quadratic
pub mod Scalar
pub mod Sponge
pub mod Tables
pub mod Tests
pub mod Transaction
pub mod Verify
pub mod Word
