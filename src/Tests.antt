-- ===== src/Tests.antt =====
-- Known answers of the model, and each theorem at an input that meets its hypotheses.
mod Arithmetic
mod Hashing
mod Scalars
mod Signatures
mod Transactions
mod Fixtures
mod Curve
mod Multiples
mod Seeds
mod Arguments
