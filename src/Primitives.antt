-- ===== src/Primitives.antt =====
-- What the program takes from crates outside the repository: `U256` and `U512` of
-- primitive-types, `I256` of i256 and Keccak of tiny-keccak. The operations are parameters, and
-- the laws are their documented behaviour. A `U256` stands as its value, an `I256` as the integer
-- that it denotes, a byte string as a list of numbers. A call that may panic returns `none` then.
pub mod Bytes
pub mod Interface
pub mod Native
pub use Interface.{Primitives, two256, signed_256}
