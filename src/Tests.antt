-- ===== src/Tests.antt =====
-- The theorems at concrete inputs.
mod Data
mod Codes
mod Amounts
mod Steps
mod Warmth
mod Contracts
mod Hex
mod Progress
mod Builders
mod Proxy
mod Stores
mod Cached
mod Values
mod Asked
mod Frames
mod Fees
mod Reverted
