-- ===== src/Tests.antt =====
-- The theorems at concrete inputs, over a toy hash, and runs of the code.
pub mod Toy
mod Chain
mod Codec
mod Network
mod Sync
mod Link
mod Mined
mod Sizes
mod Spending
