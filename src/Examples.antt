-- ===== src/Examples.antt =====
-- Concrete inputs, and the theorems at them.
pub mod Fixtures
mod Withdrawals
mod Executor
mod Proofs
mod Services
mod Gateway
mod Registry
mod Lifecycles
mod Wallets
mod Keys
mod Scans
mod Flows
mod Streams
mod Pools
