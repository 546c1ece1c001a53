-- ===== src/Solana.antt =====
-- The Solana clients of backend/app/clients.
pub mod Rpc
pub mod Classify
pub mod Instruction
pub mod Keys
pub mod Executor
pub mod Signer
pub mod Ws
