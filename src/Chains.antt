-- ===== src/Chains.antt =====
-- internal/chains: the adapters of the chains.
pub mod Bitcoin
pub mod Evm
pub mod Examples
