-- ===== src/Wallet.antt =====
-- internal/wallet: the domain models, the interfaces and the service.
pub mod Types
pub mod Interfaces
pub mod Policy
pub mod Service
pub mod Effects
