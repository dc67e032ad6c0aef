-- ===== src/Wallet/Service.antt =====
-- internal/wallet/service.go: the orchestration service, over any store, adapters and backend.
mod Core
mod Creation
mod Signing
pub mod Registry
unfoldable pub use Core.*
unfoldable pub use Creation.*
unfoldable pub use Signing.*
