-- ===== src/Store.antt =====
-- internal/store: the stores behind the service's `Store` interface.
pub mod Memory
pub mod Postgres
