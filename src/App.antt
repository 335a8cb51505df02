-- ===== src/App.antt =====
-- tee/go/internal/app: the extension's key store, its ABI coding and its handlers.
pub mod Int64
pub mod Abi
pub mod Crypto
pub mod Handlers
pub mod Service
pub mod Container
pub mod Tests
