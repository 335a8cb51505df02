-- ===== src/Support.antt =====
-- tee/go/tools/pkg/support: what every tool needs of the chain.
pub mod Failure
pub mod Mined
pub mod Addresses
pub mod Connect
pub mod Tests
