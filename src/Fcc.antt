-- ===== src/Fcc.antt =====
-- tee/go/tools/pkg/fccutils: the registration of a TEE node and the check of its signing policy.
pub mod Register
pub mod Policy
pub mod Poll
pub mod Governance
pub mod Extension
pub mod Revert
pub mod Diag
pub mod Transactions
pub mod Identity
pub mod TeeCalls
pub mod Attestation
pub mod Flow
pub mod Tests
pub mod ChainTests
