-- ===== src/Validate.antt =====
-- tee/go/tools/pkg/validate: the checks of a deployment and their report.
pub mod Report
pub mod EnvFile
pub mod World
pub mod Checked
pub mod Deploy
pub mod OnChain
pub mod Registration
pub mod Services
pub mod TeeVersion
pub mod TeeMachine
pub mod TestReady
pub mod Tests
