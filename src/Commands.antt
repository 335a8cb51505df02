-- ===== src/Commands.antt =====
-- tee/go/tools/cmd: the commands that read what the other parts produce.
pub mod RunTest
pub mod EndToEnd
pub mod CheckTeeState
pub mod AuditDeploy
pub mod SetGovernance
pub mod StartTee
pub mod RegisterTee
pub mod RegisterExtension
pub mod DeployContract
pub mod Tools
pub mod AllowVersion
pub mod VerifyDeploy
pub mod QueryTee
pub mod StartProxy
pub mod Tests
pub mod ToolTests
