-- ===== src/Base.antt =====
-- tee/go/internal/base: encodings, the handler framework and the HTTP server.
pub mod Hex
pub mod Bytes32
pub mod Framework
pub mod Server
pub mod Tests
