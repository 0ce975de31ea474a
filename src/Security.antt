-- ===== src/Security.antt =====
-- src/security/
pub mod ClientIp
mod Tests
