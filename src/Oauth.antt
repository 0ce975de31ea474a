-- ===== src/Oauth.antt =====
-- src/oauth
pub mod RedisAdapter
pub mod Validation
pub mod States
pub mod Policy
pub mod Engine
pub mod Memory
pub mod Accounts
mod Tests
