-- ===== src/Api.antt =====
-- internal/api: the dashboard's requests.
pub mod Server
pub mod Gate
pub mod SignIn
pub mod Accounts
mod Tests
