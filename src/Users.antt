-- ===== src/Users.antt =====
-- internal/users: accounts.
pub mod Folders
pub mod Names
pub mod Accounts
pub mod Store
mod Tests
