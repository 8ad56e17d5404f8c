-- ===== src/Accounts.antt =====
-- Users, their accounts at providers and their passwords: backend/src/modules/users/functions.
pub mod Store
pub mod Users
pub mod Connections
pub mod Disconnect
pub mod SignIn
pub mod Again
pub mod Names
pub mod Linking
pub mod Admin
pub mod Blocking
pub mod Deletion
pub mod Soundness
mod Tests
pub mod Credentials
pub mod Passwords
