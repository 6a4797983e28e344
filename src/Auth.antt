-- ===== src/Auth.antt =====
-- app/auth: password sign-in, its lockout and its reset links.
pub mod Lockout
pub mod Passwords
pub mod Accounts
pub mod Login
pub mod Manage
