-- ===== src/Web.antt =====
-- app/__init__.py and app/routes.py: the checks before each request, signing in, and passwords.
pub mod Guards
pub mod SignIn
pub mod Accounts
mod Tests
