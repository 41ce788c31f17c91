-- ===== src/Auth.antt =====
-- User-interactive authentication (clientapi/auth/user_interactive.go).
mod UserInteractive
mod Verified
mod Tests
