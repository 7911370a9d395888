-- ===== src/Auth.antt =====
-- backend/internal/services/token.go and backend/internal/services/auth.go.
pub mod Tokens
pub mod Rows
pub mod Service
