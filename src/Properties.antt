-- ===== src/Properties.antt =====
-- backend/internal/services/properties.go and backend/internal/services/scrubber.go.
pub mod Nearby
pub mod ListQuery
pub mod Select
pub mod SetClauses
pub mod Service
