-- ===== src/EdgeState.antt =====
-- internal/edgestate: what an edge keeps in its local database.
pub mod Commands
pub mod Events
