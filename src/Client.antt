-- ===== src/Client.antt =====
-- internal/client: the HTTP client of the Tdarr API.
pub mod Transport
pub mod Body
pub mod Request
