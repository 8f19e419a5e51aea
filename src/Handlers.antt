-- ===== src/Handlers.antt =====
-- The request handlers.
pub mod Init
pub mod Echo
pub mod Health
pub mod NotFound
pub mod Status
pub mod Static
pub mod Framed
pub mod Proxy
pub mod Login
pub mod Calls
pub mod Visits
