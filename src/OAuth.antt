-- ===== src/OAuth.antt =====
-- The OAuth token provider (src/lib/OAuthProvider.ts).
pub mod Provider
pub mod Backoff
pub mod Freshness
pub mod Sharing
pub mod Persistence
mod Tests
