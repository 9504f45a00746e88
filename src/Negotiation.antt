-- ===== src/Negotiation.antt =====
-- response.go: the choice of a representation by the `Accept` header.
pub mod Header
pub mod Accept
pub mod Selection
pub mod Best
pub mod Chosen
mod Tests
