-- ===== src/Matching.antt =====
-- The matching engine of trading/matching-engine.
pub mod Types
pub mod Level
pub mod Book
pub mod Trade
pub mod Engine
mod Examples
