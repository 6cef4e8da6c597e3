-- ===== src/Selector.antt =====
-- internal/selector: the funnel that picks which implementation answers a capability.
pub mod Types
pub mod Quality
pub mod Funnel
pub mod Rank
pub mod Choose
pub mod Select
