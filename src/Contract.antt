-- ===== src/Contract.antt =====
-- pkg/contract: the types that the core and its adapters share.
pub mod Plan
pub mod Enums
pub mod Names
pub mod Ids
pub mod Implementation
pub mod Capability
pub mod Kinds
pub mod Validate
pub mod Version
pub mod Completeness
pub mod Payload
pub mod Schema
pub mod Value
