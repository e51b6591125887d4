-- ===== src/Controllers/Machine/Calls.antt =====
-- The calls that a reconciliation of a machine makes, in order, as a grammar of its log.
pub mod ClaimCalls
pub mod Container
pub mod Provision
pub mod Normal
pub mod Lengths
pub mod Bounds
pub mod Grows
