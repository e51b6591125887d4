-- ===== src/Controllers/Machine/Convergence.antt =====
-- A machine becomes ready on a platform whose pods start.
pub mod Built
pub mod Provisioned
pub mod Prepared
pub mod Rounds
pub mod Limit
pub mod Whole
pub mod Settled
