-- ===== src/Controllers/Machine/Lifecycle.antt =====
-- A machine's life in stages, and the reconciler as a refinement of it.
pub mod Stages
pub mod Refinement
