-- ===== src/Engine/Results.antt =====
-- What a caller of `run_job` may rely on, whatever the worker, the flags and the threads do.
pub mod Gate
pub mod LastEvent
pub mod Source
pub mod Provenance
pub mod Success
pub mod Termination
