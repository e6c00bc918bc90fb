-- ===== src/Engine.antt =====
-- backend_v2/app/application/execution_engine.py: the canary-first engine. `Env` is what the engine
-- does not decide, `Retry` the attempts on one device, `Run`, `Rounds` and `RunJob` the
-- orchestration of a job; the other children are proofs.
pub mod Env
pub mod Retry
pub mod Run
pub mod Rounds
pub mod RunJob
pub mod Steps
pub mod Scheduling
pub mod Silence
pub mod Total
pub mod Course
pub mod Results
pub mod Examples
