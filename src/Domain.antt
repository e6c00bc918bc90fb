-- ===== src/Domain.antt =====
-- backend_v2/app/domain: the records of the program and the job lifecycle.
pub mod Models
pub mod StateMachine
