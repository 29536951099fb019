-- ===== src/Guardrail.antt =====
-- The no-progress guardrail of long-running assets
-- (src/oddsfox_pipeline/resources/progress_guardrails.py). `State` holds the code, `Stalls` and
-- `Warnings` the proofs about it.
pub mod State
pub mod Stalls
pub mod Warnings
pub mod Tests
