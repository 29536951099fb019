-- ===== src/Guardrail/Tests.antt =====
-- The guardrail's theorems on a few calls.
use oddsfox_pipeline.Base.{
  ℕ, ◌+◌, ◌*◌, ◌-◌, ◌≤◌, List, [], ◌∷◌, none, some, false, ◌≡◌, refl, arith,
}
use oddsfox_pipeline.Guardrail.State.{
  ProgressGuardrail, Call, progress, checked, record_progress, run,
}
use oddsfox_pipeline.Guardrail.Stalls.{stalls, has_failed, run-stalls}
use oddsfox_pipeline.Guardrail.Warnings.{check_each, record_progress-warnings}

abbrev guardrail : ProgressGuardrail
guardrail = record {
  progress_log_interval_seconds = 60;
  soft_timeout_seconds = some 900;
  hard_timeout_seconds = some 2700;
  work_log_interval = none;
  started_at = 0;
  last_progress_at = 0;
  last_heartbeat_at = 0;
  last_logged_work = 0;
  work_completed = 0;
  soft_warning_count = 0;
  max_idle_seconds = 0;
  next_soft_warning_idle_seconds = some 900;
}

abbrev calls : List Call
calls = checked 1000 1000 ∷ progress 1200 1200 5 false ∷ checked 3000 3001 ∷ checked 3900 3900 ∷ []

run-stalls_example : has_failed (run calls guardrail).0 ≡ stalls 2700 0 calls
run-stalls_example = run-stalls calls 2700 guardrail refl

record_progress-warnings_example :
    (w : ℕ) × ((check_each
        ((1500, 1500) ∷ (2200, 2200) ∷ (3100, 3100) ∷ [])
        (record_progress 1200 1200 5 false guardrail).1).soft_warning_count
      ≡ 0 + w)
    × (900 * w ≤ 3100 - 1200)
record_progress-warnings_example =
    record_progress-warnings 900 1200 1200 5 3100 false
      ((1500, 1500) ∷ (2200, 2200) ∷ (3100, 3100) ∷ []) guardrail refl
      (omega arith, (omega arith, (omega arith, tt)))
