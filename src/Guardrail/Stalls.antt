-- ===== src/Guardrail/Stalls.antt =====
-- The guardrail fails exactly on a stall.
use oddsfox_pipeline.Base.{
  ℕ, ◌-◌, List, [], ◌∷◌, some, Bool, true, false, ◌||◌, ◌≡◌, refl, ap, ◌∙◌, inl, inr, arith,
  Bool-cases, leb,
}
use oddsfox_pipeline.Guardrail.State.{
  ProgressGuardrail, Report, quiet, heartbeat, soft_warning, hard_failure, Call, progress, checked,
  idle, snapshot, with_progress, record_progress, with_soft_warning, heartbeat_at, report,
  after_timeouts, check, run,
}

-- Some check comes at least `timeout` behind the progress that came last before it.
pub stalls : ℕ → ℕ → List Call → Bool
stalls timeout last [] = false
stalls timeout last (progress now later work force ∷ calls) = stalls timeout now calls
stalls timeout last (checked now later ∷ calls) =
    leb timeout (now - last) || stalls timeout last calls

pub has_failed : List Report → Bool
has_failed [] = false
has_failed (hard_failure ∷ reports) = true
has_failed (_ ∷ reports) = has_failed reports

check-hard_failure :
    (now later timeout : ℕ) (g : ProgressGuardrail)
    → g.hard_timeout_seconds ≡ some timeout
    → leb timeout (idle now g) ≡ true
    → (check now later g).0 ≡ hard_failure
unfolding check after_timeouts report
check-hard_failure now later timeout g h t = rw (h, t) refl

pub data Passed : Report → Type 0 where
  quiet_passed : Passed quiet
  heartbeat_passed : Passed heartbeat
  warning_passed : Passed soft_warning

report-Passed : (soft beat : Bool) → Passed (report false soft beat)
unfolding report
report-Passed true beat = warning_passed
report-Passed false true = heartbeat_passed
report-Passed false false = quiet_passed

check-Passed :
    (now later timeout : ℕ) (g : ProgressGuardrail)
    → g.hard_timeout_seconds ≡ some timeout
    → leb timeout (idle now g) ≡ false
    → Passed (check now later g).0
unfolding check after_timeouts
check-Passed now later timeout g h t = rw (h, t) (report-Passed _ _)

-- A check keeps the hard timeout and the time of the last progress.
pub check-keeps :
    (now later : ℕ) (g : ProgressGuardrail)
    → ((check now later g).1.hard_timeout_seconds ≡ g.hard_timeout_seconds)
      × ((check now later g).1.soft_timeout_seconds ≡ g.soft_timeout_seconds)
      × ((check now later g).1.last_progress_at ≡ g.last_progress_at)
unfolding check after_timeouts snapshot with_soft_warning heartbeat_at
check-keeps now later g = (ground arith, ground arith, ground arith)

pub record_progress-keeps :
    (now later work : ℕ) (force : Bool) (g : ProgressGuardrail)
    → let g' = (record_progress now later work force g).1 in
      (g'.hard_timeout_seconds ≡ g.hard_timeout_seconds)
      × (g'.soft_timeout_seconds ≡ g.soft_timeout_seconds)
      × (g'.last_progress_at ≡ now)
unfolding record_progress with_progress snapshot
record_progress-keeps now later work force g = (ground arith, ground arith, ground arith)

-- With a hard timeout set, a run of calls ends in a failure exactly if some check comes at least the
-- timeout behind the progress before it; warnings, heartbeats and logs have no part in it.
pub run-stalls :
    (calls : List Call) (timeout : ℕ) (g : ProgressGuardrail)
    → g.hard_timeout_seconds ≡ some timeout
    → has_failed (run calls g).0 ≡ stalls timeout g.last_progress_at calls
unfolding run stalls has_failed
run-stalls [] timeout g h = refl
run-stalls (progress now later work force ∷ calls) timeout g h =
    let (hard, _, last) = record_progress-keeps now later work force g in
    run-stalls calls timeout (record_progress now later work force g).1 (hard ∙ h)
    ∙ ap (λ t. stalls timeout t calls) last
run-stalls (checked now later ∷ calls) timeout g h = elim (Bool-cases (leb timeout (idle now g))) [
  | inl late ↦ rw (check-hard_failure now later timeout g h late, late, run) refl
  | inr timely ↦
      let (hard, _, last) = check-keeps now later g in
      let rest =
        run-stalls calls timeout (check now later g).1 (hard ∙ h)
        ∙ ap (λ t. stalls timeout t calls) last in
      rw timely (passed (check now later g).0 refl (check-Passed now later timeout g h timely) rest)
]
  where
    passed :
        (r : Report)
        → (check now later g).0 ≡ r
        → Passed r
        → has_failed (run calls (check now later g).1).0 ≡ stalls timeout g.last_progress_at calls
        → has_failed (run (checked now later ∷ calls) g).0 ≡ stalls timeout g.last_progress_at calls
    passed quiet e p rest = rw (e, run) rest
    passed heartbeat e p rest = rw (e, run) rest
    passed soft_warning e p rest = rw (e, run) rest
    passed hard_failure e p rest = elim p [ ]
