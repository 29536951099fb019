-- ===== src/Guardrail/State.antt =====
-- `ProgressGuardrail` of progress_guardrails.py. A time is a number of a unit that the clock counts
-- in, and a method takes the clock's readings: `now` under the lock, `later` in the snapshot that
-- `_emit` takes. What is written to the logger and the callback is the method's report.
use oddsfox_pipeline.Base.{
  ℕ, ◌+◌, ◌-◌, List, [], ◌∷◌, Option, none, some, Bool, true, false, ◌||◌, Result, ok, ◌>>◌,
  raise_if, max, leb, ◌==◌, if◌then◌else◌,
}

pub record ProgressGuardrail : Type 0 where
  pub progress_log_interval_seconds : ℕ
  pub soft_timeout_seconds : Option ℕ
  pub hard_timeout_seconds : Option ℕ
  pub work_log_interval : Option ℕ
  pub started_at : ℕ
  pub last_progress_at : ℕ
  pub last_heartbeat_at : ℕ
  pub last_logged_work : ℕ
  pub work_completed : ℕ
  pub soft_warning_count : ℕ
  pub max_idle_seconds : ℕ
  pub next_soft_warning_idle_seconds : Option ℕ

-- The `ValueError`s of the constructor.
pub data SettingError : Type 0 where
  log_interval work_interval soft_timeout hard_timeout hard_not_greater : SettingError

abbrev pub is_zero : Option ℕ → Bool
is_zero none = false
is_zero (some n) = n == 0

abbrev pub not_greater : Option ℕ → Option ℕ → Bool
not_greater (some soft) (some hard) = leb hard soft
not_greater _ _ = false

-- A negative setting is refused with the zeros, and is no case here.
unfoldable pub new_guardrail :
    ℕ → Option ℕ → Option ℕ → Option ℕ → ℕ → Result SettingError ProgressGuardrail
new_guardrail log_interval_seconds soft hard work_log now = do
  raise_if (log_interval_seconds == 0) log_interval
  raise_if (is_zero work_log) work_interval
  raise_if (is_zero soft) soft_timeout
  raise_if (is_zero hard) hard_timeout
  raise_if (not_greater soft hard) hard_not_greater
  ok (record {
    progress_log_interval_seconds = log_interval_seconds;
    soft_timeout_seconds = soft;
    hard_timeout_seconds = hard;
    work_log_interval = work_log;
    started_at = now;
    last_progress_at = now;
    last_heartbeat_at = now;
    last_logged_work = 0;
    work_completed = 0;
    soft_warning_count = 0;
    max_idle_seconds = 0;
    next_soft_warning_idle_seconds = soft;
  })

-- `max(0.0, now - self._last_progress_at)`
abbrev pub idle : ℕ → ProgressGuardrail → ℕ
idle now g = now - g.last_progress_at

-- What `snapshot` changes.
unfoldable pub snapshot : ℕ → ProgressGuardrail → ProgressGuardrail
snapshot now g = record g { max_idle_seconds = max g.max_idle_seconds (idle now g) }

abbrev pub enough_work : Option ℕ → ℕ → Bool
enough_work none work = false
enough_work (some interval) work = leb interval work

-- The assignments under the lock, ahead of the logging tests. A negative increment counts as zero.
unfoldable pub with_progress : ℕ → ℕ → ProgressGuardrail → ProgressGuardrail
with_progress now work_increment g = record g {
  max_idle_seconds = max g.max_idle_seconds (idle now g);
  last_progress_at = now;
  work_completed = g.work_completed + work_increment;
  next_soft_warning_idle_seconds = g.soft_timeout_seconds;
}

unfoldable pub should_log : ℕ → Bool → ProgressGuardrail → Bool
should_log now force_log g =
    force_log
    || enough_work g.work_log_interval (g.work_completed - g.last_logged_work)
    || leb g.progress_log_interval_seconds (now - g.last_heartbeat_at)

-- Whether the progress was logged, and the guardrail then.
unfoldable pub record_progress : ℕ → ℕ → ℕ → Bool → ProgressGuardrail → Bool × ProgressGuardrail
unfolding with_progress should_log snapshot
record_progress now later work_increment force_log g =
    let progressed = with_progress now work_increment g in
    if should_log now force_log progressed
    then (
      true,
      snapshot later (record progressed {
        last_heartbeat_at = now;
        last_logged_work = progressed.work_completed;
      }),
    )
    else (false, progressed)

pub data Report : Type 0 where
  quiet heartbeat soft_warning hard_failure : Report

abbrev pub reached : Option ℕ → ℕ → Bool
reached none idle_seconds = false
reached (some timeout) idle_seconds = leb timeout idle_seconds

-- `+=` on a threshold that is set together with the soft timeout.
abbrev pub add_timeout : Option ℕ → Option ℕ → Option ℕ
add_timeout (some next) (some timeout) = some (next + timeout)
add_timeout next timeout = next

unfoldable pub with_soft_warning : Bool → ProgressGuardrail → ProgressGuardrail
with_soft_warning false g = g
with_soft_warning true g = record g {
  soft_warning_count = g.soft_warning_count + 1;
  next_soft_warning_idle_seconds =
      add_timeout g.next_soft_warning_idle_seconds g.soft_timeout_seconds;
}

unfoldable pub heartbeat_at : ℕ → ProgressGuardrail → ProgressGuardrail
heartbeat_at now g = record g { last_heartbeat_at = now }

unfoldable pub heartbeat_due : ℕ → ProgressGuardrail → Bool
heartbeat_due now g = leb g.progress_log_interval_seconds (now - g.last_heartbeat_at)

-- A hard failure is logged and raised; a soft warning or a heartbeat is logged.
unfoldable pub report : Bool → Bool → Bool → Report
report true soft beat = hard_failure
report false true beat = soft_warning
report false false true = heartbeat
report false false false = quiet

-- The heartbeat, behind the tests of the two timeouts.
unfoldable pub after_timeouts : ℕ → ℕ → Bool → Bool → ProgressGuardrail → Report × ProgressGuardrail
unfolding heartbeat_at heartbeat_due report snapshot
after_timeouts now later hard soft g =
    let timed = if hard then heartbeat_at now g else g in
    let beat = heartbeat_due now timed in
    let after = if beat then heartbeat_at now timed else timed in
    (report hard soft beat, if hard || soft || beat then snapshot later after else after)

unfoldable pub check : ℕ → ℕ → ProgressGuardrail → Report × ProgressGuardrail
unfolding snapshot with_soft_warning after_timeouts
check now later g =
    let idle_seconds = idle now g in
    let soft = reached g.next_soft_warning_idle_seconds idle_seconds in
    after_timeouts now later (reached g.hard_timeout_seconds idle_seconds) soft
      (with_soft_warning soft (snapshot now g))

-- What the worker and the watching thread call, in the order in which they hold the lock.
pub data Call : Type 0 where
  progress : ℕ → ℕ → ℕ → Bool → Call
  checked : ℕ → ℕ → Call

-- The reports of the checks, up to a failure.
unfoldable pub run : List Call → ProgressGuardrail → List Report × ProgressGuardrail
unfolding record_progress check
run [] g = ([], g)
run (progress now later work force ∷ calls) g = run calls (record_progress now later work force g).1
run (checked now later ∷ calls) g =
    let (r, g') = check now later g in
    elim r [
      | hard_failure ↦ (hard_failure ∷ [], g')
      | quiet ↦ let (reports, g'') = run calls g' in (quiet ∷ reports, g'')
      | heartbeat ↦ let (reports, g'') = run calls g' in (heartbeat ∷ reports, g'')
      | soft_warning ↦ let (reports, g'') = run calls g' in (soft_warning ∷ reports, g'')
    ]
