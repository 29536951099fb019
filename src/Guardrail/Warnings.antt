-- ===== src/Guardrail/Warnings.antt =====
-- How often the guardrail warns of a stall.
use oddsfox_pipeline.Base.{
  ℕ, ◌+◌, ◌*◌, ◌-◌, ◌≤◌, List, [], ◌∷◌, some, Bool, true, false, ◌≡◌, ap, ◌∙◌, inl, inr, arith,
  Bool-cases, All,
}
use oddsfox_pipeline.Guardrail.State.{
  ProgressGuardrail, idle, snapshot, with_progress, record_progress, reached, with_soft_warning,
  heartbeat_at, after_timeouts, check,
}
use oddsfox_pipeline.Guardrail.Stalls.{check-keeps, record_progress-keeps}

-- Checks at the readings (now, later), one after another.
pub check_each : List (ℕ × ℕ) → ProgressGuardrail → ProgressGuardrail
check_each [] g = g
check_each ((now, later) ∷ readings) g = check_each readings (check now later g).1

-- There were `w` warnings since the last progress, one for each whole timeout without it.
pub record Warned (timeout before last end w : ℕ) (g : ProgressGuardrail) : Type 0 where
  pub soft : g.soft_timeout_seconds ≡ some timeout
  pub since : g.last_progress_at ≡ last
  pub counted : g.soft_warning_count ≡ before + w
  pub next : g.next_soft_warning_idle_seconds ≡ some (timeout * (w + 1))
  pub within : timeout * w ≤ end - last

check-warnings :
    (now later : ℕ) (g : ProgressGuardrail) (warned : Bool)
    → reached g.next_soft_warning_idle_seconds (idle now g) ≡ warned
    → ((check now later g).1.soft_warning_count ≡ (with_soft_warning warned g).soft_warning_count)
      × ((check now later g).1.next_soft_warning_idle_seconds
          ≡ (with_soft_warning warned g).next_soft_warning_idle_seconds)
unfolding check after_timeouts snapshot heartbeat_at with_soft_warning
check-warnings now later g true e = (ground arith, ground arith)
check-warnings now later g false e = (ground arith, ground arith)

check-Warned :
    (timeout before last end w now later : ℕ) (g : ProgressGuardrail)
    → Warned timeout before last end w g
    → now ≤ end
    → (w' : ℕ) × Warned timeout before last end w' (check now later g).1
unfolding with_soft_warning
check-Warned timeout before last end w now later g v le =
    let (hard, soft, since) = check-keeps now later g in
    elim (Bool-cases (reached g.next_soft_warning_idle_seconds (idle now g))) [
      | inl late ↦
          let (count, next) = check-warnings now later g true late in
          (
            w + 1,
            record {
              soft = soft ∙ v.soft;
              since = since ∙ v.since;
              counted = grind (arith, count, v.counted);
              next = next ∙ rw (v.next, v.soft) (ap some (omega arith));
              within = ground (arith, v.next, v.since);
            },
          )
      | inr early ↦
          let (count, next) = check-warnings now later g false early in
          (
            w,
            record {
              soft = soft ∙ v.soft;
              since = since ∙ v.since;
              counted = count ∙ v.counted;
              next = next ∙ v.next;
              within = v.within;
            },
          )
    ]

check_each-Warned :
    (timeout before last end w : ℕ) (readings : List (ℕ × ℕ)) (g : ProgressGuardrail)
    → Warned timeout before last end w g
    → All (λ r. r.0 ≤ end) readings
    → (w' : ℕ) × Warned timeout before last end w' (check_each readings g)
unfolding check_each
check_each-Warned timeout before last end w [] g v h = (w, v)
check_each-Warned timeout before last end w (r ∷ readings) g v h =
    let (w', v') = check-Warned timeout before last end w r.0 r.1 g v h.0 in
    check_each-Warned timeout before last end w' readings (check r.0 r.1 g).1 v' h.1

progress-Warned :
    (timeout now later work end : ℕ) (force : Bool) (g : ProgressGuardrail)
    → g.soft_timeout_seconds ≡ some timeout
    → Warned timeout g.soft_warning_count now end 0 (record_progress now later work force g).1
unfolding record_progress with_progress snapshot
progress-Warned timeout now later work end force g h =
    let (_, soft, since) = record_progress-keeps now later work force g in
    record {
      soft = soft ∙ h;
      since = since;
      counted = ground arith;
      next = ground arith;
      within = omega arith;
    }

-- After a progress at `now`, any number of checks up to the time `end` adds at most one soft warning
-- for each whole soft timeout that has passed in between.
pub record_progress-warnings :
    (timeout now later work end : ℕ) (force : Bool) (readings : List (ℕ × ℕ))
    (g : ProgressGuardrail)
    → g.soft_timeout_seconds ≡ some timeout
    → All (λ r. r.0 ≤ end) readings
    → (w : ℕ) × ((check_each readings (record_progress now later work force g).1).soft_warning_count
        ≡ g.soft_warning_count + w)
      × (timeout * w ≤ end - now)
record_progress-warnings timeout now later work end force readings g h k =
    let (w, v) =
      check_each-Warned timeout g.soft_warning_count now end 0 readings
        (record_progress now later work force g).1
        (progress-Warned timeout now later work end force g h) k in
    (w, v.counted, v.within)
