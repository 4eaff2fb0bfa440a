-- ===== src/Utils/Stat.antt =====
-- src/common/stat.h: counters and samples that are reported from time to time. `now` and `later` are
-- two readings of the clock, for the check of the timer and for the report; the callback of a report
-- is a value that is returned. `disable_stat` is the flag `__FAAS_DISABLE_STAT` of the build. Counts
-- are numbers without a limit.
pub mod Counted
pub mod Collected
mod Tests
use nightcore.Prelude.{
  ◌≡◌, ℕ, suc, ◌+◌, ◌-◌, ◌*◌, ◌/◌, ◌≤◌, Bool, true, false, not, ◌&&◌, Option, none, some, List, [],
  ◌∷◌, ◌++◌, length, get_elem?, ltb, leb, if◌then◌else◌,
}
use nightcore.Prelude.Int.{ℤ, pos, negsuc, ltb_ℤ, eq_ℤ, narrow32, ◌-ℤ◌}
use nightcore.Prelude.Map.{Map, lookup, insert}
use nightcore.Prelude.Result.{Result, ok, err, out_of_bounds, ◌>>=◌, ◌>>◌, check}
use nightcore.Utils.Average.{Doubles, of_ℕ}

pub record ReportTimer : Type 0 where
  pub report_interval_in_ms : ℕ
  pub last_report_time : ℤ

-- The timer of the interval that was drawn.
abbrev pub new_timer : ℕ → ReportTimer
new_timer interval = record { report_interval_in_ms = interval; last_report_time = negsuc 0 }

-- `random` is a number between 0.9 and 1.1, and `to_uint32` drops the fraction.
unfoldable pub set_report_interval_in_ms :
    (D : Doubles) → (D.F → ℕ) → ℕ → D.F → ReportTimer → ReportTimer
set_report_interval_in_ms D to_uint32 value random t = record t {
  report_interval_in_ms = to_uint32 (D.mul (of_ℕ D value) random);
}

unfoldable pub is_due : ℤ → ReportTimer → Bool × ReportTimer
is_due now t =
    if eq_ℤ t.last_report_time (negsuc 0)
    then (false, record t { last_report_time = now })
    else (ltb_ℤ (pos (t.report_interval_in_ms * 1000)) (now -ℤ t.last_report_time), t)

-- Division of signed numbers, which rounds to zero.
abbrev us_to_ms : ℤ → ℤ
us_to_ms (pos n) = pos (n / 1000)
us_to_ms (negsuc n) = pos 0 -ℤ pos (suc n / 1000)

unfoldable pub mark_report : ℤ → ReportTimer → ℤ × ReportTimer
mark_report now t =
    (narrow32 (us_to_ms (now -ℤ t.last_report_time)), record t { last_report_time = now })

pub record Counter : Type 0 where
  pub report_timer : ReportTimer
  pub value : ℕ
  pub last_report_value : ℕ

pub record CounterReport : Type 0 where
  pub duration_ms : ℤ
  pub new_value : ℕ
  pub old_value : ℕ

-- The report of a counter that is due, and the counter after it.
abbrev pub counter_report : ℤ → Counter → Option CounterReport × Counter
counter_report later c =
    let (duration, timer) = mark_report later c.report_timer in
    (
      some
          (record { duration_ms = duration; new_value = c.value; old_value = c.last_report_value }),
      record c { report_timer = timer; last_report_value = c.value },
    )

abbrev pub report_if_due : ℤ → ℤ → Counter → Option CounterReport × Counter
report_if_due now later c =
    let (due, timer) = is_due now c.report_timer in
    let checked : Counter = record c { report_timer = timer } in
    if ltb c.last_report_value c.value
    then (if due then counter_report later checked else (none, checked))
    else (none, c)

unfoldable pub tick : Bool → ℤ → ℤ → ℕ → Counter → Result (Option CounterReport × Counter)
tick true now later delta c = ok (none, c)
tick false now later delta c = do
  check (ltb 0 delta)
  ok (report_if_due now later (record c { value = c.value + delta }))

pub record Report {ℓ} (T : Type ℓ) : Type ℓ where
  pub p30 : T
  pub p50 : T
  pub p70 : T
  pub p90 : T
  pub p99 : T
  pub p99_9 : T

pub record Collector {ℓ} (T : Type ℓ) : Type ℓ where
  pub min_report_samples : ℕ
  pub force_enabled : Bool
  pub report_timer : ReportTimer
  pub samples : List T

pub record CollectorReport {ℓ} (T : Type ℓ) : Type ℓ where
  pub duration_ms : ℤ
  pub n_samples : ℕ
  pub report : Report T

-- The index of a percentile among `n` samples; a `size_t` is not negative.
abbrev pub clamp_index : ℕ → ℕ → ℕ
clamp_index n idx = if leb n idx then n - 1 else idx

abbrev pub percentile_index : (D : Doubles) → ℕ → D.F → ℕ
percentile_index D n p = clamp_index n (D.round (D.mul (of_ℕ D n) p))

module _ {ℓ} {T : Type ℓ} (D : Doubles) where
  unfoldable pub percentile : List T → D.F → Result T
  percentile samples p = elim (get_elem? samples (percentile_index D (length samples) p)) [
    | none ↦ err out_of_bounds
    | some x ↦ ok x
  ]

  -- Of samples that are sorted.
  unfoldable pub build_report : List T → Result (Report T)
  build_report samples = do
    a ← percentile samples (D.scaled (pos 3) 1)
    b ← percentile samples (D.scaled (pos 5) 1)
    c ← percentile samples (D.scaled (pos 7) 1)
    d ← percentile samples (D.scaled (pos 9) 1)
    e ← percentile samples (D.scaled (pos 99) 2)
    f ← percentile samples (D.scaled (pos 999) 3)
    ok (record { p30 = a; p50 = b; p70 = c; p90 = d; p99 = e; p99_9 = f })

module _ {ℓ} {T : Type ℓ} (D : Doubles) (sort : List T → List T) where
  unfoldable pub send_report : ℤ → Collector T → Result (Option (CollectorReport T) × Collector T)
  send_report later c = do
    let sorted = sort c.samples
    report ← build_report D sorted
    let (duration, timer) = mark_report later c.report_timer
    ok (
      some (record { duration_ms = duration; n_samples = length sorted; report = report }),
      record c { report_timer = timer; samples = [] },
    )

  abbrev pub send_if_due : ℤ → ℤ → Collector T → Result (Option (CollectorReport T) × Collector T)
  send_if_due now later c =
      let (due, timer) = is_due now c.report_timer in
      let checked : Collector T = record c { report_timer = timer } in
      let report = send_report later checked in
      if leb c.min_report_samples (length c.samples)
      then (if due then report else ok (none, checked))
      else ok (none, c)

  unfoldable pub add_sample :
      Bool → ℤ → ℤ → T → Collector T → Result (Option (CollectorReport T) × Collector T)
  add_sample disable_stat now later sample c =
      let report = send_if_due now later (record c { samples = c.samples ++ sample ∷ [] }) in
      if disable_stat && not c.force_enabled then ok (none, c) else report
