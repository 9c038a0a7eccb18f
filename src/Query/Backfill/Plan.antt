-- ===== src/Query/Backfill/Plan.antt =====
-- internal/query/backfill.go: the step of a replay against its row ceiling.
use clickhouse_ruler.Base.{
  ℕ, ◌*◌, ◌/◌, ◌≤◌, ◌<◌, ◌≡◌, ◌⊎◌, Bool, true, false, if◌then◌else◌, ltb, Duration, pos, max_int64,
}
use clickhouse_ruler.Query.Backfill.{replay_windows, step_multiple}

-- The windows of a range, and how many the ceiling affords, as numbers.
abbrev windows_of : ℕ → ℕ → ℕ
windows_of span step = if ltb (span / step) 1 then 1 else span / step

abbrev allowed_of : ℕ → ℕ → ℕ
allowed_of per_window ceiling = if ltb (ceiling / per_window) 1 then 1 else ceiling / per_window

-- The replay of a range at a step has one window, or is predicted to read no more than the ceiling.
abbrev pub Fits : ℕ → ℕ → ℕ → Duration → Type 0
Fits span per_window ceiling step =
    (replay_windows (pos span) step * per_window ≤ ceiling) ⊎ (replay_windows (pos span) step ≡ 1)

-- What the plan promises: the replay fits, a step that is not raised is the one that was asked for, and it is
-- raised only where the replay that was asked for does not fit.
pub record Planned (span step per_window ceiling : ℕ) (plan : Duration × Bool) : Type 0 where
  pub fits : Fits span per_window ceiling plan.0
  pub kept : plan.1 ≡ false → plan.0 ≡ pos step
  pub needed : plan.1 ≡ true → ceiling < replay_windows (pos span) (pos step) * per_window

module _ (span step per_window ceiling : ℕ) (some_step : 1 ≤ step) where
  module _ (over : ceiling / windows_of span step < per_window) (span_fits : span ≤ max_int64)
      (step_fits : step ≤ max_int64) where
    abbrev multiple : ℕ
    multiple = step_multiple (windows_of span step) per_window ceiling
