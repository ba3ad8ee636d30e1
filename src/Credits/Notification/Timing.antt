-- ===== src/Credits/Notification/Timing.antt =====
-- How many days a plan has left.
use entity_developer_dashboa.Prelude.{ℕ, ◌+◌, ◌*◌, ◌≤◌, ◌<◌, ◌≡◌, arith}
use entity_developer_dashboa.Credits.Thresholds.{day_in_ms, remaining_days}

-- The remaining days of a plan that has not expired are the fewest whole days that reach its
-- expiry.
pub remaining_days_lem :
    (time expires_at : ℕ)
    → time ≤ expires_at
    → (expires_at ≤ time + remaining_days time expires_at * day_in_ms)
      × (time + remaining_days time expires_at * day_in_ms < expires_at + day_in_ms)
unfolding remaining_days
remaining_days_lem time expires_at h = (omega arith, omega arith)

-- A plan has no day left exactly when its expiry is not after the time of the scan.
pub remaining_days_zero :
    (time expires_at : ℕ)
    → (remaining_days time expires_at ≡ 0 → expires_at ≤ time)
      × (expires_at ≤ time → remaining_days time expires_at ≡ 0)
unfolding remaining_days
remaining_days_zero time expires_at = (λ h. omega arith, λ h. omega arith)
