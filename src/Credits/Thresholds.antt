-- ===== src/Credits/Thresholds.antt =====
-- src/credits/services/credit-notification.service.ts: the thresholds of the alerts, the notes of the
-- last one sent, and the days of the expiry scan. Thresholds are whole numbers.
pub mod Reached
use entity_developer_dashboa.Prelude.{
  ℕ, ◌+◌, ◌-◌, ◌/◌, ◌%◌, Bool, true, false, ◌&&◌, Option, none, some, List, [], ◌∷◌, reverse, ltb,
  leb, if◌then◌else◌, find, keep,
}
use entity_developer_dashboa.Credits.Schema.{CreditPlan, is_active}

abbrev pub day_in_ms : ℕ
day_in_ms = 86400000

-- Array.prototype.sort by an order
module _ (before : ℕ → ℕ → Bool) where
  unfoldable pub insert_sorted : ℕ → List ℕ → List ℕ
  insert_sorted n [] = n ∷ []
  insert_sorted n (m ∷ ms) = if before n m then n ∷ m ∷ ms else m ∷ insert_sorted n ms

  unfoldable pub sort : List ℕ → List ℕ
  unfolding insert_sorted
  sort [] = []
  sort (n ∷ ns) = insert_sorted n (sort ns)

-- The thresholds that the constructor reads from the configuration.
unfoldable pub usage_thresholds : List ℕ → List ℕ
unfolding sort
usage_thresholds configured = sort (λ a b. leb a b) configured

unfoldable pub expiry_thresholds : List ℕ → List ℕ
unfolding sort
expiry_thresholds configured = sort (λ a b. leb b a) configured

-- [...thresholds].reverse().find((value) => usedPercentage >= value)
unfoldable pub reached_threshold : List ℕ → ℕ → Option ℕ
reached_threshold thresholds used = find (λ value. leb value used) (reverse thresholds)

-- `$exists: false` or `$lt: threshold`
unfoldable pub is_new_high : ℕ → Option ℕ → Bool
is_new_high threshold none = true
is_new_high threshold (some last) = ltb last threshold

-- `$exists: false` or `$gt: threshold`
unfoldable pub is_new_low : ℕ → Option ℕ → Bool
is_new_low threshold none = true
is_new_low threshold (some last) = ltb threshold last

unfoldable pub note_usage : ℕ → CreditPlan → CreditPlan
note_usage threshold p =
    let n = p.notification in
    record p { notification = record n { last_notified_usage_threshold = some threshold } }

unfoldable pub note_allowance : ℕ → CreditPlan → CreditPlan
note_allowance threshold p =
    let n = p.notification in
    record p {
      notification = record n { last_notified_allowance_usage_threshold = some threshold };
    }

unfoldable pub note_expiry : ℕ → CreditPlan → CreditPlan
note_expiry threshold p =
    let n = p.notification in
    record p { notification = record n { expiry_thresholds_sent = some threshold } }

-- Math.max(0, Math.ceil((expiresAt - now) / DAY_IN_MS))
unfoldable pub remaining_days : ℕ → ℕ → ℕ
remaining_days time expires_at = (expires_at - time + (day_in_ms - 1)) / day_in_ms

-- thresholds.filter((value) => remainingDays <= value).pop()
unfoldable pub last_of : List ℕ → Option ℕ
last_of [] = none
last_of (n ∷ []) = some n
last_of (n ∷ m ∷ ms) = last_of (m ∷ ms)

unfoldable pub expiry_threshold : List ℕ → ℕ → Option ℕ
unfolding last_of
expiry_threshold thresholds remaining = last_of (keep (λ value. leb remaining value) thresholds)

-- the filter of scanExpiringCredits
unfoldable pub is_expiring : ℕ → CreditPlan → Bool
is_expiring limit p =
    is_active p.status && (elim p.expires_at [ none ↦ false | some t ↦ leb t limit ])
