-- ===== src/Backoff/Waiting.antt =====
-- When src/reconnect_backoff.cpp lets the next attempt go ahead.
use edge_link.Prelude.{ℕ, ◌+◌, ◌*◌, ◌≤◌, ◌<◌, ◌≡◌, true, false, arith, leb, u64_mod}
use edge_link.Backoff.{Backoff, record_failure, reset, can_retry, remaining_delay}
use edge_link.Connection.{ns_per_ms}
use edge_link.Prelude.Keys.{nat_eq, text_eq}

-- After a failure at the time `t`, below the wrap of the failure counter, an attempt is allowed
-- exactly from `t` plus the delay that was due on.
pub can_retry-record_failure :
    (b : Backoff) (t now : ℕ)
    → b.failure_count + 1 < u64_mod
    → (can_retry (record_failure b t) now ≡ leb (t + b.next_delay * ns_per_ms) now)
      × (can_retry (reset b) now ≡ true)
      × (remaining_delay (reset b) now ≡ 0)
unfolding can_retry record_failure reset remaining_delay
can_retry-record_failure b t now h = ground arith

-- The remaining delay is 0 where an attempt is allowed. Where it is not, the delay reported is the
-- wait in whole milliseconds, rounded down: it ends no later than the scheduled time, and one
-- millisecond more is always enough.
pub remaining_delay_lem :
    (b : Backoff) (now : ℕ)
    → let r = remaining_delay b now in
      (can_retry b now ≡ true → r ≡ 0)
      × (can_retry b now ≡ false
          → (now + r * ns_per_ms ≤ b.retry_at)
            × (b.retry_at < now + (r + 1) * ns_per_ms)
            × (can_retry b (now + (r + 1) * ns_per_ms) ≡ true))
unfolding can_retry remaining_delay
remaining_delay_lem b now = ground arith
