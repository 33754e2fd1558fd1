-- ===== src/Backoff.antt =====
-- src/reconnect_backoff.cpp: the delay before the next attempt to connect. Times are nanoseconds of
-- the steady clock, delays are milliseconds; `now` is what the clock returns in the call. Signed
-- overflow is undefined in C++: the sums are exact here, and `Delays` bounds them.
pub mod Delays
pub mod Waiting
use edge_link.Prelude.{
  ℕ, ◌+◌, ◌-◌, ◌*◌, ◌/◌, min, Bool, ◌||◌, Option, none, some, List, [], ◌∷◌, leb, eqb,
  if◌then◌else◌, inc64,
}
use edge_link.Connection.{ns_per_ms}
use edge_link.Prelude.Int.{ℤ, pos, pos_part, ltb_ℤ, leb_ℤ}
use edge_link.Prelude.Keys.{nat_eq, text_eq}

pub record Backoff : Type 0 where
  pub initial_delay : ℕ
  pub maximum_delay : ℕ
  pub next_delay : ℕ
  pub retry_at : ℕ
  pub failure_count : ℕ

-- The constructor; `none` where it throws.
unfoldable pub create : ℤ → ℤ → Option Backoff
create initial maximum =
    if leb_ℤ initial (pos 0) || ltb_ℤ maximum initial
    then none
    else some (record {
      initial_delay = pos_part initial;
      maximum_delay = pos_part maximum;
      next_delay = pos_part initial;
      retry_at = 0;
      failure_count = 0;
    })

unfoldable pub record_failure : Backoff → ℕ → Backoff
record_failure b now =
    let failed = record b {
      retry_at = now + b.next_delay * ns_per_ms;
      failure_count = inc64 b.failure_count;
    } in
    if leb b.maximum_delay b.next_delay
    then record failed { next_delay = b.maximum_delay }
    else record failed { next_delay = min (b.next_delay * 2) b.maximum_delay }

unfoldable pub reset : Backoff → Backoff
reset b = record b { failure_count = 0; next_delay = b.initial_delay; retry_at = 0 }

unfoldable pub can_retry : Backoff → ℕ → Bool
can_retry b now = eqb b.failure_count 0 || leb b.retry_at now

unfoldable pub remaining_delay : Backoff → ℕ → ℕ
remaining_delay b now =
    if eqb b.failure_count 0
    then 0
    else if leb b.retry_at now
    then 0
    else (b.retry_at - now) / ns_per_ms

-- Failures at the times of the list, one after the other.
unfoldable pub record_failures : Backoff → List ℕ → Backoff
record_failures b [] = b
record_failures b (t ∷ ts) = record_failures (record_failure b t) ts
