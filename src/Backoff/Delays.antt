-- ===== src/Backoff/Delays.antt =====
-- The sequence of delays of src/reconnect_backoff.cpp.
use native.Mathlib.Nat.{pow-suc}
use edge_link.Backoff
use edge_link.Prelude.{
  ℕ, suc, ◌+◌, ◌*◌, ◌^◌, ◌≤◌, ◌<◌, min, ◌≡◌, refl, ap, ◌∙◌, some, List, [], ◌∷◌, arith, length,
}
use edge_link.Backoff.{Backoff, record_failure, reset, record_failures}
use edge_link.Prelude.Int.{ℤ}
use edge_link.Prelude.Keys.{nat_eq, text_eq}

pub record IsValid (b : Backoff) : Type 0 where
  pub positive : 0 < b.initial_delay
  pub lower : b.initial_delay ≤ b.next_delay
  pub upper : b.next_delay ≤ b.maximum_delay

pub create-IsValid :
    (initial maximum : ℤ) (b : Backoff) → Backoff.create initial maximum ≡ some b → IsValid b
unfolding Backoff.create
create-IsValid initial maximum b h = ground arith

pub record_failure-IsValid : (b : Backoff) (now : ℕ) → IsValid b → IsValid (record_failure b now)
unfolding record_failure
record_failure-IsValid b now v = ground arith

pub reset-IsValid : (b : Backoff) → IsValid b → IsValid (reset b)
unfolding reset
reset-IsValid b v = ground arith

-- The delay after `n` failures in a row: doubled each time, up to the maximum.
abbrev pub delay_after : ℕ → ℕ → ℕ → ℕ
delay_after initial maximum n = min (initial * 2 ^ n) maximum

doubled : (i m n : ℕ) → min (delay_after i m n * 2) m ≡ delay_after i m (suc n)
doubled i m n = omega (arith, pow-suc 2 n, ap (λ (p : ℕ). i * p) (pow-suc 2 n))

record_failure_fields :
    (b : Backoff) (t : ℕ)
    → b.next_delay ≤ b.maximum_delay
    → let b' = record_failure b t in
      (b'.next_delay ≡ min (b.next_delay * 2) b.maximum_delay)
      × (b'.initial_delay ≡ b.initial_delay)
      × (b'.maximum_delay ≡ b.maximum_delay)
unfolding record_failure
record_failure_fields b t h = ground arith

record_failures-from :
    (ts : List ℕ) (i m n : ℕ) (b : Backoff)
    → b.initial_delay ≡ i
    → b.maximum_delay ≡ m
    → b.next_delay ≡ delay_after i m n
    → (record_failures b ts).next_delay ≡ delay_after i m (n + length ts)
unfolding record_failures
record_failures-from [] i m n b p q h = h ∙ ap (delay_after i m) (omega arith)
record_failures-from (t ∷ ts) i m n b p q h =
    let f = record_failure_fields b t (omega arith) in
    record_failures-from ts i m (suc n) (record_failure b t) (f.1 ∙ p) (f.2 ∙ q)
      (f.0 ∙ rw (q, h) (doubled i m n))
    ∙ ap (delay_after i m) (omega arith)

-- For a backoff whose delays are in order: after any number of failures in a row, counted from a
-- reset, the next delay is the initial one doubled that many times and cut off at the maximum.
pub record_failures-reset :
    (b : Backoff) (ts : List ℕ)
    → IsValid b
    → (record_failures (reset b) ts).next_delay
      ≡ min (b.initial_delay * 2 ^ length ts) b.maximum_delay
unfolding reset
record_failures-reset b ts v =
    record_failures-from ts b.initial_delay b.maximum_delay 0 (reset b) refl refl (omega arith)
    ∙ ap (delay_after b.initial_delay b.maximum_delay) (omega arith)
