-- ===== src/Timer.antt =====
-- src/timer.cpp: a timer over a `timerfd`. The kernel's answer to `timerfd_settime` is an argument;
-- the setting that the descriptor holds is part of the state, and a zero `it_value` means disarmed.
-- `C` is the type of the callbacks.
use edge_link.Prelude.{
  ℕ, ◌+◌, ◌*◌, ◌/◌, ◌%◌, ◌<◌, ◌≡◌, refl, inl, inr, Bool, true, false, not, ◌&&◌, Option, none, some,
  arith, eqb, if◌then◌else◌, eqb_iff, Bool-cases,
}
use edge_link.Prelude.Keys.{text_eq, nat_eq}
use edge_link.TcpServer.Loops.{bytes_read}

pub record TimerSpec : Type 0 where
  pub value_sec : ℕ
  pub value_nsec : ℕ
  pub interval_sec : ℕ
  pub interval_nsec : ℕ

abbrev pub disarmed : TimerSpec
disarmed = record { value_sec = 0; value_nsec = 0; interval_sec = 0; interval_nsec = 0 }

abbrev pub is_armed : TimerSpec → Bool
is_armed spec = not (eqb spec.value_sec 0 && eqb spec.value_nsec 0)

-- When the descriptor becomes readable for the (`k` + 1)th time, in nanoseconds after the setting, as
-- the manual of `timerfd_settime` has it; `none` where it does not.
abbrev pub expires_at : TimerSpec → ℕ → Option ℕ
expires_at spec k =
    let first = spec.value_sec * 1000000000 + spec.value_nsec in
    let period = spec.interval_sec * 1000000000 + spec.interval_nsec in
    if eqb first 0
    then none
    else if eqb k 0
    then some first
    else if eqb period 0
    then none
    else some (first + k * period)

pub record Timer (C : Type 0) : Type 0 where
  pub callback : Option C
  pub spec : TimerSpec

-- The specs that `startOnce` and `startPeriodic` build from milliseconds.
abbrev pub once_spec : ℕ → TimerSpec
once_spec ms = record {
  value_sec = ms / 1000;
  value_nsec = ms % 1000 * 1000000;
  interval_sec = 0;
  interval_nsec = 0;
}

abbrev pub periodic_spec : ℕ → TimerSpec
periodic_spec ms = record {
  value_sec = ms / 1000;
  value_nsec = ms % 1000 * 1000000;
  interval_sec = ms / 1000;
  interval_nsec = ms % 1000 * 1000000;
}

module _ {C : Type 0} where
  -- A constructed timer: no callback, nothing armed.
  unfoldable pub new : Timer C
  new = record { callback = none; spec = disarmed }

  -- The callback is replaced also where the kernel refuses the setting.
  unfoldable pub start_once : Timer C → Bool → ℕ → Option C → Bool × Timer C
  start_once t accepted delay_ms callback =
      if accepted
      then (true, record t { callback = callback; spec = once_spec delay_ms })
      else (false, record t { callback = callback })

  unfoldable pub start_periodic : Timer C → Bool → ℕ → Option C → Bool × Timer C
  start_periodic t accepted interval_ms callback =
      if accepted
      then (true, record t { callback = callback; spec = periodic_spec interval_ms })
      else (false, record t { callback = callback })

  -- On an open descriptor the kernel takes the zero setting.
  unfoldable pub stop : Timer C → Timer C
  stop t = record t { spec = disarmed }

  -- What `handleRead` calls, given the number of bytes that `read` returned.
  unfoldable pub handle_read : Timer C → ℕ → Option C
  handle_read t bytes_read = if not (eqb bytes_read 8) then none else t.callback

  -- An accepted start keeps the callback, which `handleRead` then calls on a full read, and sets a
  -- time whose nanoseconds are below one second, as the kernel asks. Where the delay is not 0, the
  -- descriptor becomes readable once, exactly after the delay, or, for a periodic start, after each
  -- multiple of the interval; after `stop`, never. With a delay of 0 the start reports success too,
  -- but the descriptor never becomes readable.
  pub timer_start_lem :
      (t : Timer C) (ms k : ℕ) (callback : Option C)
      → let (once_ok, once) = start_once t true ms callback in
        let (periodic_ok, periodic) = start_periodic t true ms callback in
        (once_ok ≡ true)
        × (periodic_ok ≡ true)
        × (handle_read once 8 ≡ callback)
        × (handle_read periodic 8 ≡ callback)
        × (once.spec.value_nsec < 1000000000)
        × (periodic.spec.interval_nsec < 1000000000)
        × (expires_at once.spec k
            ≡ (if eqb ms 0 then none else if eqb k 0 then some (ms * 1000000) else none))
        × (expires_at periodic.spec k
            ≡ (if eqb ms 0 then none else some (ms * 1000000 + k * (ms * 1000000))))
        × (expires_at (stop once).spec k ≡ none)
  unfolding start_once start_periodic stop handle_read
  timer_start_lem t ms k callback =
      let whole : ms / 1000 * 1000000000 + ms % 1000 * 1000000 ≡ ms * 1000000 = omega arith in
      let none_left : eqb (ms * 1000000) 0 ≡ eqb ms 0 = ground arith in
      rw (whole, none_left)
        (
          refl,
          refl,
          refl,
          refl,
          omega arith,
          omega arith,
          refl,
          elim (Bool-cases (eqb k 0)) [
            | inl e ↦ let first : k ≡ 0 = (eqb_iff k 0).0 e in rw (e, first) (ground arith)
            | inr e ↦ rw e (ground arith)
          ],
          refl,
        )
