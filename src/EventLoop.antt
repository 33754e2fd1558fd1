-- ===== src/EventLoop.antt =====
-- src/event_loop.cpp and src/channel.cpp: the channels that are registered with epoll, and the dispatch
-- of ready events. A channel is its descriptor and its events; what its callbacks do is a parameter.
-- What `epoll_ctl` and `epoll_wait` answer is an argument.
pub mod Dispatch
use edge_link.Prelude.{ℕ, Bool, true, false, ◌||◌, none, some, List, [], ◌∷◌, if◌then◌else◌}
use edge_link.Prelude.Dict.{find, put, erase}
use edge_link.Prelude.Keys.{text_eq, nat_eq}

-- The bits of `EPOLLERR`, `EPOLLHUP`, `EPOLLIN`, `EPOLLRDHUP` and `EPOLLOUT`.
pub record Events : Type 0 where
  pub err : Bool
  pub hup : Bool
  pub input : Bool
  pub rdhup : Bool
  pub output : Bool

-- `EPOLLIN | EPOLLRDHUP`, and with `EPOLLOUT`.
abbrev pub reading_events : Events
reading_events = record { err = false; hup = false; input = true; rdhup = true; output = false }

abbrev pub both_events : Events
both_events = record { err = false; hup = false; input = true; rdhup = true; output = true }

abbrev pub accepting_events : Events
accepting_events = record { err = false; hup = false; input = true; rdhup = false; output = false }

pub record EventLoop : Type 0 where
  pub channels : List (ℕ × Events)
  pub running : Bool

unfoldable pub new : EventLoop
new = record { channels = []; running = false }

unfoldable pub add_channel : Bool → ℕ → Events → EventLoop → Bool × EventLoop
add_channel ok fd events loop =
    if ok then (true, record loop { channels = put fd events loop.channels }) else (false, loop)

unfoldable pub remove_channel : Bool → ℕ → EventLoop → Bool × EventLoop
remove_channel ok fd loop =
    if ok then (true, record loop { channels = erase fd loop.channels }) else (false, loop)

pub data Callback : Type 0 where
  on_error on_read on_write on_nothing : Callback

-- Which callback `Channel::handleEvent` runs.
unfoldable pub handle_event : Events → Callback
handle_event r =
    if r.err || r.hup
    then Callback.on_error
    else if r.input || r.rdhup
    then Callback.on_read
    else if r.output
    then Callback.on_write
    else Callback.on_nothing

-- What `epoll_wait` answers.
pub data Wait : Type 0 where
  interrupted failed : Wait
  ready : List (ℕ × Events) → Wait

-- `S` is the state of the program, which holds the loop.
module _ {S : Type 0} (loop_of : S → EventLoop) (set_running : Bool → S → S)
    (react : Callback → ℕ → S → S) where
  -- The channel is looked up when its turn comes, so a callback that removes it is heeded.
  unfoldable pub dispatch : List (ℕ × Events) → S → S
  dispatch [] s = s
  dispatch ((fd, revents) ∷ events) s = elim (find fd (loop_of s).channels) [
    | none ↦ dispatch events s
    | some registered ↦ dispatch events (react (handle_event revents) fd s)
  ]

  -- The loop over the answers of `epoll_wait`; where they run out, it waits, which the Boolean tells.
  unfoldable pub run_loop : List Wait → S → Bool × S
  run_loop [] s = if (loop_of s).running then (true, s) else (false, set_running false s)
  run_loop (Wait.interrupted ∷ waits) s =
      if (loop_of s).running then run_loop waits s else (false, set_running false s)
  run_loop (Wait.failed ∷ waits) s = (false, set_running false s)
  run_loop (Wait.ready events ∷ waits) s =
      if (loop_of s).running
      then run_loop waits (dispatch events s)
      else (false, set_running false s)

  unfoldable pub run : List Wait → S → Bool × S
  run waits s = run_loop waits (set_running true s)
