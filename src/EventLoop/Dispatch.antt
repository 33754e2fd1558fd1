-- ===== src/EventLoop/Dispatch.antt =====
-- src/event_loop.cpp: what the dispatch of a batch of events runs.
use edge_link.Prelude.{
  ℕ, ◌≡◌, refl, sym, ap, ◌∙◌, inl, inr, Bool, false, none, List, [], ◌∷◌, ◌++◌, eqb, if◌then◌else◌,
  eqb_iff, Bool-cases, Option-cases,
}
use edge_link.EventLoop.{Events, EventLoop, Callback, handle_event, Wait, dispatch, run_loop}
use edge_link.MessageBus.Index.{registered}
use edge_link.Prelude.Dict.{find}
use edge_link.Prelude.Keys.{text_eq, nat_eq}

-- The events of other descriptors.
abbrev pub events_without : ℕ → List (ℕ × Events) → List (ℕ × Events)
events_without fd [] = []
events_without fd ((d, revents) ∷ events) =
    let rest = events_without fd events in if eqb d fd then rest else (d, revents) ∷ rest

module _ {S : Type 0} (loop_of : S → EventLoop) (set_running : Bool → S → S)
    (react : Callback → ℕ → S → S) where
  -- No channel is called that is not there when its turn comes.
  dispatch_absent :
      (fd : ℕ) (events : List (ℕ × Events)) (s : S)
      → ((c : Callback) (d : ℕ) (t : S)
          → find fd (loop_of t).channels ≡ none
          → find fd (loop_of (react c d t)).channels ≡ none)
      → find fd (loop_of s).channels ≡ none
      → let run_batch = dispatch loop_of set_running react in
        run_batch events s ≡ run_batch (events_without fd events) s
  unfolding dispatch
  dispatch_absent fd [] s never gone = refl
  dispatch_absent fd ((d, revents) ∷ events) s never gone = elim (Bool-cases (eqb d fd)) [
    | inl e ↦
        let same : find d (loop_of s).channels ≡ none =
          ap (λ k. find k (loop_of s).channels) ((eqb_iff d fd).0 e) ∙ gone in
        rw (e, same, dispatch) (dispatch_absent fd events s never gone)
    | inr e ↦ elim (Option-cases (find d (loop_of s).channels)) [
      | inl absent_now ↦
          rw (e, dispatch, absent_now, dispatch) (dispatch_absent fd events s never gone)
      | inr (registered, found) ↦
          rw (e, dispatch, found, dispatch)
            (dispatch_absent fd events (react (handle_event revents) d s) never
              (never (handle_event revents) d s gone))
    ]
  ]

  dispatch-append :
      (first later : List (ℕ × Events)) (s : S)
      → let run_batch = dispatch loop_of set_running react in
        run_batch (first ++ later) s ≡ run_batch later (run_batch first s)
  unfolding dispatch
  dispatch-append [] later s = refl
  dispatch-append ((d, revents) ∷ first) later s =
      elim (Option-cases (find d (loop_of s).channels)) [
        | inl absent_now ↦ rw (absent_now, dispatch) (dispatch-append first later s)
        | inr (registered, found) ↦
            rw (found, dispatch) (dispatch-append first later (react (handle_event revents) d s))
      ]

  -- Once the callbacks of the first events of a batch have left a descriptor without a channel, and as
  -- long as no callback registers it again, the later events that epoll has reported for it in the
  -- same batch run nothing: no callback of a channel is called after its removal.
  pub dispatch_removed :
      (fd : ℕ) (first later : List (ℕ × Events)) (s : S)
      → ((c : Callback) (d : ℕ) (t : S)
          → find fd (loop_of t).channels ≡ none
          → find fd (loop_of (react c d t)).channels ≡ none)
      → find fd (loop_of (dispatch loop_of set_running react first s)).channels ≡ none
      → let run_batch = dispatch loop_of set_running react in
        run_batch (first ++ later) s ≡ run_batch (first ++ events_without fd later) s
  dispatch_removed fd first later s never gone =
      dispatch-append first later s
      ∙ dispatch_absent fd later (dispatch loop_of set_running react first s) never gone
      ∙ sym (dispatch-append first (events_without fd later) s)

  -- A program that has stopped the loop gets no further events: the loop ends before it waits again.
  pub run_loop_stopped :
      (waits : List Wait) (s : S)
      → (loop_of s).running ≡ false
      → run_loop loop_of set_running react waits s ≡ (false, set_running false s)
  unfolding run_loop
  run_loop_stopped [] s stopped = rw stopped refl
  run_loop_stopped (Wait.interrupted ∷ waits) s stopped = rw stopped refl
  run_loop_stopped (Wait.failed ∷ waits) s stopped = refl
  run_loop_stopped (Wait.ready events ∷ waits) s stopped = rw stopped refl
