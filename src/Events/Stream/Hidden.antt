-- ===== src/Events/Stream/Hidden.antt =====
-- app/static/js/events.js: the stream of a page that is hidden or left.
use fetchly.Common.{List, Bool, false, ◌||◌, ℕ, ◌≡◌, refl, true, some, [], ◌∷◌, arith, subst, ◌∙◌}
use fetchly.Events.Stream.{
  Stream, Event, connects, opens, shuts_down, needs_authentication, browser_closes, enables, shows,
  handle_page_show, on_shutdown, on_authentication_required, set_event_stream_enabled,
  resets_sequences, reconciles, teardown_active, teardown, clear_reconnect_timer, on_open,
  handle_page_hide, handle_visibility_change, connect_event_stream, open_stream, hides,
  changes_visibility, fails, recovers, times_out, step, run, begin_recovery, end_recovery,
  schedule_reconnect, timer_fires,
}
use fetchly.Events.Stream.Leaks.{Owned, IsOwned, IsClosed, teardown_active-IsClosed, close_own}

-- The opening of a stream, after which a snapshot is no longer due.
abbrev pub is_opening : Event → Bool
is_opening opens = true
is_opening _ = false

abbrev pub has_opening : List Event → Bool
has_opening [] = false
has_opening (e ∷ es) = is_opening e || has_opening es

-- Nothing is open, no timer runs, and the next stream to open, whatever comes before it, asks for a snapshot.
pub record IsQuiet (s : Stream) : Type 0 where
  pub closed : IsClosed s
  pub timer : s.timer ≡ false
  pub resync :
      (es : List Event)
      → has_opening es ≡ false
      → (on_open (run es s)).1 ≡ resets_sequences ∷ reconciles ∷ []

step-needs :
    (e : Event) (s : Stream)
    → is_opening e ≡ false
    → s.needs_reconciliation ≡ true
    → (step e s).needs_reconciliation ≡ true
unfolding step begin_recovery end_recovery teardown handle_visibility_change handle_page_hide
    handle_page_show connect_event_stream open_stream teardown_active clear_reconnect_timer
    timer_fires schedule_reconnect on_shutdown on_authentication_required set_event_stream_enabled
step-needs connects s e h = ground arith
step-needs opens s e h = ground arith
step-needs shuts_down s e h = ground arith
step-needs needs_authentication s e h = ground arith
step-needs hides s e h = ground arith
step-needs times_out s e h = ground arith
step-needs (fails i) s e h = ground arith
step-needs (browser_closes i) s e h = h
step-needs (recovers denied) s e h = ground arith
step-needs (enables on) s e h = ground arith
step-needs (shows persisted) s e h = ground arith
step-needs (changes_visibility visible) s e h = ground arith

run-needs :
    (es : List Event) (s : Stream)
    → has_opening es ≡ false
    → s.needs_reconciliation ≡ true
    → (run es s).needs_reconciliation ≡ true
unfolding run
run-needs [] s e h = h
run-needs (x ∷ es) s e h =
    run-needs es (step x s) (ground (arith, e)) (step-needs x s (ground (arith, e)) h)

timer-teardown_active : (s : Stream) → s.timer ≡ false → (teardown_active s).timer ≡ false
unfolding teardown_active
timer-teardown_active s h = ground arith

needs-teardown_active :
    (s : Stream) → (teardown_active s).needs_reconciliation ≡ s.needs_reconciliation
unfolding teardown_active
needs-teardown_active s = ground arith

resync_lem :
    (s : Stream)
    → s.needs_reconciliation ≡ true
    → (on_open s).1 ≡ resets_sequences ∷ reconciles ∷ []
unfolding on_open
resync_lem s h = ground arith

torn-IsQuiet :
    (s : Stream)
    → IsOwned s
    → s.timer ≡ false
    → s.needs_reconciliation ≡ true
    → IsQuiet (teardown_active s)
torn-IsQuiet s h t n = record {
  closed = teardown_active-IsClosed s h;
  timer = timer-teardown_active s t;
  resync = λ es e.
      resync_lem (run es (teardown_active s))
        (run-needs es (teardown_active s) e (needs-teardown_active s ∙ n));
}

-- From a page in which no stream but the active one is open: once the page was left, and once it became hidden, no
-- stream is open or active and no timer runs; and whatever events come next, the first stream that opens after
-- them empties the queue and asks for a snapshot.
pub IsQuiet-when_hidden :
    (s : Stream) → IsOwned s → IsQuiet (step hides s) × IsQuiet (step (changes_visibility false) s)
unfolding step handle_page_hide handle_visibility_change clear_reconnect_timer
IsQuiet-when_hidden s h = (
  torn-IsQuiet _ (record { owned = h.owned }) refl refl,
  torn-IsQuiet _ (record { owned = h.owned }) refl refl,
)

-- A stream that fails just before the page becomes hidden: when the check of the session ends, a timer
-- is set all the same, and it opens a stream in the hidden page.
pub hidden_page_reconnects :
    (s : Stream) (i : ℕ)
    → s.active ≡ some i
    → IsOwned s
    → s.enabled ≡ true
    → s.should_reconnect ≡ true
    → (run (fails i ∷ changes_visibility false ∷ recovers false ∷ times_out ∷ []) s).open_streams
      ≡ s.next_stream ∷ []
unfolding run step begin_recovery handle_visibility_change end_recovery timer_fires
    connect_event_stream schedule_reconnect teardown_active clear_reconnect_timer open_stream
    teardown
hidden_page_reconnects s i a h e r =
    let shut = close_own i s.open_streams (subst (λ o. Owned o s.open_streams) a h.owned) in
    ground (arith, shut)
