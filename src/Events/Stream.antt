-- ===== src/Events/Stream.antt =====
-- app/static/js/events.js: the life of the event stream: opening, losing, closing and reopening it.
-- A stream is known by a number; `open` holds those that are not closed. An event of a stream that
-- was torn down is no event, since its handlers are gone. The timer's callback is `timer_fires`.
pub mod Leaks
pub mod Hidden
use fetchly.Common.{
  ℕ, zero, suc, ◌+◌, Bool, true, false, not, ◌&&◌, ◌||◌, Option, none, some, List, [], ◌∷◌, ◌++◌,
  if◌then◌else◌, eqb, ltb,
}

-- What a step asks of the rest of the page: a check of the session (`fetchJobs(0)`) for a stream
-- that failed, a new snapshot, an empty queue, or the login page.
pub data Effect : Type 0 where
  probes : ℕ → Effect
  reconciles resets_sequences goes_to_login : Effect

pub record Stream : Type 0 where
  pub timer : Bool
  pub active : Option ℕ
  pub attempt : ℕ
  pub should_reconnect : Bool
  pub enabled : Bool
  pub needs_reconciliation : Bool
  pub open_streams : List ℕ
  pub next_stream : ℕ

abbrev pub is_open : ℕ → List ℕ → Bool
is_open i [] = false
is_open i (j ∷ js) = eqb i j || is_open i js

abbrev pub close : ℕ → List ℕ → List ℕ
close i [] = []
close i (j ∷ js) = if eqb i j then close i js else j ∷ close i js

abbrev pub is_active : ℕ → Option ℕ → Bool
is_active i none = false
is_active i (some j) = eqb j i

unfoldable pub clear_reconnect_timer : Stream → Stream
clear_reconnect_timer s = record s { timer = false }

unfoldable pub teardown : Option ℕ → Stream → Stream
unfolding clear_reconnect_timer
teardown none s = clear_reconnect_timer s
teardown (some i) s = record s {
  timer = false;
  active = if is_active i s.active then none else s.active;
  open_streams = close i s.open_streams;
}

-- `if (activeStream) teardown(activeStream)`
unfoldable pub teardown_active : Stream → Stream
unfolding teardown
teardown_active s = elim s.active [ none ↦ s | some i ↦ teardown (some i) s ]

unfoldable pub schedule_reconnect : Stream → Stream
schedule_reconnect s =
    if not s.should_reconnect || not s.enabled
    then s
    else record s { timer = true; attempt = s.attempt + 1 }

-- The active stream, if its `readyState` is not `CLOSED`.
abbrev pub is_live : Stream → Bool
is_live s = elim s.active [ none ↦ false | some i ↦ is_open i s.open_streams ]

-- `new EventSource("/events")`
unfoldable pub open_stream : Stream → Stream
open_stream s = record s {
  active = some s.next_stream;
  open_streams = s.next_stream ∷ s.open_streams;
  next_stream = s.next_stream + 1;
}

unfoldable pub connect_event_stream : Stream → Stream
unfolding clear_reconnect_timer teardown_active open_stream
connect_event_stream s =
    if not s.enabled
    then s
    else if is_live s
    then clear_reconnect_timer s
    else open_stream (teardown_active (clear_reconnect_timer s))

-- `stream.onopen`
unfoldable pub on_open : Stream → Stream × List Effect
on_open s =
    let again = s.needs_reconciliation || ltb 0 s.attempt in
    (
      record s { needs_reconciliation = false; attempt = 0 },
      if again then resets_sequences ∷ reconciles ∷ [] else [],
    )

-- `recoverStreamFailure` up to its `await`.
unfoldable pub begin_recovery : ℕ → Stream → Stream × List Effect
unfolding teardown
begin_recovery i s = if is_active i s.active then (teardown (some i) s, probes i ∷ []) else (s, [])

-- The rest of it; `denied` is whether the request failed with status 401 or 403.
unfoldable pub end_recovery : Bool → Stream → Stream × List Effect
unfolding schedule_reconnect
end_recovery denied s =
    if denied
    then (record s { should_reconnect = false }, goes_to_login ∷ [])
    else (schedule_reconnect s, [])

-- The branches of `handleMessage` that concern the stream.
unfoldable pub on_shutdown : Stream → Stream
unfolding teardown_active schedule_reconnect
on_shutdown s = schedule_reconnect (teardown_active (record s { should_reconnect = true }))

unfoldable pub on_authentication_required : Stream → Stream × List Effect
unfolding teardown_active
on_authentication_required s =
    (teardown_active (record s { should_reconnect = false }), goes_to_login ∷ [])

unfoldable pub set_event_stream_enabled : Bool → Stream → Stream
unfolding connect_event_stream
set_event_stream_enabled enabled s =
    let t = record s { enabled = enabled } in
    if not enabled
    then teardown_active (clear_reconnect_timer t)
    else if t.should_reconnect
    then connect_event_stream t
    else t

unfoldable pub handle_page_hide : Stream → Stream
unfolding clear_reconnect_timer teardown_active
handle_page_hide s =
    teardown_active
      (clear_reconnect_timer (record s { should_reconnect = false; needs_reconciliation = true }))

unfoldable pub handle_page_show : Bool → Stream → Stream
unfolding connect_event_stream
handle_page_show persisted s =
    let t = record s { should_reconnect = true } in
    if not persisted then s else if t.enabled then connect_event_stream t else t

unfoldable pub handle_visibility_change : Bool → Stream → Stream
unfolding connect_event_stream
handle_visibility_change visible s =
    let t = record s { should_reconnect = true } in
    if not visible
    then teardown_active (record (clear_reconnect_timer s) { needs_reconciliation = true })
    else if t.enabled
    then connect_event_stream t
    else t

-- The callback of the reconnect timer.
unfoldable pub timer_fires : Stream → Stream
unfolding connect_event_stream
timer_fires s = if s.timer then connect_event_stream (record s { timer = false }) else s

pub data Event : Type 0 where
  connects opens shuts_down needs_authentication hides times_out : Event
  fails browser_closes : ℕ → Event
  recovers enables shows changes_visibility : Bool → Event

unfoldable pub step : Event → Stream → Stream
unfolding connect_event_stream on_open begin_recovery end_recovery on_shutdown
    on_authentication_required set_event_stream_enabled handle_page_hide handle_page_show
    handle_visibility_change timer_fires
step connects s = connect_event_stream s
step opens s = (on_open s).0
step shuts_down s = on_shutdown s
step needs_authentication s = (on_authentication_required s).0
step hides s = handle_page_hide s
step times_out s = timer_fires s
step (fails i) s = (begin_recovery i s).0
step (browser_closes i) s = record s { open_streams = close i s.open_streams }
step (recovers denied) s = (end_recovery denied s).0
step (enables on) s = set_event_stream_enabled on s
step (shows persisted) s = handle_page_show persisted s
step (changes_visibility visible) s = handle_visibility_change visible s

unfoldable pub run : List Event → Stream → Stream
run [] s = s
run (e ∷ es) s = run es (step e s)
