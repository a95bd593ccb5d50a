-- ===== src/Events/Stream/Leaks.antt =====
-- app/static/js/events.js: no stream stays open unless it is the active one.
use fetchly.Common.{
  ℕ, ◌≤◌, ◌≡◌, refl, true, false, not, Option, none, some, List, [], ◌∷◌, if◌then◌else◌, eqb, arith,
  length, Bool-cases, Option-cases, if_both, subst, ◌⊎◌, inl, inr,
}
use fetchly.Events.Stream.{
  Stream, Effect, close, is_active, teardown, teardown_active, schedule_reconnect, is_live,
  open_stream, connect_event_stream, on_open, begin_recovery, end_recovery, on_shutdown,
  clear_reconnect_timer, on_authentication_required, set_event_stream_enabled, handle_page_hide,
  handle_page_show, handle_visibility_change, timer_fires, Event, connects, opens, shuts_down,
  needs_authentication, hides, times_out, fails, browser_closes, recovers, enables, shows,
  changes_visibility, step, run,
}

-- The streams that are open are the active one, or none.
abbrev pub Owned : Option ℕ → List ℕ → Type 0
Owned none [] = Unit {0}
Owned none (i ∷ is) = ⊥
Owned (some i) [] = Unit {0}
Owned (some i) (j ∷ []) = i ≡ j
Owned (some i) (j ∷ k ∷ is) = ⊥

pub record IsOwned (s : Stream) : Type 0 where
  pub owned : Owned s.active s.open_streams

Owned-cases :
    (a : Option ℕ) (is : List ℕ) → Owned a is → (is ≡ []) ⊎ ((i : ℕ) × (a ≡ some i) × (is ≡ i ∷ []))
Owned-cases none [] h = inl refl
Owned-cases none (i ∷ is) h = absurd h
Owned-cases (some i) [] h = inl refl
Owned-cases (some i) (j ∷ []) h = inr (i, refl, ground arith)
Owned-cases (some i) (j ∷ k ∷ is) h = absurd h

-- Nothing is active or open.
pub record IsClosed (s : Stream) : Type 0 where
  pub inactive : s.active ≡ none
  pub closed : s.open_streams ≡ []

close-Owned :
    (i : ℕ) (a : Option ℕ) (is : List ℕ)
    → Owned a is
    → Owned (if is_active i a then none else a) (close i is)
close-Owned i none [] h = tt
close-Owned i none (j ∷ is) h = absurd h
close-Owned i (some j) [] h = elim (Bool-cases (eqb j i)) [ inl e ↦ rw e tt | inr e ↦ rw e tt ]
close-Owned i (some j) (k ∷ []) h = elim (Bool-cases (eqb j i)) [
  | inl e ↦ elim (Bool-cases (eqb i k)) [ inl f ↦ rw (e, f) tt | inr f ↦ absurd (ground arith) ]
  | inr e ↦ elim (Bool-cases (eqb i k)) [ inl f ↦ absurd (ground arith) | inr f ↦ rw (e, f) h ]
]
close-Owned i (some j) (k ∷ l ∷ is) h = absurd h

close-Owned_same : (i : ℕ) (a : Option ℕ) (is : List ℕ) → Owned a is → Owned a (close i is)
close-Owned_same i none [] h = tt
close-Owned_same i none (j ∷ is) h = absurd h
close-Owned_same i (some j) [] h = tt
close-Owned_same i (some j) (k ∷ []) h = elim (Bool-cases (eqb i k)) [
  | inl e ↦ rw e tt
  | inr e ↦ rw e h
]
close-Owned_same i (some j) (k ∷ l ∷ is) h = absurd h

pub close_own : (i : ℕ) (is : List ℕ) → Owned (some i) is → close i is ≡ []
close_own i [] h = refl
close_own i (j ∷ []) h = ground arith
close_own i (j ∷ k ∷ is) h = absurd h

Owned-none : (is : List ℕ) → Owned none is → is ≡ []
Owned-none [] h = refl
Owned-none (i ∷ is) h = absurd h

pub teardown-IsOwned : (i : ℕ) (s : Stream) → IsOwned s → IsOwned (teardown (some i) s)
unfolding teardown
teardown-IsOwned i s h = record { owned = close-Owned i s.active s.open_streams h.owned }

teardown_active_cases :
    (s : Stream)
    → ((s.active ≡ none) × (teardown_active s ≡ s))
      ⊎ ((i : ℕ) × (s.active ≡ some i) × (teardown_active s ≡ teardown (some i) s))
unfolding teardown_active
teardown_active_cases s = elim (Option-cases s.active) [
  | inl e ↦ inl (e, rw e)
  | inr (i, e) ↦ inr (i, e, rw e)
]

pub torn-IsClosed :
    (i : ℕ) (s : Stream) → s.active ≡ some i → IsOwned s → IsClosed (teardown (some i) s)
unfolding teardown
torn-IsClosed i s e h = record {
  inactive = rw e (ground arith);
  closed = close_own i s.open_streams (subst (λ a. Owned a s.open_streams) e h.owned);
}

-- After the active stream is torn down, no stream is open.
pub teardown_active-IsClosed : (s : Stream) → IsOwned s → IsClosed (teardown_active s)
teardown_active-IsClosed s h = elim (teardown_active_cases s) [
  | inl (e, same) ↦ rw same (record {
    inactive = e;
    closed = Owned-none s.open_streams (subst (λ a. Owned a s.open_streams) e h.owned);
  })
  | inr (i, e, torn) ↦ rw torn (torn-IsClosed i s e h)
]

pub IsClosed-IsOwned : (s : Stream) → IsClosed s → IsOwned s
IsClosed-IsOwned s c = record { owned = rw (c.inactive, c.closed) tt }

teardown_active-IsOwned : (s : Stream) → IsOwned s → IsOwned (teardown_active s)
teardown_active-IsOwned s h = IsClosed-IsOwned (teardown_active s) (teardown_active-IsClosed s h)

open_stream-IsOwned : (s : Stream) → IsClosed s → IsOwned (open_stream s)
unfolding open_stream
open_stream-IsOwned s c = record { owned = rw c.closed refl }

-- The same stream and the same open ones.
record SameStreams (s t : Stream) : Type 0 where
  active : t.active ≡ s.active
  open_streams : t.open_streams ≡ s.open_streams

SameStreams-IsOwned : {s t : Stream} → SameStreams s t → IsOwned s → IsOwned t
SameStreams-IsOwned m h = record { owned = rw (m.active, m.open_streams) h.owned }

schedule_reconnect-SameStreams : (s : Stream) → SameStreams s (schedule_reconnect s)
unfolding schedule_reconnect
schedule_reconnect-SameStreams s = ground arith

clear_reconnect_timer-SameStreams : (s : Stream) → SameStreams s (clear_reconnect_timer s)
unfolding clear_reconnect_timer
clear_reconnect_timer-SameStreams s = record { active = refl; open_streams = refl }

pub connect_event_stream-IsOwned : (s : Stream) → IsOwned s → IsOwned (connect_event_stream s)
unfolding connect_event_stream
connect_event_stream-IsOwned s h =
    let cleared = clear_reconnect_timer s in
    let owned = SameStreams-IsOwned (clear_reconnect_timer-SameStreams s) h in
    if_both IsOwned (not s.enabled) h (
      if_both IsOwned (is_live s) owned
        (open_stream-IsOwned (teardown_active cleared) (teardown_active-IsClosed cleared owned)))

step-IsOwned : (e : Event) (s : Stream) → IsOwned s → IsOwned (step e s)
unfolding step on_open begin_recovery end_recovery on_shutdown on_authentication_required
    set_event_stream_enabled handle_page_hide handle_page_show handle_visibility_change timer_fires
    clear_reconnect_timer
step-IsOwned connects s h = connect_event_stream-IsOwned s h
step-IsOwned opens s h = record { owned = h.owned }
step-IsOwned shuts_down s h =
    let t = record s { should_reconnect = true } in
    SameStreams-IsOwned (schedule_reconnect-SameStreams (teardown_active t))
      (teardown_active-IsOwned t (record { owned = h.owned }))
step-IsOwned needs_authentication s h =
    teardown_active-IsOwned (record s { should_reconnect = false }) (record { owned = h.owned })
step-IsOwned hides s h = teardown_active-IsOwned _ (record { owned = h.owned })
step-IsOwned times_out s h =
    if_both IsOwned s.timer
      (connect_event_stream-IsOwned (record s { timer = false }) (record { owned = h.owned })) h
step-IsOwned (fails i) s h =
    if_both (λ (r : Stream × List Effect). IsOwned r.0) (is_active i s.active)
      (teardown-IsOwned i s h) h
step-IsOwned (browser_closes i) s h = record {
  owned = close-Owned_same i s.active s.open_streams h.owned;
}
step-IsOwned (recovers denied) s h =
    if_both (λ (r : Stream × List Effect). IsOwned r.0) denied (record { owned = h.owned })
      (SameStreams-IsOwned (schedule_reconnect-SameStreams s) h)
step-IsOwned (enables on) s h =
    let t = record s { enabled = on } in
    let owned : IsOwned t = record { owned = h.owned } in
    if_both IsOwned (not on)
      (teardown_active-IsOwned (clear_reconnect_timer t) (record { owned = h.owned }))
      (if_both IsOwned t.should_reconnect (connect_event_stream-IsOwned t owned) owned)
step-IsOwned (shows persisted) s h =
    let t = record s { should_reconnect = true } in
    let owned : IsOwned t = record { owned = h.owned } in
    if_both IsOwned (not persisted) h
      (if_both IsOwned t.enabled (connect_event_stream-IsOwned t owned) owned)
step-IsOwned (changes_visibility visible) s h =
    let t = record s { should_reconnect = true } in
    let owned : IsOwned t = record { owned = h.owned } in
    if_both IsOwned (not visible) (teardown_active-IsOwned _ (record { owned = h.owned }))
      (if_both IsOwned t.enabled (connect_event_stream-IsOwned t owned) owned)

run-IsOwned : (es : List Event) (s : Stream) → IsOwned s → IsOwned (run es s)
unfolding run
run-IsOwned [] s h = h
run-IsOwned (e ∷ es) s h = run-IsOwned es (step e s) (step-IsOwned e s h)

Owned-single : (a : Option ℕ) (is : List ℕ) → Owned a is → length is ≤ 1
Owned-single a is h = elim (Owned-cases a is h) [
  | inl e ↦ rw e (omega arith)
  | inr (i, _, e) ↦ rw e (omega arith)
]

-- From a page with no stream, after any events in any order at most one stream is open, and none but
-- the active one is.
pub no_leak :
    (es : List Event) (s : Stream)
    → s.active ≡ none
    → s.open_streams ≡ []
    → (length (run es s).open_streams ≤ 1) × IsOwned (run es s)
no_leak es s a o =
    let h = run-IsOwned es s (IsClosed-IsOwned s (record { inactive = a; closed = o })) in
    (Owned-single (run es s).active (run es s).open_streams h.owned, h)
