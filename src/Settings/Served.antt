-- ===== src/Settings/Served.antt =====
-- app/static/js/settings.js: every edit of an open page is on its way to the server.
use fetchly.Common.{◌≡◌, refl, Bool, true, false, not, ◌&&◌, ◌||◌, List, [], ◌∷◌, arith}
use mathlib.Core.Bool.{false≢true}
use fetchly.Settings.{
  Saves, fresh_page, schedule_auto_save, save_settings, end_settings_save, begin_account_save,
  post_account, end_account_save, on_page_show, Event, edits, begins_account, shows, timer_fires,
  save_ends, account_posts, account_ends, hides, hide_save_ends, on_event, run,
}
use fetchly.Settings.Saved.{has_unposted, IsOrderly, fresh-IsOrderly, on_event-IsOrderly}

-- A page that stays open with a valid form.
abbrev pub stays_open : List Event → Bool
stays_open [] = true
stays_open (edits ∷ es) = stays_open es
stays_open (timer_fires valid ∷ es) = valid && stays_open es
stays_open (save_ends ok ∷ es) = stays_open es
stays_open (begins_account ∷ es) = stays_open es
stays_open (account_posts valid ∷ es) = valid && stays_open es
stays_open (account_ends ok ∷ es) = stays_open es
stays_open (hides ready ∷ es) = false
stays_open (hide_save_ends ok visible ∷ es) = false
stays_open (shows ∷ es) = stays_open es

-- The timer runs, or a save under way is to be followed by another, or the save of an account is still to
-- read the form.
abbrev pub will_post : Saves → Bool
will_post s = s.timer || s.pending && (s.saving || s.account) || s.account && not s.account_posting

IsServed : Saves → Type 0
IsServed s = ((has_unposted s && not (will_post s)) ≡ false) × (s.hide_saving ≡ false)

on_event-IsServed :
    (e : Event) (s : Saves)
    → stays_open (e ∷ []) ≡ true
    → IsOrderly s
    → IsServed s
    → IsServed (on_event e s)
unfolding IsServed on_event IsOrderly schedule_auto_save save_settings end_settings_save
    begin_account_save post_account end_account_save on_page_show
on_event-IsServed edits s plain (a, b, c, d) (served, here) = ground arith
on_event-IsServed (timer_fires valid) s plain (a, b, c, d) (served, here) = ground arith
on_event-IsServed (save_ends ok) s plain (a, b, c, d) (served, here) = ground arith
on_event-IsServed begins_account s plain (a, b, c, d) (served, here) = ground arith
on_event-IsServed (account_posts valid) s plain (a, b, c, d) (served, here) = ground arith
on_event-IsServed (account_ends ok) s plain (a, b, c, d) (served, here) = ground arith
on_event-IsServed (hides ready) s plain orderly served = absurd (false≢true plain)
on_event-IsServed (hide_save_ends ok visible) s plain orderly served = absurd (false≢true plain)
on_event-IsServed shows s plain (a, b, c, d) (served, here) = ground arith

stays_open_first :
    (e : Event) (es : List Event)
    → stays_open (e ∷ es) ≡ true
    → (stays_open (e ∷ []) ≡ true) × (stays_open es ≡ true)
stays_open_first edits es plain = (refl, plain)
stays_open_first (timer_fires valid) es plain = ground arith
stays_open_first (save_ends ok) es plain = (refl, plain)
stays_open_first begins_account es plain = (refl, plain)
stays_open_first (account_posts valid) es plain = ground arith
stays_open_first (account_ends ok) es plain = (refl, plain)
stays_open_first (hides ready) es plain = absurd (false≢true plain)
stays_open_first (hide_save_ends ok visible) es plain = absurd (false≢true plain)
stays_open_first shows es plain = (refl, plain)

run-IsServed :
    (events : List Event) (s : Saves)
    → stays_open events ≡ true
    → IsOrderly s
    → IsServed s
    → IsServed (run events s)
unfolding run
run-IsServed [] s plain orderly served = served
run-IsServed (e ∷ es) s plain orderly served =
    let (first, rest) = stays_open_first e es plain in
    run-IsServed es (on_event e s) rest (on_event-IsOrderly e s orderly)
      (on_event-IsServed e s first orderly served)

-- While the page stays open and its form is valid, an edit that was not posted has its timer running, or
-- waits for a save under way that another follows, or is read by a save of the account that is to come.
pub edits_are_served :
    (events : List Event)
    → stays_open events ≡ true
    → let s = run events fresh_page in (has_unposted s && not (will_post s)) ≡ false
unfolding IsServed
edits_are_served events plain =
    (run-IsServed events fresh_page plain fresh-IsOrderly (refl, refl)).0
