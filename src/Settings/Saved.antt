-- ===== src/Settings/Saved.antt =====
-- app/static/js/settings.js: no edit of the form is forgotten.
use fetchly.Common.{
  ◌+◌, ◌≡◌, refl, Bool, true, false, not, ◌&&◌, ◌||◌, List, [], ◌∷◌, eqb, arith, if_both,
}
use fetchly.Settings.{
  Saves, fresh_page, schedule_auto_save, save_settings, end_settings_save, begin_account_save,
  post_account, end_account_save, persist_on_page_hide, end_hide_save, on_page_show, Event, edits,
  begins_account, shows, timer_fires, save_ends, account_posts, account_ends, hides, hide_save_ends,
  on_event, run,
}

-- The form has an edit that was not posted.
abbrev pub has_unposted : Saves → Bool
has_unposted s = not (eqb s.posted s.version)

unfoldable pub IsOrderly : Saves → Type 0
IsOrderly s =
    ((s.timer && (s.saving || s.account)) ≡ false)
    × ((s.account_posting && (s.saving || not s.account)) ≡ false)
    × (((s.saving || s.account_posting) && not s.pending && has_unposted s) ≡ false)
    × ((has_unposted s && not s.dirty) ≡ false)

schedule-IsOrderly : (s : Saves) → IsOrderly s → IsOrderly (schedule_auto_save s)
unfolding IsOrderly schedule_auto_save
schedule-IsOrderly s (a, b, c, d) = ground arith

edit-IsOrderly :
    (s : Saves)
    → IsOrderly s
    → IsOrderly (schedule_auto_save (record s { version = s.version + 1 }))
unfolding IsOrderly schedule_auto_save
edit-IsOrderly s (a, b, c, d) = ground arith

save-IsOrderly :
    (valid : Bool) (s : Saves) → IsOrderly s → IsOrderly (on_event (timer_fires valid) s)
unfolding IsOrderly on_event save_settings
save-IsOrderly valid s (a, b, c, d) = ground arith

end-IsOrderly : (ok : Bool) (s : Saves) → IsOrderly s → IsOrderly (on_event (save_ends ok) s)
unfolding IsOrderly on_event end_settings_save schedule_auto_save
end-IsOrderly ok s (a, b, c, d) = ground arith

begin-IsOrderly : (s : Saves) → IsOrderly s → IsOrderly (begin_account_save s)
unfolding IsOrderly begin_account_save
begin-IsOrderly s (a, b, c, d) = ground arith

post-IsOrderly : (valid : Bool) (s : Saves) → IsOrderly s → IsOrderly (post_account valid s)
unfolding IsOrderly post_account
post-IsOrderly valid s (a, b, c, d) = ground arith

account-IsOrderly : (ok : Bool) (s : Saves) → IsOrderly s → IsOrderly (end_account_save ok s)
unfolding IsOrderly end_account_save schedule_auto_save
account-IsOrderly ok s (a, b, c, d) = ground arith

hide-IsOrderly : (ready : Bool) (s : Saves) → IsOrderly s → IsOrderly (persist_on_page_hide ready s)
unfolding IsOrderly persist_on_page_hide
hide-IsOrderly ready s (a, b, c, d) = ground arith

hidden-IsOrderly :
    (ok visible : Bool) (s : Saves) → IsOrderly s → IsOrderly (end_hide_save ok visible s)
unfolding IsOrderly end_hide_save schedule_auto_save
hidden-IsOrderly ok visible s (a, b, c, d) = ground arith

show-IsOrderly : (s : Saves) → IsOrderly s → IsOrderly (on_page_show s)
unfolding on_page_show
show-IsOrderly s orderly = if_both IsOrderly s.dirty (schedule-IsOrderly s orderly) orderly

pub on_event-IsOrderly : (e : Event) (s : Saves) → IsOrderly s → IsOrderly (on_event e s)
unfolding on_event
on_event-IsOrderly edits s orderly = edit-IsOrderly s orderly
on_event-IsOrderly (timer_fires valid) s orderly = save-IsOrderly valid s orderly
on_event-IsOrderly (save_ends ok) s orderly = end-IsOrderly ok s orderly
on_event-IsOrderly begins_account s orderly = begin-IsOrderly s orderly
on_event-IsOrderly (account_posts valid) s orderly = post-IsOrderly valid s orderly
on_event-IsOrderly (account_ends ok) s orderly = account-IsOrderly ok s orderly
on_event-IsOrderly (hides ready) s orderly = hide-IsOrderly ready s orderly
on_event-IsOrderly (hide_save_ends ok visible) s orderly =
    if_both IsOrderly (eqb s.hide_posts 0) orderly (hidden-IsOrderly ok visible s orderly)
on_event-IsOrderly shows s orderly = show-IsOrderly s orderly

pub fresh-IsOrderly : IsOrderly fresh_page
unfolding IsOrderly
fresh-IsOrderly = (refl, refl, refl, refl)

run-IsOrderly : (events : List Event) (s : Saves) → IsOrderly s → IsOrderly (run events s)
unfolding run
run-IsOrderly [] s orderly = orderly
run-IsOrderly (e ∷ es) s orderly = run-IsOrderly es (on_event e s) (on_event-IsOrderly e s orderly)

-- After any events the automatic save and the save of an account are never both posting.
pub one_post_at_a_time :
    (events : List Event) → let s = run events fresh_page in (s.saving && s.account_posting) ≡ false
unfolding IsOrderly
one_post_at_a_time events =
    let (timing, posting, current, known) = run-IsOrderly events fresh_page fresh-IsOrderly in
    ground (arith, posting)

-- When the page is left, with no save under way, a valid form and a token, every edit has been posted.
pub leaving_posts_edits :
    (events : List Event)
    → let s = run events fresh_page in
      s.saving ≡ false
      → s.account ≡ false
      → let t = persist_on_page_hide true s in t.posted ≡ t.version
unfolding IsOrderly persist_on_page_hide
leaving_posts_edits events idle signed =
    let (timing, posting, current, known) = run-IsOrderly events fresh_page fresh-IsOrderly in
    ground (arith, known)
