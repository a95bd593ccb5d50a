-- ===== src/Settings.antt =====
-- app/static/js/settings.js: when the settings page posts its form. An edit is counted by `version`, and
-- `posted` is the version that was posted last; what the form holds is not kept.
pub mod Saved
pub mod Served
pub mod Versions
pub mod Ordered
pub mod Credentials
pub mod Limits
pub mod Bounded
use fetchly.Common.{
  ℕ, eqb, ◌+◌, ◌-◌, Bool, true, false, not, ◌&&◌, ◌||◌, List, [], ◌∷◌, if◌then◌else◌,
}

-- The flags of the module. `timer` is whether `saveTimeoutId` is set, `saving` is `isSaving`, `hide_saving` is
-- `isPagehideSaving`, `hide_posts` counts the requests of `pagehide` under way, `account` is
-- `isSavingAuthentication`, and `account_posting` whether its request is under way.
pub record Saves : Type 0 where
  pub version : ℕ
  pub posted : ℕ
  pub dirty : Bool
  pub timer : Bool
  pub saving : Bool
  pub pending : Bool
  pub hide_saving : Bool
  pub hide_posts : ℕ
  pub account : Bool
  pub account_posting : Bool

abbrev pub fresh_page : Saves
fresh_page = record {
  version = 0;
  posted = 0;
  dirty = false;
  timer = false;
  saving = false;
  pending = false;
  hide_saving = false;
  hide_posts = 0;
  account = false;
  account_posting = false;
}

unfoldable pub schedule_auto_save : Saves → Saves
schedule_auto_save s =
    if s.saving || s.hide_saving || s.account
    then record s { dirty = true; pending = true }
    else record s { dirty = true; timer = true }

-- `valid` is whether `validateSettings` accepts the form.
unfoldable pub save_settings : Bool → Saves → Saves
save_settings valid s =
    if s.saving
    then record s { pending = true }
    else if not valid
    then s
    else record s { saving = true; pending = false; posted = s.version }

-- `if (pendingSave) { pendingSave = false; scheduleAutoSave(…); }`
abbrev pub take_pending : Saves → Saves
take_pending s = if s.pending then schedule_auto_save (record s { pending = false }) else s

-- The end of `performSettingsSave`: `ok` is whether the server took the settings.
unfoldable pub end_settings_save : Bool → Saves → Saves
end_settings_save ok s =
    let dirty = if ok && not s.pending then false else s.dirty in
    take_pending (record s { saving = false; dirty = dirty })

-- `saveAuthenticationFlag` and `saveCredentials` up to their wait for the other writes.
unfoldable pub begin_account_save : Saves → Saves
begin_account_save s = if s.account then s else record s { account = true; timer = false }

-- After the wait, which ends when no other save is under way; if the wait fails, the page loads again.
unfoldable pub post_account : Bool → Saves → Saves
post_account valid s =
    if not s.account || s.account_posting || s.saving || s.hide_saving
    then s
    else if not valid
    then record s { account = false }
    else record s { pending = false; posted = s.version; account_posting = true }

-- After the answer of the server.
unfoldable pub end_account_save : Bool → Saves → Saves
end_account_save ok s =
    let dirty = if ok then false else s.dirty in
    if not s.account_posting
    then s
    else take_pending (record s { dirty = dirty; account = false; account_posting = false })

-- `ready` is whether the form is valid and there is a CSRF token.
unfoldable pub persist_on_page_hide : Bool → Saves → Saves
persist_on_page_hide ready s =
    if not s.dirty || s.saving || s.account || not ready
    then record s { timer = false }
    else record s {
      timer = false;
      dirty = false;
      hide_saving = true;
      hide_posts = s.hide_posts + 1;
      posted = s.version;
    }

abbrev pub retry_when_visible : Bool → Saves → Saves
retry_when_visible visible s =
    if visible then schedule_auto_save (record s { dirty = true }) else record s { dirty = true }

-- The answer to a request of `pagehide`.
unfoldable pub end_hide_save : Bool → Bool → Saves → Saves
end_hide_save ok visible s =
    let answered = if ok then s else retry_when_visible visible s in
    let ended = record answered { hide_saving = false; hide_posts = s.hide_posts - 1 } in
    if visible then take_pending ended else ended

unfoldable pub on_page_show : Saves → Saves
on_page_show s = if s.dirty then schedule_auto_save s else s

-- What happens to the page. The first flag of an event is whether the form is valid or the server agrees.
pub data Event : Type 0 where
  edits begins_account shows : Event
  timer_fires save_ends account_posts account_ends hides : Bool → Event
  hide_save_ends : Bool → Bool → Event

unfoldable pub on_event : Event → Saves → Saves
on_event edits s = schedule_auto_save (record s { version = s.version + 1 })
on_event (timer_fires valid) s =
    if s.timer then save_settings valid (record s { timer = false }) else s
on_event (save_ends ok) s = if s.saving then end_settings_save ok s else s
on_event begins_account s = begin_account_save s
on_event (account_posts valid) s = post_account valid s
on_event (account_ends ok) s = end_account_save ok s
on_event (hides ready) s = persist_on_page_hide ready s
on_event (hide_save_ends ok visible) s =
    if eqb s.hide_posts 0 then s else end_hide_save ok visible s
on_event shows s = on_page_show s

unfoldable pub run : List Event → Saves → Saves
run [] s = s
run (e ∷ es) s = run es (on_event e s)
