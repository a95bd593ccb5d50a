-- ===== src/Examples/Pages.antt =====
-- Tests of CurrentJob, Confirm, UpdateStatus and Cookies.
use fetchly.Common.{
  not, ◌≡◌, refl, true, false, none, some, List, [], ◌∷◌, contains, arith, ◌==◌, ◌+◌, ◌&&◌,
  if◌then◌else◌, leb,
}
use fetchly.Ecma.{Value, text, obj, field, end, get, string_of}
use fetchly.Jobs.Update.{get_job_id}
use fetchly.Jobs.State.{ids, get_list_jobs, render_active_jobs}
use fetchly.CurrentJob.{Page, Card, set_current_job}
use fetchly.CurrentJob.Held.{current_job_unlisted, shows_row, shows_detached}
use fetchly.Confirm.{
  Dialog, DialogEvent, opens, accepts, hides, handle, handle_all, settle, confirm_modal, on_hidden,
  restore_focus,
}
use fetchly.Confirm.Settled.{IsFair, settled_once, times_settled, times_pending}
use fetchly.Cookies.{
  PasteEvent, submits, types, answers, closed, waits_for, run_paste, handle_paste, open_dialog,
  submit, end_submit, settle_paste,
}
use fetchly.Cookies.Settled.{was_saved, saved_by_own_submit}
use fetchly.UpdateStatus.{UpdateLink, Badge, apply_update_badge, resolve_update_state}
use fetchly.UpdateStatus.Shown.{one_is_shown, is_offered}
use fetchly.Examples.Sample.{sample_ecma, empty_state, job_a, job_b}

abbrev card : Card
card = record { present = true; shown = false; current_id = none; node = none }

abbrev phone : Page
phone = record {
  card = card;
  store = record empty_state {
    jobs = job_b ∷ job_a ∷ [];
    job_ids = "a" ∷ "b" ∷ [];
    mobile_view = true;
  };
}

-- The same page on a desktop, with job a on its card.
abbrev desktop : Page
desktop = record {
  card = record card { current_id = some "a"; node = some job_a };
  store = record (phone.store) { mobile_view = false };
}

a_is_named : (get_job_id sample_ecma job_a == "") ≡ false
unfolding get_job_id get string_of
a_is_named = refl

-- The lists have rows of both jobs.
abbrev with_rows : Page
with_rows = record phone { store = render_active_jobs sample_ecma phone.store }

nothing_detached : shows_detached sample_ecma with_rows.store ≡ false
unfolding render_active_jobs
nothing_detached = refl

current_job_unlisted_example :
    (let q = set_current_job sample_ecma job_a with_rows in
      (q.card.current_id ≡ some (get_job_id sample_ecma job_a))
      × (q.card.node ≡ some job_a)
      × (contains
            (get_job_id sample_ecma job_a)
            (ids sample_ecma (get_list_jobs sample_ecma q.store))
          ≡ false)
      × (shows_row sample_ecma (get_job_id sample_ecma job_a) q.store ≡ false))
current_job_unlisted_example =
    current_job_unlisted sample_ecma job_a with_rows refl a_is_named
      (unfold render_active_jobs in refl) nothing_detached

abbrev no_dialog : Dialog
no_dialog = record { texts = none; pending = none; focused = none; next = 0; settled = [] }

abbrev waiting : Dialog
waiting = record no_dialog { pending = some 0; next = 1 }

no_dialog-IsFair : IsFair no_dialog
unfolding times_settled
no_dialog-IsFair i = ground arith

abbrev two_dialogs : List DialogEvent
two_dialogs =
    opens (text "Delete?") none
    ∷ opens (obj (field "message" (text "Really?") end)) none
    ∷ accepts
    ∷ hides (λ _. true)
    ∷ []

two_answers : (handle_all two_dialogs no_dialog).settled ≡ (1, true) ∷ (0, false) ∷ []
unfolding handle_all handle confirm_modal settle on_hidden restore_focus
two_answers = refl

settled_once_example : IsFair (handle_all two_dialogs no_dialog)
settled_once_example = settled_once two_dialogs no_dialog no_dialog-IsFair

abbrev old_link : UpdateLink
old_link = record { href = "#"; hint = ""; label = ""; hidden = true }

abbrev old_badge : Badge
old_badge = record {
  state = "checking";
  icon = "sync";
  text = "Checking…";
  title = "";
  hidden = false;
}

abbrev answer : Value
answer = obj (field "status" (text "available") (field "latest" (text "1.2") end))

answer_offers : is_offered sample_ecma answer ≡ true
unfolding resolve_update_state get
answer_offers = refl

one_is_shown_example :
    (let cell =
        apply_update_badge sample_ecma answer
          (record { link = some old_link; badge = some old_badge }) in
      (new_link : UpdateLink) × (new_badge : Badge) × (cell.link ≡ some new_link)
      × (cell.badge ≡ some new_badge)
      × (new_link.hidden ≡ not (is_offered sample_ecma answer))
      × (new_badge.hidden ≡ is_offered sample_ecma answer))
one_is_shown_example = one_is_shown sample_ecma answer old_link old_badge

-- The first opening is dismissed during its submit, and its answer comes when the second is open.
abbrev late_cookies : List PasteEvent
late_cookies =
    PasteEvent.opens
    ∷ types "SID=1"
    ∷ submits
    ∷ PasteEvent.hides
    ∷ PasteEvent.opens
    ∷ answers 1 none
    ∷ []

saved_by_own_submit_example :
    let p = run_paste (λ s. s) late_cookies closed in
    (times_settled 2 p.settled + times_pending 2 p.pending_resolve
      ≡ (if leb 1 2 && leb 2 p.open_generation then 1 else 0))
    × ((was_saved 2 p.settled && not (waits_for 2 p.stored)) ≡ false)
saved_by_own_submit_example = saved_by_own_submit (λ s. s) late_cookies 2

-- An opening that follows a success at once is resolved by the end of the hiding before it.
hiding_settles_next :
    (run_paste
      (λ s. s)
      (PasteEvent.opens
        ∷ types "SID=1"
        ∷ submits
        ∷ answers 1 none
        ∷ PasteEvent.opens
        ∷ PasteEvent.hides
        ∷ [])
      closed).settled
    ≡ (2, false) ∷ (1, true) ∷ []
unfolding run_paste handle_paste open_dialog submit end_submit settle_paste
hiding_settles_next = refl
