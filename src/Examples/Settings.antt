-- ===== src/Examples/Settings.antt =====
-- The settings page tried on an edit during a save, on a form within the bounds and on three versions.
use fetchly.Common.{
  ◌≡◌, refl, String, true, false, not, ◌&&◌, Option, some, List, [], ◌∷◌, ◌==◌, if◌then◌else◌, leb,
}
use fetchly.Common.Int.{ℤ, pos}
use fetchly.Common.Texts.{text_length, all_codes}
use fetchly.Settings.{
  fresh_page, Event, edits, timer_fires, hides, persist_on_page_hide, run, on_event,
  schedule_auto_save, save_settings,
}
use fetchly.Settings.Saved.{has_unposted, one_post_at_a_time, leaving_posts_edits}
use fetchly.Settings.Served.{will_post, edits_are_served}
use fetchly.Settings.Credentials.{is_name, validate_credentials, is_accepted, accepted_exact}
use fetchly.Settings.Limits.{Form, SettingsData, runtime_values, settings_of, validate_settings}
use fetchly.Settings.Bounded.{is_in_bounds, accepted_in_bounds}
use fetchly.Examples.Sample.{sample_ecma}

-- An edit is being posted when the next one comes.
abbrev busy_page : List Event
busy_page = edits ∷ timer_fires true ∷ edits ∷ []

one_post_at_a_time_example :
    let s = run busy_page fresh_page in (s.saving && s.account_posting) ≡ false
one_post_at_a_time_example = one_post_at_a_time busy_page

edits_are_served_example :
    let s = run busy_page fresh_page in (has_unposted s && not (will_post s)) ≡ false
edits_are_served_example = edits_are_served busy_page refl

leaving_posts_edits_example :
    let t = persist_on_page_hide true (run (edits ∷ []) fresh_page) in t.posted ≡ t.version
unfolding run on_event schedule_auto_save
leaving_posts_edits_example = leaving_posts_edits (edits ∷ []) refl refl

-- A page that is left during a save does not post an edit that came after it.
late_edit_is_left_out : has_unposted (persist_on_page_hide true (run busy_page fresh_page)) ≡ true
unfolding run on_event schedule_auto_save save_settings persist_on_page_hide
late_edit_is_left_out = refl

-- Two requests are under way when the page is left again after an edit.
two_posts_at_once : (run (edits ∷ hides true ∷ edits ∷ hides true ∷ []) fresh_page).hide_posts ≡ 2
unfolding run on_event schedule_auto_save persist_on_page_hide
two_posts_at_once = refl

accepted_exact_example :
    is_accepted (validate_credentials "admin" "secret-word" "secret-word" true)
    ≡ (is_name "admin" && leb 8 (text_length "secret-word") && "secret-word" == "secret-word")
accepted_exact_example = accepted_exact "admin" "secret-word" "secret-word" true

digits_are_no_name : is_name "admin1" ≡ false
digits_are_no_name = refl

abbrev typed : Form
typed = record {
  field_text = λ name.
      if name == "download_output_mode"
      then "av1"
      else if name == "public_hostname"
      then ""
      else "7";
  enable_job_history = true;
  download_auto_start = true;
  video_watermark = false;
  duration_guard = true;
}

abbrev as_seven : String → Option ℤ
as_seven s = some (pos 7)

abbrev sevens : SettingsData
sevens =
    settings_of sample_ecma as_seven typed 7 7 7 7 "av1"
      (("download_worker_count", 7)
        ∷ ("download_timeout_minutes", 7)
        ∷ ("transcode_timeout_minutes", 7)
        ∷ ("download_max_filesize_gib", 7)
        ∷ ("audio_analysis_max_minutes", 7)
        ∷ ("audio_analysis_timeout_minutes", 7)
        ∷ ("lalal_max_download_gib", 7)
        ∷ [])
      ""

accepted_in_bounds_example : is_in_bounds sevens ≡ true
unfolding validate_settings runtime_values all_codes text_length
accepted_in_bounds_example = accepted_in_bounds sample_ecma as_seven typed sevens refl
