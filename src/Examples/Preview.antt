-- ===== src/Examples/Preview.antt =====
-- A preview that is overtaken by the next link.
use fetchly.Common.{◌≡◌, refl, String, Bool, true, not, ◌==◌, some, List, [], ◌∷◌}
use fetchly.Preview.{
  Preview, empty_form, metadata, found, fails, FormEvent, types, timer_fires, submits, info_comes,
  thumbnail_comes, update_video_preview, on_info, on_thumbnail, end_update, hide_video_preview,
  abort_and_reset_preview, on_form_event, run_form,
}
use fetchly.Preview.Latest.{is_meta_of, is_picture_of, preview_shows_last}

abbrev is_link : String → Bool
is_link s = not (s == "")

abbrev is_tube : String → Bool
is_tube s = s == "tube"

abbrev two_links : List FormEvent
two_links =
    types "clip"
    ∷ timer_fires
    ∷ types "reel"
    ∷ timer_fires
    ∷ info_comes 0 found
    ∷ info_comes 1 found
    ∷ thumbnail_comes 0 true
    ∷ thumbnail_comes 1 true
    ∷ info_comes 0 fails
    ∷ []

abbrev after_two : Preview
after_two = run_form is_link is_tube is_tube two_links empty_form

late_answers_are_dropped : (after_two.meta ≡ metadata "reel") × (after_two.thumbnail ≡ some "reel")
unfolding run_form on_form_event update_video_preview on_info on_thumbnail end_update
    hide_video_preview
late_answers_are_dropped = (refl, refl)

-- A submit that fails leaves the preview it stopped in its loading state.
stopped_keeps_loading :
    (run_form is_link is_tube is_tube
      (types "clip" ∷ timer_fires ∷ submits ∷ info_comes 0 found ∷ [])
      empty_form).loading
    ≡ true
unfolding run_form on_form_event update_video_preview on_info end_update hide_video_preview
    abort_and_reset_preview
stopped_keeps_loading = refl

preview_shows_last_example :
    (is_meta_of after_two.last_url after_two.meta ≡ true)
    × (is_picture_of after_two.last_url after_two.thumbnail ≡ true)
preview_shows_last_example = preview_shows_last is_link is_tube is_tube two_links
