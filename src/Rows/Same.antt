-- ===== src/Rows/Same.antt =====
-- app/static/js/ui.js: two jobs with the same id and the same action key get the same markup of their actions.
use fetchly.Common.{
  if_both, ℕ, not, if◌then◌else◌, arith, ◌≡◌, refl, sym, ap, ◌∙◌, String, Bool, true, false, Option,
  none, some, ltb,
}
use mathlib.Core.Bool.{false≢true}
use mathlib.Core.Option.{some-ne-none}
use fetchly.Ecma.{Object}
use fetchly.Site.{Site}
use fetchly.Ui.{
  DurationBucket, is_too_long, Category, download, cancel, retry, detail, key_text, unknown, long,
  ok, duration_bucket, is_audio, is_duration_blocked, get_known_duration_seconds,
  resolve_job_action,
}
use fetchly.Ui.Key.{key_text_injective}
use fetchly.Ui.Actions.{
  id_of, guard_title, lalal_title, stem_entry, audio_download_actions, create_download_options_menu,
  create_desktop_download_action, create_mobile_download_action, create_cancel_action,
  create_retry_action, create_detail_action, desktop_content, render_desktop_action,
  create_action_button, render_primary_action, create_primary_action_button,
}

abbrev is_none : Option ℕ → Bool
is_none none = true
is_none (some _) = false

module _ (site : Site) where
  abbrev is_blocked_in : DurationBucket → Bool
  is_blocked_in unknown = site.duration_guard
  is_blocked_in long = site.duration_guard
  is_blocked_in ok = false

  is_too_long_lem :
      (d : Option ℕ)
      → (if not site.duration_guard then false else is_too_long site d)
        ≡ is_blocked_in (duration_bucket site d)
  unfolding duration_bucket
  is_too_long_lem none = ground arith
  is_too_long_lem (some n) = ground arith

  is_duration_blocked_lem :
      (job : Object)
      → is_duration_blocked site job
        ≡ is_blocked_in (duration_bucket site (get_known_duration_seconds site job))
  unfolding is_duration_blocked
  is_duration_blocked_lem job = is_too_long_lem (get_known_duration_seconds site job)

  abbrev is_unknown : DurationBucket → Bool
  is_unknown unknown = true
  is_unknown _ = false

  bucket-none : (d : Option ℕ) → is_unknown (duration_bucket site d) ≡ is_none d
  unfolding duration_bucket
  bucket-none none = refl
  bucket-none (some n) = if_both (λ b. is_unknown b ≡ false) (ltb site.lalal_max n) refl refl

  guard_title_same :
      (d d' : Option ℕ) → is_none d ≡ is_none d' → guard_title site d ≡ guard_title site d'
  unfolding guard_title
  guard_title_same none none e = refl
  guard_title_same (some _) (some _) e = refl
  guard_title_same none (some _) e = absurd (false≢true (sym e))
  guard_title_same (some _) none e = absurd (false≢true e)

  is_some_same :
      (x : Bool × Bool) (a b : Bool)
      → (if a then some x else none) ≡ (if b then some x else none)
      → a ≡ b
  is_some_same x true true e = refl
  is_some_same x false false e = refl
  is_some_same x true false e = absurd (some-ne-none x e)
  is_some_same x false true e = absurd (some-ne-none x (sym e))

  module _ (old new : Object) where
    abbrev SameBucket : Type 0
    SameBucket =
        duration_bucket site (get_known_duration_seconds site old)
        ≡ duration_bucket site (get_known_duration_seconds site new)

    blocked_same : SameBucket → is_duration_blocked site old ≡ is_duration_blocked site new
    blocked_same e =
        is_duration_blocked_lem old ∙ ap is_blocked_in e ∙ sym (is_duration_blocked_lem new)

    lalal_title_same : SameBucket → lalal_title site old ≡ lalal_title site new
    unfolding lalal_title
    lalal_title_same e =
        let known =
          sym (bucket-none (get_known_duration_seconds site old))
          ∙ ap is_unknown e
          ∙ bucket-none (get_known_duration_seconds site new) in
        rw (blocked_same e, guard_title_same _ _ known) refl

    module _ (same_id : id_of site old ≡ id_of site new) where
      stem_entry_same :
          (icon label stem : String)
          → SameBucket
          → stem_entry site old icon label stem ≡ stem_entry site new icon label stem
      unfolding stem_entry
      stem_entry_same icon label stem bucket =
          rw (same_id, blocked_same bucket, lalal_title_same bucket) refl

      audio_actions_same :
          SameBucket → audio_download_actions site old ≡ audio_download_actions site new
      unfolding audio_download_actions
      audio_actions_same bucket =
          rw
            (
              same_id,
              stem_entry_same "music_off" "Instrumental" "instrumental" bucket,
              stem_entry_same "mic" "A Cappella" "vocals" bucket,
            )
            refl

      menu_same :
          is_audio site old ≡ is_audio site new
          → SameBucket
          → create_download_options_menu site old ≡ create_download_options_menu site new
      unfolding create_download_options_menu
      menu_same audio bucket = rw (same_id, audio, audio_actions_same bucket) refl

      desktop_content_same :
          (c : Category)
          → is_audio site old ≡ is_audio site new
          → SameBucket
          → desktop_content site c old ≡ desktop_content site c new
      unfolding desktop_content create_desktop_download_action create_cancel_action
          create_retry_action create_detail_action
      desktop_content_same download audio bucket = rw (same_id, menu_same audio bucket) refl
      desktop_content_same cancel audio bucket = rw (same_id) refl
      desktop_content_same retry audio bucket = rw (same_id) refl
      desktop_content_same detail audio bucket = rw (same_id) refl

      primary_same :
          (c : Category)
          → is_audio site old ≡ is_audio site new
          → SameBucket
          → render_primary_action site c old ≡ render_primary_action site c new
      unfolding render_primary_action create_mobile_download_action create_cancel_action
          create_retry_action create_detail_action
      primary_same download audio bucket = rw (same_id, menu_same audio bucket) refl
      primary_same cancel audio bucket = rw (same_id) refl
      primary_same retry audio bucket = rw (same_id) refl
      primary_same detail audio bucket = rw (same_id) refl

      module _
          (same_key : key_text (resolve_job_action site old)
            ≡ key_text (resolve_job_action site new)) where
        category_same :
            (resolve_job_action site old).category ≡ (resolve_job_action site new).category
        category_same = (key_text_injective _ _ same_key).0

        bucket_same : SameBucket
        unfolding resolve_job_action
        bucket_same = (key_text_injective _ _ same_key).1

        audio_same : is_audio site old ≡ is_audio site new
        unfolding resolve_job_action
        audio_same =
            is_some_same (site.lalal_enabled, site.duration_guard) (is_audio site old)
              (is_audio site new) ((key_text_injective _ _ same_key).2)

        pub action_button_same : create_action_button site old ≡ create_action_button site new
        unfolding create_action_button render_desktop_action
        action_button_same =
            let content =
              ap (λ c. desktop_content site c old) category_same
              ∙ desktop_content_same (resolve_job_action site new).category audio_same
                  bucket_same in
            rw (content, same_key, category_same) refl

        pub primary_button_same :
            create_primary_action_button site old ≡ create_primary_action_button site new
        unfolding create_primary_action_button
        primary_button_same =
            ap (λ c. render_primary_action site c old) category_same
            ∙ primary_same (resolve_job_action site new).category audio_same bucket_same
