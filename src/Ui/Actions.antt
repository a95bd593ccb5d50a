-- ===== src/Ui/Actions.antt =====
-- app/static/js/ui.js: the markup of the status and of the actions of a job. A listener finds its job
-- and its action by the `data-` attributes.
use fetchly.Common.{
  ℕ, String, Bool, false, not, ◌||◌, ◌&&◌, ◌/◌, Option, none, some, List, [], ◌∷◌, ◌++◌, ◌==◌,
  if◌then◌else◌,
}
use fetchly.Ecma.{Value, finite, text, Object}
use fetchly.Common.Int.{pos}
use fetchly.Dom.{Dom, text_node, Attributes, el}
use fetchly.Jobs.Update.{get_job_id}
use fetchly.Times.{empty_value}
use fetchly.Site.{Site, ecma_of}
use fetchly.Ui.{
  Category, download, cancel, retry, detail, category_text, ActionKey, key_text, append, is_audio,
  is_duration_blocked, get_known_duration_seconds, resolve_job_action, get_status_pill_class,
  get_status_text, normalize_status,
}
use fetchly.Ui.Size.{human_size}
use fetchly.Ui.Buttons.{
  icon, create_button, create_provider_logo, create_divider, create_dropdown_button,
  create_download_options_toggle, action_data,
}

module _ (site : Site) where
  abbrev pub id_of : Object → String
  id_of = get_job_id (ecma_of site)

  unfoldable pub build_download_url : String → String
  build_download_url id = append "/download/" (site.encode_uri id)

  unfoldable pub create_download_link : String → String → Dom
  unfolding build_download_url
  create_download_link class id =
      el "a"
        (("href", build_download_url id)
          ∷ ("class", class)
          ∷ ("download", "")
          ∷ ("aria-label", "Download")
          ∷ ("title", "Download")
          ∷ [])
        (icon "download" ∷ [])

  -- Why the guard blocks a stem.
  unfoldable pub guard_title : Option ℕ → String
  guard_title none = "Track duration unknown — blocked by Duration Guard"
  guard_title (some _) = append "Track exceeds " (
      append ((ecma_of site).text_of_number (finite (pos (site.lalal_max / 60))))
        " min — blocked by Duration Guard")

  -- The title of a stem's entry in the menu.
  unfoldable pub lalal_title : Object → String
  lalal_title job =
      if not site.lalal_enabled
      then "Lalal.ai is not connected"
      else if not (is_duration_blocked site job)
      then ""
      else guard_title (get_known_duration_seconds site job)

  unfoldable pub stem_entry : Object → String → String → String → Dom
  stem_entry job icon_name label stem =
      create_dropdown_button icon_name label
        (action_data "lalal-split" (id_of job) ++ ("data-stem", stem) ∷ [])
        (create_provider_logo ∷ []) (not site.lalal_enabled || is_duration_blocked site job)
        (lalal_title job)

  unfoldable pub audio_download_actions : Object → List Dom
  audio_download_actions job =
      create_divider
      ∷ create_dropdown_button "content_cut" "Trim" (action_data "open-trim" (id_of job)) [] false
          ""
      ∷ create_divider
      ∷ stem_entry job "music_off" "Instrumental" "instrumental"
      ∷ stem_entry job "mic" "A Cappella" "vocals"
      ∷ []

  unfoldable pub create_download_options_menu : Object → Dom
  create_download_options_menu job =
      let audio = is_audio site job in
      let share : Dom =
        create_dropdown_button "share" (if audio then "Share Audio" else "Share Video")
          (action_data "share-job" (id_of job)) [] false "" in
      let more : List Dom = if audio then audio_download_actions job else [] in
      let details : Dom =
        create_dropdown_button "info" "Details" (action_data "open-detail" (id_of job)) [] false
          "" in
      el "ul" (("class", "dropdown-menu dropdown-menu-end") ∷ [])
        (share ∷ more ++ create_divider ∷ details ∷ [])

  unfoldable pub create_desktop_download_action : Object → Dom
  create_desktop_download_action job = el "div" (("class", "btn-group") ∷ []) (
      create_download_link "btn btn-primary btn-sm btn-icon" (id_of job)
      ∷ create_download_options_toggle
          "btn btn-primary btn-sm dropdown-toggle dropdown-toggle-split"
      ∷ create_download_options_menu job
      ∷ [])

  unfoldable pub create_mobile_download_action : Object → Dom
  create_mobile_download_action job =
      el "div" (("class", "btn-group jobs-mobile-action-group") ∷ []) (
        create_download_link "btn jobs-mobile-action jobs-mobile-action--download" (id_of job)
        ∷ create_download_options_toggle
            "btn jobs-mobile-action jobs-mobile-action--menu dropdown-toggle"
        ∷ create_download_options_menu job
        ∷ [])

  unfoldable pub create_cancel_action : Object → String → Dom
  create_cancel_action job class =
      create_button class "Cancel" "cancel" "Cancel" (action_data "cancel-job" (id_of job))

  unfoldable pub create_retry_action : Object → String → Dom
  create_retry_action job class =
      create_button class "Retry" "refresh" "Retry" (action_data "retry-job" (id_of job))

  unfoldable pub create_detail_action : Object → String → Dom
  create_detail_action job class =
      create_button class "Details" "info" "Details" (action_data "open-detail" (id_of job))

  -- What follows the wrapper's own attributes in `renderDesktopAction`.
  unfoldable pub desktop_content : Category → Object → Attributes × List Dom
  unfolding create_cancel_action create_retry_action create_detail_action
  desktop_content download job =
      (("class", "action-buttons") ∷ [], create_desktop_download_action job ∷ [])
  desktop_content cancel job = (
    ("class", "action-buttons") ∷ [],
    create_cancel_action job "btn btn-secondary btn-sm btn-icon" ∷ [],
  )
  desktop_content retry job = (
    ("class", "action-buttons action-buttons--retry") ∷ [],
    create_retry_action job "btn btn-outline-secondary btn-sm btn-icon"
        ∷ create_detail_action job "btn btn-sm btn-outline-secondary btn-icon"
        ∷ [],
  )
  desktop_content detail job = (
    ("class", "action-buttons") ∷ [],
    create_detail_action job "btn btn-sm btn-outline-secondary btn-icon" ∷ [],
  )

  unfoldable pub render_desktop_action : ActionKey → Object → Dom
  render_desktop_action key job =
      let (class, children) = desktop_content key.category job in
      el "div"
        (class
          ++ ("data-action-category", category_text key.category)
            ∷ ("data-action-key", key_text key)
            ∷ [])
        children

  unfoldable pub create_action_button : Object → Dom
  create_action_button job = render_desktop_action (resolve_job_action site job) job

  unfoldable pub render_primary_action : Category → Object → Dom
  unfolding create_cancel_action create_retry_action create_detail_action
  render_primary_action download job = create_mobile_download_action job
  render_primary_action cancel job = create_cancel_action job "btn jobs-mobile-action"
  render_primary_action retry job =
      el "div" (("class", "btn-group jobs-mobile-action-group") ∷ []) (
        create_retry_action job "btn jobs-mobile-action jobs-mobile-action--retry"
        ∷ create_detail_action job "btn jobs-mobile-action jobs-mobile-action--menu"
        ∷ [])
  render_primary_action detail job = create_detail_action job "btn jobs-mobile-action"

  unfoldable pub create_primary_action_button : Object → Dom
  create_primary_action_button job =
      render_primary_action (resolve_job_action site job).category job

  -- A message that is a text, trimmed.
  abbrev pub message_of : Value → String
  message_of (text s) = (ecma_of site).trim s
  message_of _ = ""

  unfoldable pub create_status_element : Value → Value → Value → Value → Bool → Dom
  create_status_element status size_bytes progress message show_size =
      let shown = get_status_text site status progress in
      let size = human_size site size_bytes in
      let note = message_of message in
      let titles : Attributes =
        if normalize_status site status == "error" && not (note == "")
        then ("title", note) ∷ ("aria-label", append shown (append ": " note)) ∷ []
        else [] in
      let pill : Dom =
        el "span" (("class", get_status_pill_class site status) ∷ titles) (text_node shown ∷ []) in
      let badge : List Dom =
        if show_size && not (size == empty_value)
        then el "span" (("class", "status-size") ∷ ("title", "File size") ∷ [])
            (text_node size ∷ [])
          ∷ []
        else [] in
      el "div" (("class", "status-inline") ∷ []) (pill ∷ badge)
