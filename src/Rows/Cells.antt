-- ===== src/Rows/Cells.antt =====
-- app/static/js/jobs.js: the markup of the cells of a row, and the placeholders of empty lists.
use fetchly.Common.{
  String, Bool, false, not, ◌||◌, none, some, List, [], ◌∷◌, ◌++◌, ◌==◌, if◌then◌else◌,
}
use fetchly.Ecma.{or_truthy, Ecma, Value, text, Object, get, string_of}
use fetchly.Dom.{Dom, text_node, el, leaf, icon_span}
use fetchly.Times.{empty_value, format_duration}
use fetchly.Jobs.Filter.{get_title_text}
use fetchly.Site.{Site, ecma_of}
use fetchly.Ui.{append, category_text, key_text, resolve_job_action}
use fetchly.Ui.Actions.{create_status_element, create_action_button}
use fetchly.Rows.{
  pill_label, text_or_empty, get_quality_label, get_type_label, get_type_icon, format_bitrate_text,
  parse_utc_timestamp, format_created_text, has_limited_playback, platform_of,
}

module _ (site : Site) where
  abbrev js : Ecma
  js = ecma_of site

  unfoldable pub create_platform_pill : Object → List Dom
  create_platform_pill job =
      let platform = platform_of site job in
      let label = pill_label platform in
      if label == ""
      then []
      else el "span"
          (("class", append "platform-pill platform-pill--" platform)
            ∷ ("title", label)
            ∷ ("role", "img")
            ∷ ("aria-label", label)
            ∷ [])
          (el "span"
              (("class", append "platform-pill__icon platform-pill__icon--" platform)
                ∷ ("aria-hidden", "true")
                ∷ [])
              []
            ∷ [])
        ∷ []

  abbrev pub shown_title : Object → String
  shown_title job = string_of js (get_title_text js job)

  unfoldable pub render_job_title : Object → List Dom
  unfolding create_platform_pill
  render_job_title job =
      create_platform_pill job ++ leaf "span" "job-title-text" (shown_title job) ∷ []

  unfoldable pub build_type_icon_fragment : Object → List Dom
  build_type_icon_fragment job =
      let icon = get_type_icon site job in
      let label = get_type_label site job in
      let glyph : List Dom =
        if icon == ""
        then []
        else el "span"
            (("class", "material-symbols-outlined icon-inline job-media-icon")
              ∷ ("aria-hidden", "true")
              ∷ ("title", label)
              ∷ [])
            (text_node icon ∷ [])
          ∷ [] in
      let reader : List Dom =
        if label == "" || label == empty_value
        then []
        else leaf "span" (if icon == "" then "" else "visually-hidden") label ∷ [] in
      glyph ++ reader

  unfoldable pub build_limited_playback_fragment : Object → List Dom
  build_limited_playback_fragment job =
      if not (has_limited_playback site job)
      then []
      else el "span"
          (("class", "job-playback-warning")
            ∷ (
              "title",
              "Not playable on Safari, iOS or most TVs — set the video output format to H.264 (Recommended) in Settings for future downloads",
            )
            ∷ [])
          (icon_span "material-symbols-outlined" "devices_off"
            ∷ el "span" [] (text_node "Limited playback" ∷ [])
            ∷ [])
        ∷ []

  abbrev pub or_placeholder : List Dom → List Dom
  or_placeholder [] = text_node empty_value ∷ []
  or_placeholder (d ∷ ds) = d ∷ ds

  unfoldable pub build_desktop_media_primary_fragment : Object → List Dom
  build_desktop_media_primary_fragment job =
      let quality = get_quality_label site job in
      let tier : List Dom =
        if quality == "" || quality == empty_value
        then []
        else text_node (append " " quality) ∷ [] in
      or_placeholder (build_type_icon_fragment job ++ tier) ++ build_limited_playback_fragment job

  unfoldable pub create_mobile_detail_item : String → String → Dom
  create_mobile_detail_item label value =
      el "div" (("class", "job-item__detail") ∷ []) (
        leaf "span" "job-item__detail-label" label
        ∷ leaf "span" "job-item__detail-value" value
        ∷ [])

  unfoldable pub render_mobile_details : Object → Dom
  render_mobile_details job =
      let codec = string_of js (or_truthy (get "codec" job) (text empty_value)) in
      let added = format_created_text site (get "created_at" job) in
      el "div" (("class", "job-item__details visually-hidden") ∷ ("data-role", "job-details") ∷ [])
        (create_mobile_detail_item "Duration" (format_duration js (get "duration_seconds" job))
          ∷ create_mobile_detail_item "Codec"
              (if has_limited_playback site job then append codec " · limited playback" else codec)
          ∷ create_mobile_detail_item "Bitrate" (format_bitrate_text site (get "bitrate_kbps" job))
          ∷ create_mobile_detail_item "Added" (if added == "" then empty_value else added)
          ∷ [])

  -- Both callers pass `showSize: false`.
  unfoldable pub render_job_status : Object → Bool → Dom
  render_job_status job mobile =
      el (if mobile then "div" else "td")
        (("data-label", "Status")
          ∷ ("data-role", "job-status")
          ∷ ("class", if mobile then "job-item__status" else "col-status")
          ∷ [])
        (create_status_element site (get "status" job) (get "filesize_bytes" job)
            (get "progress" job) (get "message" job) false
          ∷ [])

  unfoldable pub build_created_cell : Value → Dom
  build_created_cell value =
      let parts : List Dom = elim (parse_utc_timestamp site (text (text_or_empty site value))) [
        | none ↦ text_node (text_or_empty site value) ∷ []
        | some at ↦
            leaf "span" "date-part" (site.format_date at)
            ∷ text_node " "
            ∷ leaf "span" "time-part" (site.format_time at)
            ∷ []
      ] in
      el "td"
        (("data-label", "Created")
          ∷ ("data-role", "job-created")
          ∷ ("class", "text-nowrap col-date")
          ∷ [])
        parts

-- The cell of the actions: its `dataset` and what it holds.
pub record ActionCell : Type 0 where
  pub action_category : String
  pub action_key : String
  pub content : Dom

-- `renderJobActions` for the desktop.
unfoldable pub render_job_actions : Site → Object → ActionCell
render_job_actions site job =
    let action = resolve_job_action site job in
    record {
      action_category = category_text action.category;
      action_key = key_text action;
      content = el "div" (("class", "action-cell-wrap") ∷ []) (create_action_button site job ∷ []);
    }

unfoldable pub build_empty_state_icon : String → Dom
build_empty_state_icon = icon_span "material-symbols-outlined icon"

-- `columns` is the number of header cells, five where there are none.
unfoldable pub build_desktop_empty_state : String → String → String → String → Dom
build_desktop_empty_state columns message id icon =
    el "tr" (("id", id) ∷ ("class", "row-empty") ∷ []) (
      el "td" (("colspan", columns) ∷ []) (
        el "div" (("class", "empty-state") ∷ [])
          (build_empty_state_icon icon ∷ el "p" [] (text_node message ∷ []) ∷ [])
        ∷ [])
      ∷ [])

unfoldable pub build_mobile_empty_state : String → String → String → Dom
build_mobile_empty_state message id icon =
    el "div" (("id", id) ∷ ("class", "jobs-mobile-empty empty-state empty-state--mobile") ∷ [])
      (build_empty_state_icon icon ∷ el "p" [] (text_node message ∷ []) ∷ [])
