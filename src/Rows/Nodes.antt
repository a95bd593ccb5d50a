-- ===== src/Rows/Nodes.antt =====
-- app/static/js/jobs.js: the rows of the two surfaces, built from a job and patched from one. A record keeps
-- what depends on the job; the attributes that every row has are left out.
use fetchly.Common.{
  String, Bool, true, false, not, ◌&&◌, ◌||◌, Option, none, some, List, ◌==◌, if◌then◌else◌,
}
use fetchly.Ecma.{or_truthy, Ecma, Value, text, Object, get, set_has, string_of, truthy}
use fetchly.Dom.{Dom}
use fetchly.Times.{empty_value}
use fetchly.Jobs.Filter.{get_title_text}
use fetchly.Site.{Site, ecma_of}
use fetchly.Ui.{append, is_text, category_text, key_text, resolve_job_action}
use fetchly.Ui.Actions.{id_of, create_primary_action_button}
use fetchly.Rows.{
  text_or_empty, format_mobile_media_line, format_mobile_time_line, format_desktop_media_secondary,
}
use fetchly.Rows.Cells.{
  create_platform_pill, shown_title, render_job_title, build_desktop_media_primary_fragment,
  render_mobile_details, render_job_status, build_created_cell, ActionCell, render_job_actions,
}

-- The `dataset` of a row and its classes `row-done`, `row-error`, `row-cancelled` and `row-pending`.
pub record Mark : Type 0 where
  pub job_id : String
  pub status : String
  pub bpm : String
  pub is_done : Bool
  pub is_error : Bool
  pub is_cancelled : Bool
  pub is_pending : Bool

abbrev pub blank : Mark
blank = record {
  job_id = "";
  status = "";
  bpm = "";
  is_done = false;
  is_error = false;
  is_cancelled = false;
  is_pending = false;
}

pub record DesktopRow : Type 0 where
  pub mark : Mark
  pub popover : String
  pub pill : List Dom
  pub title : String
  pub media_value : List Dom
  pub media_detail : String
  pub status_cell : Dom
  pub created_cell : Dom
  pub actions : ActionCell

-- `title_label` is the `aria-label` of the title, `shown_action` the category and the key in the `dataset`
-- of the action; both are missing in a new row.
pub record MobileRow : Type 0 where
  pub mark : Mark
  pub title_nodes : List Dom
  pub title_label : Option String
  pub media_line : String
  pub time_value : String
  pub time_label : String
  pub details : Dom
  pub status_node : Dom
  pub body_id : String
  pub body_label : String
  pub shown_action : Option (String × String)
  pub action : Dom

abbrev pub has_key : Option (String × String) → String → Bool
has_key none key = false
has_key (some (category, k)) key = k == key

module _ (site : Site) where
  abbrev js : Ecma
  js = ecma_of site

  abbrev pub status_of : Object → Value
  status_of job = or_truthy (get "status" job) (text "queued")

  unfoldable pub apply_job_dataset : Object → Mark → Mark
  apply_job_dataset job mark = record mark {
    job_id = id_of site job;
    status = string_of js (status_of job);
    bpm = text_or_empty site (get "bpm" job);
  }

  unfoldable pub apply_row_status_classes : Value → Mark → Mark
  apply_row_status_classes status mark = record mark {
    is_done = is_text "done" status || is_text "analysis_done" status;
    is_error = is_text "error" status;
    is_cancelled = is_text "cancelled" status;
    is_pending =
        not (is_text "" status)
        && not (set_has site.contract.terminal (text (string_of js (or_truthy status (text "")))));
    status = string_of js status;
  }

  abbrev pub marked : Object → Mark → Mark
  marked job mark = apply_row_status_classes (status_of job) (apply_job_dataset job mark)

  abbrev pub popover_of : Object → String
  popover_of job =
      string_of js (or_truthy (get "video_meta_hover" job) (or_truthy (get "url" job) (text "")))

  unfoldable pub build_desktop_job : Object → DesktopRow
  build_desktop_job job = record {
    mark = marked job blank;
    popover = popover_of job;
    pill = create_platform_pill site job;
    title = shown_title site job;
    media_value = build_desktop_media_primary_fragment site job;
    media_detail = format_desktop_media_secondary site job;
    status_cell = render_job_status site job false;
    created_cell = build_created_cell site (get "created_at" job);
    actions = render_job_actions site job;
  }

  unfoldable pub patch_actions : Object → ActionCell → ActionCell
  patch_actions job cell =
      let next = resolve_job_action site job in
      if not (cell.action_key == key_text next)
      then render_job_actions site job
      else record cell { action_category = category_text next.category; action_key = key_text next }

  unfoldable pub patch_desktop_job_node : DesktopRow → Object → DesktopRow
  unfolding patch_actions
  patch_desktop_job_node row job = record row {
    mark = marked job row.mark;
    popover = popover_of job;
    title = shown_title site job;
    media_value = build_desktop_media_primary_fragment site job;
    media_detail = format_desktop_media_secondary site job;
    status_cell = render_job_status site job false;
    created_cell = build_created_cell site (get "created_at" job);
    actions = patch_actions job row.actions;
  }

  abbrev pub time_of : Object → String
  time_of job =
      let line = format_mobile_time_line site (get "created_at" job) in
      if line == "" then empty_value else line

  abbrev pub body_label_of : Object → String
  body_label_of job =
      append "View details for "
        (if truthy (get_title_text js job) then shown_title site job else "this job")

  unfoldable pub build_mobile_job : Object → MobileRow
  build_mobile_job job = record {
    mark = marked job blank;
    title_nodes = render_job_title site job;
    title_label = none;
    media_line = format_mobile_media_line site job;
    time_value = time_of job;
    time_label = append "Added " (time_of job);
    details = render_mobile_details site job;
    status_node = render_job_status site job true;
    body_id = id_of site job;
    body_label = body_label_of job;
    shown_action = none;
    action = create_primary_action_button site job;
  }

  unfoldable pub patch_mobile_job_node : MobileRow → Object → MobileRow
  patch_mobile_job_node row job =
      let next = resolve_job_action site job in
      record row {
        mark = marked job row.mark;
        title_nodes = render_job_title site job;
        title_label = some (shown_title site job);
        media_line = format_mobile_media_line site job;
        time_value = time_of job;
        time_label = append "Added " (time_of job);
        details = render_mobile_details site job;
        status_node = render_job_status site job true;
        body_id = id_of site job;
        body_label = body_label_of job;
        shown_action = some (category_text next.category, key_text next);
        action =
            if not (has_key row.shown_action (key_text next))
            then create_primary_action_button site job
            else row.action;
      }
