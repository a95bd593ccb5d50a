-- ===== src/Rows/Patched.antt =====
-- app/static/js/jobs.js: a row that was patched again and again shows the last job, as a new row would.
use fetchly.Common.{◌≡◌, refl, sym, ap, ◌∙◌, String, some, List, [], ◌∷◌, eq_cases, inl, inr, subst}
use fetchly.Ecma.{Object}
use fetchly.Dom.{Dom}
use fetchly.Site.{Site}
use fetchly.Ui.{category_text, key_text, resolve_job_action}
use fetchly.Ui.Actions.{id_of}
use fetchly.Rows.Cells.{create_platform_pill, shown_title, render_job_actions}
use fetchly.Rows.Nodes.{
  DesktopRow, MobileRow, apply_job_dataset, apply_row_status_classes, build_desktop_job,
  patch_actions, patch_desktop_job_node, build_mobile_job, patch_mobile_job_node,
}
use fetchly.Rows.Same.{action_button_same, primary_button_same}

-- The last of some jobs, the first of which is given.
abbrev pub last_of : Object → List Object → Object
last_of job [] = job
last_of job (next ∷ jobs) = last_of next jobs

module _ (site : Site) where
  -- Every job of the list has the id.
  abbrev pub HaveId : String → List Object → Type 0
  HaveId id [] = Unit
  HaveId id (job ∷ jobs) = (id_of site job ≡ id) × HaveId id jobs

  abbrev pub patched_desktop : DesktopRow → List Object → DesktopRow
  patched_desktop row [] = row
  patched_desktop row (job ∷ jobs) = patched_desktop (patch_desktop_job_node site row job) jobs

  abbrev pub patched_mobile : MobileRow → List Object → MobileRow
  patched_mobile row [] = row
  patched_mobile row (job ∷ jobs) = patched_mobile (patch_mobile_job_node site row job) jobs

  -- A new row for a job, with the pill of another.
  abbrev pub desktop_row : List Dom → Object → DesktopRow
  desktop_row pill job = record (build_desktop_job site job) { pill = pill }

  -- A new row for a job, with what only a patch writes.
  abbrev pub mobile_row : Object → MobileRow
  mobile_row job =
      let action = resolve_job_action site job in
      record (build_mobile_job site job) {
        title_label = some (shown_title site job);
        shown_action = some (category_text action.category, key_text action);
      }

  patch_actions_lem :
      (old new : Object)
      → id_of site old ≡ id_of site new
      → patch_actions site new (render_job_actions site old) ≡ render_job_actions site new
  unfolding patch_actions render_job_actions
  patch_actions_lem old new same_id =
      elim (eq_cases (key_text (resolve_job_action site old))
        (key_text (resolve_job_action site new))) [
          | inl (found, same) ↦ rw (found, action_button_same site old new same_id same) refl
          | inr (found, _) ↦ rw (found) refl
        ]

  desktop_patch :
      (pill : List Dom) (old new : Object)
      → id_of site old ≡ id_of site new
      → patch_desktop_job_node site (desktop_row pill old) new ≡ desktop_row pill new
  unfolding patch_desktop_job_node build_desktop_job apply_row_status_classes apply_job_dataset
  desktop_patch pill old new same_id =
      ap (λ cell. record (desktop_row pill new) { actions = cell })
        (patch_actions_lem old new same_id)

  mobile_patch :
      (old new : Object)
      → id_of site old ≡ id_of site new
      → patch_mobile_job_node site (mobile_row old) new ≡ mobile_row new
  unfolding patch_mobile_job_node build_mobile_job apply_row_status_classes apply_job_dataset
  mobile_patch old new same_id =
      elim (eq_cases (key_text (resolve_job_action site old))
        (key_text (resolve_job_action site new))) [
          | inl (found, same) ↦ rw (found, primary_button_same site old new same_id same) refl
          | inr (found, _) ↦ rw (found) refl
        ]

  desktop_run :
      (pill : List Dom) (job : Object) (jobs : List Object)
      → HaveId (id_of site job) jobs
      → patched_desktop (desktop_row pill job) jobs ≡ desktop_row pill (last_of job jobs)
  desktop_run pill job [] same = refl
  desktop_run pill job (next ∷ jobs) (here, rest) =
      ap (λ row. patched_desktop row jobs) (desktop_patch pill job next (sym here))
      ∙ desktop_run pill next jobs (subst (λ id. HaveId id jobs) (sym here) rest)

  mobile_run :
      (job : Object) (jobs : List Object)
      → HaveId (id_of site job) jobs
      → patched_mobile (mobile_row job) jobs ≡ mobile_row (last_of job jobs)
  mobile_run job [] same = refl
  mobile_run job (next ∷ jobs) (here, rest) =
      ap (λ row. patched_mobile row jobs) (mobile_patch job next (sym here))
      ∙ mobile_run next jobs (subst (λ id. HaveId id jobs) (sym here) rest)

  -- A desktop row built for a job and then patched with any number of jobs of the same id is the row that
  -- would be built for the last of them, but for the platform pill, which stays that of the first job.
  pub desktop_shows_last :
      (job : Object) (jobs : List Object)
      → HaveId (id_of site job) jobs
      → patched_desktop (build_desktop_job site job) jobs
        ≡ record (build_desktop_job site (last_of job jobs)) {
          pill = create_platform_pill site job;
        }
  unfolding build_desktop_job
  desktop_shows_last job jobs same = desktop_run (create_platform_pill site job) job jobs same

  -- A mobile row built for a job and then patched with one job or more of the same id is the row that would
  -- be built for the last of them, with the label of its title and the key of its action written down.
  pub mobile_shows_last :
      (job next : Object) (jobs : List Object)
      → HaveId (id_of site next) jobs
      → patched_mobile (build_mobile_job site job) (next ∷ jobs) ≡ mobile_row (last_of next jobs)
  unfolding build_mobile_job patch_mobile_job_node apply_row_status_classes apply_job_dataset
  mobile_shows_last job next jobs same = mobile_run next jobs same
