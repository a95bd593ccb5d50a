-- ===== src/Jobs/Store.antt =====
-- app/static/js/jobs.js: the operations on one job: `prependJob`, `upsertJobSnapshot`, `renderStoredJob`
-- and `applyJobUpdate`, with what they render.
use fetchly.Common.{
  ◌+◌, String, Bool, false, not, ◌&&◌, ◌||◌, Option, none, some, List, ◌∷◌, ◌==◌, if◌then◌else◌,
  length, contains, add, ltb, eqb,
}
use fetchly.Ecma.{Ecma, Value, text, Object, get}
use fetchly.Config.{Env, max_rows}
use fetchly.Jobs.Update.{get_job_id, normalize_job_update, merge_stored_job}
use fetchly.Jobs.Surface.{
  trim_rendered_nodes, prepend_to_surface, append_to_surface, has_mounted_job, patch_row,
}
use fetchly.Jobs.State.{
  State, ids, find_job, remove_job, replace_job, get_list_jobs, trim_jobs, render_active_jobs,
  is_detached,
}

module _ (js : Ecma) where
  -- A list has rows to show and a surface tracks none.
  abbrev pub is_out_of_step : State → Bool
  is_out_of_step s =
      not (eqb (length (get_list_jobs js s)) 0)
      && (eqb (length s.desktop.nodes) 0 || eqb (length s.mobile.nodes) 0)

  unfoldable pub prepend_rendered_job : Object → State → State
  prepend_rendered_job job s =
      let k = get_job_id js job in
      let count = length (get_list_jobs js s) in
      let patched = record s {
        desktop = prepend_to_surface js count job s.desktop;
        mobile = prepend_to_surface js count job s.mobile;
      } in
      if not (s.desktop.mounted && s.mobile.mounted)
      then s
      else if is_detached k s.detached_job_id
      then record s {
        desktop = trim_rendered_nodes js count s.desktop;
        mobile = trim_rendered_nodes js count s.mobile;
      }
      else if is_out_of_step s
      then render_active_jobs js s
      else if has_mounted_job js k patched.desktop && has_mounted_job js k patched.mobile
      then patched
      else render_active_jobs js patched

  unfoldable pub append_rendered_jobs : List Object → State → State
  append_rendered_jobs jobs s =
      let count = length (get_list_jobs js s) in
      if eqb (length jobs) 0 || not (s.desktop.mounted && s.mobile.mounted)
      then s
      else if is_out_of_step s
      then render_active_jobs js s
      else record s {
        desktop = append_to_surface js count jobs s.desktop;
        mobile = append_to_surface js count jobs s.mobile;
      }

  -- The store's part of `prependJob`.
  unfoldable pub store_first : Object → State → State
  store_first job s =
      let k = get_job_id js job in
      trim_jobs js
        (record s { jobs = job ∷ remove_job js k s.jobs; job_ids = add k s.job_ids; done = false })

  unfoldable pub prepend_job : Object → State → State
  prepend_job job s =
      let k = get_job_id js job in
      let t = prepend_rendered_job job (store_first job s) in
      let existed = contains k (ids js s.jobs) in
      if k == ""
      then s
      else if not existed && (t.preserve_history || ltb (length s.jobs) max_rows)
      then record t { next_offset = t.next_offset + 1 }
      else t

  unfoldable pub upsert_job_snapshot : Object → State → State × Option Object
  upsert_job_snapshot job s =
      let k = get_job_id js job in
      let t = prepend_job job s in if k == "" then (s, none) else (t, find_job js k t.jobs)

  unfoldable pub reset_paging_state : State → State
  reset_paging_state s = record s { done = false; preserve_history = false; next_offset = 0 }

  unfoldable pub render_stored_job : String → State → State
  render_stored_job k s =
      let both = λ (job : Object) (t : State). record t {
        desktop = patch_row js job t.desktop;
        mobile = patch_row js job t.mobile;
      } in
      elim (find_job js k s.jobs) [
        | none ↦ s
        | some job ↦
            if is_detached k s.detached_job_id
            then s
            else if contains k s.desktop.nodes && contains k s.mobile.nodes
            then both job s
            else both job (render_active_jobs js s)
      ]

-- `update?.id` is a text in every normalized update.
unfoldable pub update_id : Object → String
update_id update = elim (get "id" update) [ text k ↦ k | _ ↦ "" ]

module _ (env : Env) where
  unfoldable pub update_job_store : Object → State → State × Option Object
  update_job_store update s =
      let k = update_id update in
      if k == "" then (s, none) else elim (find_job env.ecma k s.jobs) [
        | none ↦ (s, none)
        | some job ↦
            let merged = merge_stored_job env job update in
            (record s { jobs = replace_job env.ecma k merged s.jobs }, some merged)
      ]

  -- `if (!updatedJob) return null; renderStoredJob(updatedJob.id)`
  unfoldable pub show_updated : State × Option Object → State × Option Object
  show_updated (t, none) = (t, none)
  show_updated (t, some job) = (render_stored_job env.ecma (get_job_id env.ecma job) t, some job)

  unfoldable pub apply_job_update : Value → State → State × Option Object
  apply_job_update payload s = elim (normalize_job_update env.ecma payload) [
    | none ↦ (s, none)
    | some update ↦ show_updated (update_job_store update s)
  ]
