-- ===== src/Jobs/Paging.antt =====
-- app/static/js/jobs.js: `loadMore` and `init`. `loadMore` is two functions, before and after its
-- `await`, since other operations may run between them.
use fetchly.Common.{
  ℕ, ◌+◌, String, Bool, true, false, not, ◌&&◌, ◌||◌, Option, none, some, List, [], ◌∷◌, ◌++◌, ◌==◌,
  if◌then◌else◌, length, drop, filter, contains, add, ltb,
}
use fetchly.Ecma.{Ecma, Value, arr, Object, properties, get, is_nullish}
use fetchly.Config.{page_size, list_of}
use fetchly.Jobs.Update.{get_job_id}
use fetchly.Jobs.State.{State, ids, trim_jobs, sync_surface_visibility, render_active_jobs}
use fetchly.Jobs.Store.{append_rendered_jobs}

-- What `fetchFn` gives: a page, something else, or an error that is an abort or not. A member of
-- the page that is no object has no own properties.
pub data Fetched : Type 0 where
  page : List Object → Fetched
  not_array aborted failed : Fetched

-- What `loadMore` reports.
pub data Report : Type 0 where
  load_error report_error : Report

module _ (js : Ecma) where
  -- The part before the `await`: the offset to ask for, if a page is wanted.
  unfoldable pub load_more_begin : State → State × Option ℕ
  load_more_begin s =
      if s.loading || s.done then (s, none) else (record s { loading = true }, some s.next_offset)

  -- One round of the loop over a page.
  unfoldable pub push_one : Object → State → State
  push_one job s =
      let k = get_job_id js job in
      if k == "" || contains k s.job_ids
      then s
      else record s { job_ids = add k s.job_ids; jobs = s.jobs ++ job ∷ [] }

  -- The loop over a page.
  unfoldable pub push_unknown : List Object → State → State
  push_unknown [] s = s
  push_unknown (job ∷ rest) s = push_unknown rest (push_one job s)

  unfoldable pub take_page : ℕ → List Object → State → State
  take_page offset jobs s =
      let started = record s { preserve_history = true; next_offset = offset + length jobs } in
      let pushed = push_unknown jobs started in
      let trimmed = trim_jobs js pushed in
      let shown =
        if ltb (length s.jobs) (length pushed.jobs)
        then append_rendered_jobs js (drop (length s.jobs) trimmed.jobs) trimmed
        else pushed in
      if ltb (length jobs) page_size then record shown { done = true } else shown

  -- The part after the `await`, `finally` included.
  unfoldable pub load_more_end : ℕ → Fetched → State → State × List Report
  load_more_end offset not_array s = (record s { done = true; loading = false }, load_error ∷ [])
  load_more_end offset aborted s = (record s { loading = false }, [])
  load_more_end offset failed s = (record s { loading = false }, report_error ∷ load_error ∷ [])
  load_more_end offset (page []) s = (record s { done = true; loading = false }, [])
  load_more_end offset (page (job ∷ jobs)) s =
      let t = take_page offset (job ∷ jobs) s in (record t { loading = false }, [])

  -- The loop of `readBootstrapJobs`.
  unfoldable pub distinct_jobs : List String → List Value → List Object
  distinct_jobs seen [] = []
  distinct_jobs seen (v ∷ vs) =
      let job = properties v in
      let k = get_job_id js job in
      let skip = is_nullish (get "id" job) || k == "" || contains k seen in
      let rest = distinct_jobs (if skip then seen else add k seen) vs in
      if skip then rest else job ∷ rest

  -- `none` where the page has no such data or it does not parse.
  unfoldable pub read_bootstrap_jobs : Option Value → List Object
  unfolding distinct_jobs list_of
  read_bootstrap_jobs (some (arr xs)) = distinct_jobs [] (list_of xs)
  read_bootstrap_jobs _ = []

  unfoldable pub replace_jobs : List Object → State → State
  replace_jobs jobs s = record s {
    jobs = jobs;
    job_ids = filter (λ k. not (k == "")) (ids js jobs);
  }

  -- `syncViewMode(true)`, as it is always called; `matches` is what the media query says.
  unfoldable pub sync_view_mode : Bool → State → State
  unfolding sync_surface_visibility
  sync_view_mode matches s = sync_surface_visibility (record s { mobile_view = matches })

  unfoldable pub init : Option Value → Bool → State → State
  init raw matches s =
      let loaded = replace_jobs (read_bootstrap_jobs raw) s in
      let counted = record loaded { next_offset = length loaded.jobs } in
      let shown = sync_view_mode matches (render_active_jobs js (trim_jobs js counted)) in
      if s.initialized || not (s.desktop.mounted && s.mobile.mounted)
      then s
      else record shown { initialized = true }
