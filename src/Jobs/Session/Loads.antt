-- ===== src/Jobs/Session/Loads.antt =====
-- app/static/js/jobs.js: `state.loading` keeps a second page from being asked for.
use fetchly.Common.{
  ℕ, ◌+◌, ◌≤◌, ◌≡◌, refl, Bool, true, false, not, ◌&&◌, ◌||◌, List, [], ◌∷◌, ◌∙◌, arith, inl, inr,
  Option, none, some, length, ltb, contains, ◌==◌, Bool-cases, Option-cases,
}
use fetchly.Ecma.{Value, Object}
use fetchly.Config.{Env, max_rows}
use fetchly.Jobs.Update.{get_job_id, normalize_job_update}
use fetchly.Jobs.State.{State, ids, render_active_jobs, trim_jobs}
use fetchly.Jobs.Store.{
  prepend_job, upsert_job_snapshot, reset_paging_state, apply_job_update, show_updated,
  update_job_store, prepend_rendered_job, store_first,
}
use fetchly.Jobs.Paging.{
  Fetched, page, not_array, aborted, failed, load_more_begin, load_more_end, sync_view_mode, init,
  replace_jobs, read_bootstrap_jobs,
}
use fetchly.Jobs.Invariant.Steps.{
  prepend_rendered_job-SameStore, set_detached_job_id-SameStore, render_stored_job-SameStore,
  offset_only,
}
use fetchly.Jobs.Session.{
  Session, Call, prepends, upserts, updates, detaches, renders, filters, begins_load, resets,
  ends_load, changes_view, starts, step, run, end_request, filter-SameStore,
}

module _ (env : Env) where
  loading-trim_jobs : (s : State) → (trim_jobs env.ecma s).loading ≡ s.loading
  unfolding trim_jobs
  loading-trim_jobs s = ground arith

  loading-store_first :
      (job : Object) (s : State) → (store_first env.ecma job s).loading ≡ s.loading
  unfolding store_first
  loading-store_first job s = loading-trim_jobs _

  loading-prepend_job :
      (job : Object) (s : State) → (prepend_job env.ecma job s).loading ≡ s.loading
  unfolding prepend_job
  loading-prepend_job job s = elim (Bool-cases (get_job_id env.ecma job == "")) [
    | inl e ↦ rw e
    | inr e ↦
        let first = store_first env.ecma job s in
        let t = prepend_rendered_job env.ecma job first in
        let counted =
          not (contains (get_job_id env.ecma job) (ids env.ecma s.jobs))
          && (t.preserve_history || ltb (length s.jobs) max_rows) in
        rw e (
          (offset_only env.ecma counted (t.next_offset + 1) t).loading
          ∙ ((prepend_rendered_job-SameStore env.ecma job first).loading
              ∙ loading-store_first job s))
  ]

  loading-upsert :
      (job : Object) (s : State) → (upsert_job_snapshot env.ecma job s).0.loading ≡ s.loading
  unfolding upsert_job_snapshot
  loading-upsert job s = ground (arith, loading-prepend_job job s)

  loading-update_job_store :
      (u : Object) (s : State) → (update_job_store env u s).0.loading ≡ s.loading
  unfolding update_job_store
  loading-update_job_store u s = ground arith

  loading-show_updated : (r : State × Option Object) → (show_updated env r).0.loading ≡ r.0.loading
  unfolding show_updated
  loading-show_updated (t, none) = refl
  loading-show_updated (t, some job) =
      (render_stored_job-SameStore env.ecma (get_job_id env.ecma job) t).loading

  loading-apply_job_update :
      (payload : Value) (s : State) → (apply_job_update env payload s).0.loading ≡ s.loading
  unfolding apply_job_update
  loading-apply_job_update payload s = elim (Option-cases (normalize_job_update env.ecma payload)) [
    | inl e ↦ rw (e, apply_job_update)
    | inr (u, e) ↦
        rw (e, apply_job_update)
          (loading-show_updated (update_job_store env u s) ∙ loading-update_job_store u s)
  ]

  loading-init :
      (raw : Option Value) (matches : Bool) (s : State)
      → (init env.ecma raw matches s).loading ≡ s.loading
  unfolding init sync_view_mode replace_jobs render_active_jobs
  loading-init raw matches s =
      let loaded = replace_jobs env.ecma (read_bootstrap_jobs env.ecma raw) s in
      ground (arith, loading-trim_jobs (record loaded { next_offset = length loaded.jobs }))

  loading-load_more_end :
      (n : ℕ) (f : Fetched) (s : State) → (load_more_end env.ecma n f s).0.loading ≡ false
  unfolding load_more_end
  loading-load_more_end n (page []) s = refl
  loading-load_more_end n (page (job ∷ jobs)) s = refl
  loading-load_more_end n not_array s = refl
  loading-load_more_end n aborted s = refl
  loading-load_more_end n failed s = refl

  -- The number of requests that the mark stands for.
  abbrev pub marked : Bool → ℕ
  marked true = 1
  marked false = 0

  -- One request is under way while the mark is set, and none otherwise.
  abbrev pub IsSingle : Session → Type 0
  IsSingle p = length p.requests ≡ marked p.state.loading

  begin-IsSingle : (p : Session) → IsSingle p → IsSingle (step env begins_load p)
  unfolding step load_more_begin
  begin-IsSingle p h = ground arith

  end-IsSingle :
      (f : Fetched) (s : State) (requests : List ℕ)
      → length requests ≡ marked s.loading
      → IsSingle (end_request env f requests s)
  end-IsSingle f s [] h = h
  end-IsSingle f s (n ∷ rest) h = rw (loading-load_more_end n f s) (ground arith)

  step-IsSingle : (c : Call) (p : Session) → IsSingle p → IsSingle (step env c p)
  unfolding step reset_paging_state sync_view_mode
  step-IsSingle (prepends job) p h = rw (loading-prepend_job job p.state) h
  step-IsSingle (upserts job) p h = rw (loading-upsert job p.state) h
  step-IsSingle (updates payload) p h = rw (loading-apply_job_update payload p.state) h
  step-IsSingle (detaches k) p h = rw ((set_detached_job_id-SameStore env.ecma k p.state).loading) h
  step-IsSingle (renders k) p h = rw ((render_stored_job-SameStore env.ecma k p.state).loading) h
  step-IsSingle (filters query status) p h =
      rw ((filter-SameStore env query status p.state).loading) h
  step-IsSingle begins_load p h = begin-IsSingle p h
  step-IsSingle resets p h = h
  step-IsSingle (ends_load f) p h = end-IsSingle f p.state p.requests h
  step-IsSingle (changes_view matches) p h = h
  step-IsSingle (starts raw matches) p h = rw (loading-init raw matches p.state) h

  run-IsSingle : (calls : List Call) (p : Session) → IsSingle p → IsSingle (run env calls p)
  unfolding run
  run-IsSingle [] p h = h
  run-IsSingle (c ∷ cs) p h = run-IsSingle cs (step env c p) (step-IsSingle c p h)

  -- In a session that starts with as many requests under way as its mark says, after any calls in any
  -- order at most one page request is under way.
  pub single_request :
      (calls : List Call) (p : Session)
      → length p.requests ≡ marked p.state.loading
      → length (run env calls p).requests ≤ 1
  single_request calls p h = ground (arith, run-IsSingle calls p h)
