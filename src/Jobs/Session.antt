-- ===== src/Jobs/Session.antt =====
-- app/static/js/jobs.js: a page session, as the calls that the other modules make and the events that
-- the module listens to. A call of `loadMore` is two steps, since others may run during its `await`.
pub mod Loads
use fetchly.Common.{
  ℕ, zero, suc, ◌+◌, ◌≤◌, String, ◌≡◌, refl, Bool, true, false, not, ◌&&◌, ◌||◌, List, [], ◌∷◌,
  if◌then◌else◌, arith, ◌⊎◌, inl, inr, Option, none, some, length, ltb, contains, ◌==◌,
}
use fetchly.Ecma.{Value, Object}
use fetchly.Config.{Env, max_rows}
use fetchly.Jobs.Surface.{Surface}
use fetchly.Jobs.Update.{get_job_id}
use fetchly.Jobs.State.{State, set_detached_job_id, ids, render_active_jobs}
use fetchly.Jobs.Store.{
  prepend_job, upsert_job_snapshot, reset_paging_state, render_stored_job, apply_job_update,
  show_updated, update_job_store, prepend_rendered_job, store_first, append_rendered_jobs,
}
use fetchly.Jobs.Paging.{
  Fetched, page, load_more_begin, load_more_end, take_page, push_unknown, push_one, sync_view_mode,
  init,
}
use fetchly.Jobs.Filter.{apply_stored_job_title_filter}
use fetchly.Jobs.Invariant.{IsConsistent, IsValid}
use fetchly.Jobs.Invariant.Steps.{
  SameStore, SameStore-IsValid, prepend_job-IsValid, upsert_job_snapshot-IsValid,
  set_detached_job_id-SameStore, render_stored_job-SameStore,
}
use fetchly.Jobs.Invariant.Pages.{load_more_begin-IsValid, load_more_end-IsValid}
use fetchly.Jobs.Invariant.Boot.{init-IsValid}
use fetchly.Jobs.Invariant.Updates.{apply_job_update-IsValid}

pub data Call : Type 0 where
  prepends upserts : Object → Call
  updates : Value → Call
  detaches renders : String → Call
  filters : Value → Value → Call
  begins_load resets : Call
  ends_load : Fetched → Call
  changes_view : Bool → Call
  starts : Option Value → Bool → Call

-- The module's state and the offsets of the requests under way.
pub record Session : Type 0 where
  pub state : State
  pub requests : List ℕ

abbrev pub started : Option ℕ → List ℕ → List ℕ
started none requests = requests
started (some offset) requests = offset ∷ requests

module _ (env : Env) where
  -- The first request under way ends; an end with no request is no event.
  abbrev pub end_request : Fetched → List ℕ → State → Session
  end_request f [] s = record { state = s; requests = [] }
  end_request f (offset ∷ requests) s = record {
    state = (load_more_end env.ecma offset f s).0;
    requests = requests;
  }

  unfoldable pub step : Call → Session → Session
  step (prepends job) p = record p { state = prepend_job env.ecma job p.state }
  step (upserts job) p = record p { state = (upsert_job_snapshot env.ecma job p.state).0 }
  step (updates payload) p = record p { state = (apply_job_update env payload p.state).0 }
  step (detaches k) p = record p { state = set_detached_job_id env.ecma k p.state }
  step (renders k) p = record p { state = render_stored_job env.ecma k p.state }
  step (filters query status) p = record p {
    state = (apply_stored_job_title_filter env.ecma query status p.state).0;
  }
  step begins_load p =
      let (s, offset) = load_more_begin env.ecma p.state in
      record { state = s; requests = started offset p.requests }
  step resets p = record p { state = reset_paging_state env.ecma p.state }
  step (ends_load f) p = end_request f p.requests p.state
  step (changes_view matches) p = record p { state = sync_view_mode env.ecma matches p.state }
  step (starts raw matches) p = record p { state = init env.ecma raw matches p.state }

  unfoldable pub run : List Call → Session → Session
  run [] p = p
  run (c ∷ cs) p = run cs (step c p)

  pub filter-SameStore :
      (query status : Value) (s : State)
      → SameStore s (apply_stored_job_title_filter env.ecma query status s).0
  unfolding apply_stored_job_title_filter
  filter-SameStore query status s = ground arith

  step-IsValid :
      (c : Call) (p : Session) → IsValid env.ecma p.state → IsValid env.ecma (step c p).state
  unfolding step reset_paging_state sync_view_mode
  step-IsValid (prepends job) p v = prepend_job-IsValid env.ecma job p.state v
  step-IsValid (upserts job) p v = upsert_job_snapshot-IsValid env.ecma job p.state v
  step-IsValid (updates payload) p v = apply_job_update-IsValid env payload p.state v
  step-IsValid (detaches k) p v =
      SameStore-IsValid env.ecma (set_detached_job_id-SameStore env.ecma k p.state) v
  step-IsValid (renders k) p v =
      SameStore-IsValid env.ecma (render_stored_job-SameStore env.ecma k p.state) v
  step-IsValid (filters query status) p v =
      SameStore-IsValid env.ecma (filter-SameStore query status p.state) v
  step-IsValid begins_load p v = load_more_begin-IsValid env.ecma p.state v
  step-IsValid resets p v = record { consistent = v.consistent; bounded = v.bounded }
  step-IsValid (ends_load f) p v = end-IsValid p.requests
    where
      end-IsValid : (requests : List ℕ) → IsValid env.ecma (end_request f requests p.state).state
      end-IsValid [] = v
      end-IsValid (offset ∷ rest) = load_more_end-IsValid env.ecma offset f p.state v
  step-IsValid (changes_view matches) p v = record {
    consistent = v.consistent;
    bounded = v.bounded;
  }
  step-IsValid (starts raw matches) p v = init-IsValid env.ecma raw matches p.state (inl v)

  -- In a session from a valid store, after any calls in any order the list of jobs holds no id twice,
  -- no empty id and at most 240 jobs, and the set of ids is that of the list.
  pub run-IsValid :
      (calls : List Call) (p : Session)
      → IsValid env.ecma p.state
      → IsValid env.ecma (run calls p).state
  unfolding run
  run-IsValid [] p v = v
  run-IsValid (c ∷ cs) p v = run-IsValid cs (step c p) (step-IsValid c p v)
