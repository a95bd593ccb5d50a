-- ===== src/CurrentJob.antt =====
-- app/static/js/current-job.js: the card that holds the job started in this page session. The node on the
-- card is known by the job it was last built or patched from.
pub mod Held
use fetchly.Common.{
  String, Bool, true, false, not, ◌&&◌, ◌||◌, Option, none, some, List, [], ◌∷◌, ◌==◌,
  if◌then◌else◌,
}
use fetchly.Ecma.{
  Ecma, Value, arr, obj, Items, nil, cons, Object, get, is_nullish, string_of, properties,
}
use fetchly.Jobs.Update.{get_job_id}
use fetchly.Jobs.State.{State, find_job, set_detached_job_id}
use fetchly.Jobs.Store.{prepend_job}
use fetchly.Jobs.Paging.{sync_view_mode}

-- `present` says that the page has the card; an id is never empty.
pub record Card : Type 0 where
  pub present : Bool
  pub shown : Bool
  pub current_id : Option String
  pub node : Option Object

pub record Page : Type 0 where
  pub card : Card
  pub store : State

module _ (js : Ecma) where
  abbrev pub detached_for : Option String → Bool → String
  detached_for none mobile = ""
  detached_for (some k) mobile = if mobile then k else ""

  unfoldable pub sync_detachment : Page → Page
  sync_detachment p = record p {
    store = set_detached_job_id js (detached_for p.card.current_id p.store.mobile_view) p.store;
  }

  unfoldable pub set_current_job : Object → Page → Page
  set_current_job job p =
      let k = get_job_id js job in
      let synced = sync_detachment (record p { card = record (p.card) { current_id = some k } }) in
      if not p.card.present || k == ""
      then p
      else record synced { card = record (synced.card) { node = some job; shown = true } }

  -- `getJobById`
  unfoldable pub get_job_by_id : String → State → Option Object
  get_job_by_id k s = find_job js k s.jobs

  -- The objects of a list that have an id.
  unfoldable pub active_jobs : Items → List Object
  active_jobs nil = []
  active_jobs (cons (obj job) rest) =
      let others = active_jobs rest in if is_nullish (get "id" job) then others else job ∷ others
  active_jobs (cons _ rest) = active_jobs rest

  -- `String(job.id)`
  abbrev pub id_text : Object → String
  id_text job = string_of js (get "id" job)

  -- The loop over the active jobs from the last to the first.
  unfoldable pub add_missing : List Object → State → State
  add_missing [] s = s
  add_missing (job ∷ jobs) s =
      let t = add_missing jobs s in
      elim (get_job_by_id (id_text job) t) [ none ↦ prepend_job js job t | some _ ↦ t ]

  abbrev pub or_job : Option Object → Object → Object
  or_job none job = job
  or_job (some stored) _ = stored

  unfoldable pub restore_jobs : List Object → Page → Page
  restore_jobs [] p = p
  restore_jobs (first ∷ rest) p =
      let store = add_missing (first ∷ rest) p.store in
      set_current_job (or_job (get_job_by_id (id_text first) store) first)
        (record p { store = store })

  unfoldable pub restore_current_job : Value → Page → Page
  restore_current_job (arr jobs) p = restore_jobs (active_jobs jobs) p
  restore_current_job _ p = p

  abbrev pub holds : Option String → String → Bool
  holds none k = false
  holds (some c) k = k == c

  abbrev pub is_given : Option Object → Bool
  is_given none = false
  is_given (some _) = true

  unfoldable pub refresh_current_job : Object → Page → Page × Bool
  refresh_current_job job p =
      let k = get_job_id js job in
      let patched = or_job (get_job_by_id k p.store) job in
      if k == "" || not (holds p.card.current_id k) || not (is_given p.card.node)
      then (p, false)
      else (record p { card = record (p.card) { node = some patched } }, true)

  -- A change of the media query, and the event `jobs-layout-change` that `syncViewMode` sends.
  unfoldable pub change_layout : Bool → Page → Page
  unfolding sync_detachment
  change_layout matches p = sync_detachment (record p { store = sync_view_mode js matches p.store })
