-- ===== src/Jobs/State.antt =====
-- app/static/js/jobs.js: the state of the module, the lookups in it and the full rendering.
use fetchly.Common.{
  ℕ, ◌*◌, String, Bool, false, not, ◌||◌, Option, none, some, List, [], ◌∷◌, map, ◌==◌,
  if◌then◌else◌, length, take, drop, filter, remove, leb,
}
use fetchly.Ecma.{Ecma, Object}
use fetchly.Config.{max_rows}
use fetchly.Jobs.Update.{get_job_id}
use fetchly.Jobs.Surface.{Surface, render_jobs}

abbrev pub hard_max_rows : ℕ
hard_max_rows = max_rows * 2

pub record State : Type 0 where
  pub loading : Bool
  pub done : Bool
  pub next_offset : ℕ
  pub preserve_history : Bool
  pub jobs : List Object
  pub job_ids : List String
  pub desktop : Surface
  pub mobile : Surface
  pub mobile_view : Bool
  pub initialized : Bool
  pub detached_job_id : Option String
  pub desktop_hidden : Bool
  pub mobile_hidden : Bool

abbrev pub ids : Ecma → List Object → List String
ids js = map (get_job_id js)

unfoldable pub sync_surface_visibility : State → State
sync_surface_visibility s = record s {
  desktop_hidden = s.mobile_view;
  mobile_hidden = not s.mobile_view;
}

abbrev pub is_detached : String → Option String → Bool
is_detached k none = false
is_detached k (some d) = d == k

module _ (js : Ecma) where
  -- `getStoredJob`
  unfoldable pub find_job : String → List Object → Option Object
  find_job k [] = none
  find_job k (j ∷ js') = if get_job_id js j == k then some j else find_job k js'

  unfoldable pub remove_job : String → List Object → List Object
  remove_job k [] = []
  remove_job k (j ∷ js') = if get_job_id js j == k then js' else j ∷ remove_job k js'

  unfoldable pub replace_job : String → Object → List Object → List Object
  replace_job k job [] = []
  replace_job k job (j ∷ js') =
      if get_job_id js j == k then job ∷ js' else j ∷ replace_job k job js'

  -- `getListJobs`
  abbrev pub attached : Option String → List Object → List Object
  attached none jobs = jobs
  attached (some d) jobs = filter (λ j. not (get_job_id js j == d)) jobs

  unfoldable pub get_list_jobs : State → List Object
  get_list_jobs s = attached s.detached_job_id s.jobs

  -- `state.jobIds.delete` for each removed job
  unfoldable pub forget : List Object → List String → List String
  forget [] known = known
  forget (j ∷ js') known = forget js' (remove (get_job_id js j) known)

  unfoldable pub trim_jobs : State → State
  trim_jobs s =
      let cap = if s.preserve_history then hard_max_rows else max_rows in
      if leb (length s.jobs) cap then s else record s {
        jobs = take cap s.jobs;
        job_ids = forget (drop cap s.jobs) s.job_ids;
        done = s.preserve_history || s.done;
      }

  unfoldable pub render_active_jobs : State → State
  unfolding sync_surface_visibility
  render_active_jobs s =
      let listed = get_list_jobs s in
      sync_surface_visibility (record s {
        desktop = render_jobs js listed s.desktop;
        mobile = render_jobs js listed s.mobile;
      })

  unfoldable pub set_detached_job_id : String → State → State
  set_detached_job_id k s =
      let next = if k == "" then none else some k in
      let same : Bool = elim s.detached_job_id [ none ↦ k == "" | some d ↦ d == k ] in
      if same then s else render_active_jobs (record s { detached_job_id = next })
