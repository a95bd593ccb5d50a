-- ===== src/Jobs/Lookup.antt =====
-- app/static/js/jobs.js: what `getJobById` finds after an update and after a new snapshot.
use fetchly.Common.{
  ℕ, ◌+◌, String, ◌≡◌, refl, ap, Bool, true, false, not, ◌&&◌, ◌||◌, Option, none, some, List, [],
  ◌∷◌, ◌==◌, if◌then◌else◌, length, take, contains, add, ltb, arith, ◌∙◌, inl, inr, Bool-cases,
  eq_iff, eq_self, leb,
}
use fetchly.Ecma.{Ecma, Value, Object, null, get, properties, string_of, truthy, is_nullish}
use fetchly.Config.{Env, max_rows}
use fetchly.Jobs.Update.{
  get_job_id, normalized, normalize_job_update, merge_stored_job, drops_progress,
}
use fetchly.Jobs.Update.Fields.{
  own, own-normalized, own-merge_stored_job, update_field, or_else, normalize_job_update_cases,
}
use fetchly.Jobs.State.{State, ids, hard_max_rows, find_job, remove_job, replace_job, trim_jobs}
use fetchly.Jobs.Store.{
  store_first, prepend_job, prepend_rendered_job, upsert_job_snapshot, update_job_store,
  show_updated, apply_job_update,
}
use fetchly.Jobs.Invariant.{ids-replace_job}
use fetchly.Jobs.Invariant.Steps.{
  prepend_rendered_job-SameStore, offset_only, render_stored_job-SameStore,
}
use fetchly.Jobs.Invariant.Updates.{
  get_job_id-merge_stored_job, id-normalized, update_job_store_hit, update_job_store_miss,
}

module _ (js : Ecma) where
  -- A job written in the place of the one with its id.
  pub find_job-replace_job :
      (k j : String) (job : Object) (jobs : List Object)
      → get_job_id js job ≡ k
      → contains k (ids js jobs) ≡ true
      → find_job js j (replace_job js k job jobs)
        ≡ (if k == j then some job else find_job js j jobs)
  unfolding find_job replace_job
  find_job-replace_job k j job [] e h = ground arith
  find_job-replace_job k j job (first ∷ jobs) e h = ground (
    arith,
    find_job-replace_job k j job jobs e,
    eq_iff (get_job_id js first) k,
    eq_iff (get_job_id js first) j,
    eq_iff k j,
  )

  pub found-contains :
      (k : String) (jobs : List Object) (job : Object)
      → find_job js k jobs ≡ some job
      → contains k (ids js jobs) ≡ true
  unfolding find_job
  found-contains k [] job h = cc
  found-contains k (first ∷ jobs) job h = ground (arith, found-contains k jobs job)

  take_cap :
      (b : Bool) (job : Object) (jobs : List Object)
      → (rest : List Object) × (take (if b then hard_max_rows else max_rows) (job ∷ jobs)
          ≡ job ∷ rest)
  take_cap true job jobs = (take 239 jobs, refl)
  take_cap false job jobs = (take 119 jobs, refl)

  -- The first job of the list stays, and stays first.
  trim_jobs_first :
      (job : Object) (jobs : List Object) (s : State)
      → s.jobs ≡ job ∷ jobs
      → (rest : List Object) × ((trim_jobs js s).jobs ≡ job ∷ rest)
  unfolding trim_jobs
  trim_jobs_first job jobs s e =
      let cap : ℕ = if s.preserve_history then hard_max_rows else max_rows in
      elim (Bool-cases (leb (length s.jobs) cap)) [
        | inl short ↦ (jobs, rw short e)
        | inr long ↦
            let (rest, cut) = take_cap s.preserve_history job jobs in
            (rest, rw long (ap (take cap) e ∙ cut))
      ]

  -- The list after `prependJob` of a job with an id.
  pub prepend_job-jobs :
      (job : Object) (s : State)
      → (get_job_id js job == "") ≡ false
      → (prepend_job js job s).jobs
        ≡ (trim_jobs js (record s {
          jobs = job ∷ remove_job js (get_job_id js job) s.jobs;
          job_ids = add (get_job_id js job) s.job_ids;
          done = false;
        })).jobs
  unfolding prepend_job store_first
  prepend_job-jobs job s h =
      let k = get_job_id js job in
      let first = store_first js job s in
      let t = prepend_rendered_job js job first in
      let counted =
        not (contains k (ids js s.jobs)) && (t.preserve_history || ltb (length s.jobs) max_rows) in
      rw h (
        (offset_only js counted (t.next_offset + 1) t).jobs
        ∙ (prepend_rendered_job-SameStore js job first).jobs)

  prepend_job_first :
      (job : Object) (s : State)
      → (get_job_id js job == "") ≡ false
      → (rest : List Object) × ((prepend_job js job s).jobs ≡ job ∷ rest)
  prepend_job_first job s h =
      let k = get_job_id js job in
      let (rest, e) =
        trim_jobs_first job (remove_job js k s.jobs)
          (record s {
            jobs = job ∷ remove_job js k s.jobs;
            job_ids = add k s.job_ids;
            done = false;
          })
          refl in
      (rest, prepend_job-jobs job s h ∙ e)

  -- A snapshot with an id is stored first, is what the call returns and what a lookup then finds.
  pub upsert_stores :
      (job : Object) (s : State)
      → (get_job_id js job == "") ≡ false
      → (rest : List Object) × ((upsert_job_snapshot js job s).0.jobs ≡ job ∷ rest)
        × ((upsert_job_snapshot js job s).1 ≡ some job)
        × (find_job js (get_job_id js job) (upsert_job_snapshot js job s).0.jobs ≡ some job)
  unfolding upsert_job_snapshot find_job
  upsert_stores job s h =
      let (rest, e) = prepend_job_first job s h in
      let found : find_job js (get_job_id js job) (prepend_job js job s).jobs ≡ some job =
        rw (e, eq_self (get_job_id js job)) in
      (rest, rw h e, rw h found, rw h found)

module _ (env : Env) where
  -- What `renderStoredJob` shows does not change the store.
  pub jobs-show_updated : (r : State × Option Object) → (show_updated env r).0.jobs ≡ r.0.jobs
  unfolding show_updated
  jobs-show_updated (t, none) = refl
  jobs-show_updated (t, some job) =
      (render_stored_job-SameStore env.ecma (get_job_id env.ecma job) t).jobs

  result-show_updated : (r : State × Option Object) → (show_updated env r).1 ≡ r.1
  unfolding show_updated
  result-show_updated (t, none) = refl
  result-show_updated (t, some job) = refl

  normalize_payload :
      (payload : Value)
      → truthy payload ≡ true
      → is_nullish (get "id" (properties payload)) ≡ false
      → normalize_job_update env.ecma payload ≡ some (normalized env.ecma (properties payload))
  unfolding normalize_job_update
  normalize_payload payload t i = ground arith

  apply_job_update_eq :
      (payload : Value) (s : State)
      → truthy payload ≡ true
      → is_nullish (get "id" (properties payload)) ≡ false
      → apply_job_update env payload s
        ≡ show_updated env (update_job_store env (normalized env.ecma (properties payload)) s)
  unfolding apply_job_update
  apply_job_update_eq payload s t i = rw (normalize_payload payload t i, apply_job_update)

  -- The stored job `e` after a payload with the properties `p`: each property that the payload gives
  -- in a form that the store takes is the payload's, each other one stays, and `progress` is null
  -- if the payload gives a status without a percentage and no percentage.
  abbrev pub IsMerge : Object → Object → Object → Type 0
  IsMerge e p m =
      (f : String)
      → own f m ≡ (
          if drops_progress env (normalized env.ecma p) && "progress" == f
          then some null
          else or_else (update_field env.ecma f p) (own f e))

  -- A payload with an id that is not empty and that the store holds: the call returns a job, which a
  -- lookup by that id then finds, in which each property that the payload gives in a form that the
  -- store takes is the payload's and each other one is the stored job's, but `progress` is null if the
  -- payload gives a status without a percentage and no percentage. Every other lookup gives what it
  -- gave, and the order of the ids stays.
  pub update_known :
      (payload : Value) (s : State) (e : Object)
      → truthy payload ≡ true
      → is_nullish (get "id" (properties payload)) ≡ false
      → (string_of env.ecma (get "id" (properties payload)) == "") ≡ false
      → find_job env.ecma (string_of env.ecma (get "id" (properties payload))) s.jobs ≡ some e
      → (m : Object) × ((apply_job_update env payload s).1 ≡ some m)
        × (ids env.ecma (apply_job_update env payload s).0.jobs ≡ ids env.ecma s.jobs)
        × ((j : String)
            → find_job env.ecma j (apply_job_update env payload s).0.jobs ≡ (
                if string_of env.ecma (get "id" (properties payload)) == j
                then some m
                else find_job env.ecma j s.jobs))
        × IsMerge e (properties payload) m
  update_known payload s e t i h found =
      let js = env.ecma in
      let p = properties payload in
      let k = string_of js (get "id" p) in
      let u = normalized js p in
      let m = merge_stored_job env e u in
      let named = get_job_id-merge_stored_job env e u k (id-normalized env p) in
      let stored = update_job_store_hit env u s k e (id-normalized env p) h found in
      let jobs : (apply_job_update env payload s).0.jobs ≡ replace_job js k m s.jobs =
        rw (apply_job_update_eq payload s t i) (jobs-show_updated _ ∙ rw stored) in
      (
        m,
        rw (apply_job_update_eq payload s t i) (result-show_updated _ ∙ rw stored),
        rw jobs (ids-replace_job js k m s.jobs named),
        λ j.
            rw jobs
              (find_job-replace_job js k j m s.jobs named (found-contains js k s.jobs e found)),
        λ f. rw (own-merge_stored_job env e u f, own-normalized js p f),
      )

  -- A payload whose id the store does not hold changes nothing and returns nothing.
  pub update_unknown :
      (payload : Value) (s : State)
      → find_job env.ecma (string_of env.ecma (get "id" (properties payload))) s.jobs ≡ none
      → apply_job_update env payload s ≡ (s, none)
  unfolding apply_job_update show_updated
  update_unknown payload s missing =
      let js = env.ecma in
      let p = properties payload in
      elim (normalize_job_update_cases js payload) [
        | inl e ↦ rw (e, apply_job_update)
        | inr e ↦
            rw (e, apply_job_update)
              (rw (
                update_job_store_miss env (normalized js p) s (string_of js (get "id" p))
                  (id-normalized env p) (inr missing)))
      ]
