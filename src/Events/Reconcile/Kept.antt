-- ===== src/Events/Reconcile/Kept.antt =====
-- app/static/js/events.js: what an update or a snapshot of one job does to another.
use fetchly.Common.{
  ℕ, String, ◌≡◌, refl, false, none, List, [], ◌∷◌, if◌then◌else◌, leb, ◌==◌, ◌⊎◌, inl, inr, arith,
  ◌∙◌, Bool-cases, Option-cases, take, zero, suc, eq_iff, if_both, length, add,
}
use mathlib.Core.Bool.{true≢false}
use fetchly.Ecma.{Ecma, Value, Object, get, string_of, properties, is_nullish}
use fetchly.Config.{Env, max_rows}
use fetchly.Jobs.Update.{get_job_id, normalized, merge_stored_job}
use fetchly.Jobs.Update.Fields.{normalize_job_update_cases}
use fetchly.Jobs.State.{State, hard_max_rows, find_job, remove_job, trim_jobs}
use fetchly.Jobs.Store.{apply_job_update, upsert_job_snapshot, update_job_store}
use fetchly.Jobs.Lookup.{find_job-replace_job, found-contains, jobs-show_updated, prepend_job-jobs}
use fetchly.Jobs.Invariant.Updates.{
  update_job_store_hit, update_job_store_miss, id-normalized, get_job_id-merge_stored_job,
}
use fetchly.Events.Reconcile.{snapshot_id}

-- The job with an id is what it was, or has left the list.
abbrev pub IsKept : Ecma → String → List Object → List Object → Type 0
IsKept js k before after =
    (find_job js k after ≡ find_job js k before) ⊎ (find_job js k after ≡ none)

module _ (js : Ecma) where
  pub IsKept-trans :
      (k : String) (a b c : List Object) → IsKept js k a b → IsKept js k b c → IsKept js k a c
  IsKept-trans k a b c (inl p) (inl q) = inl (q ∙ p)
  IsKept-trans k a b c (inr p) (inl q) = inr (q ∙ p)
  IsKept-trans k a b c p (inr q) = inr q

  find_job-take : (k : String) (n : ℕ) (jobs : List Object) → IsKept js k jobs (take n jobs)
  unfolding find_job
  find_job-take k zero jobs = inr refl
  find_job-take k (suc n) [] = inl refl
  find_job-take k (suc n) (job ∷ jobs) = elim (Bool-cases (get_job_id js job == k)) [
    | inl e ↦ inl (rw e refl)
    | inr e ↦ rw e (find_job-take k n jobs)
  ]

  find_job-trim_jobs : (k : String) (s : State) → IsKept js k s.jobs (trim_jobs js s).jobs
  unfolding trim_jobs
  find_job-trim_jobs k s =
      let cap : ℕ = if s.preserve_history then hard_max_rows else max_rows in
      if_both (λ (t : State). IsKept js k s.jobs t.jobs) (leb (length s.jobs) cap) (inl refl)
        (find_job-take k cap s.jobs)

  find_job-remove_job :
      (k j : String) (jobs : List Object)
      → (j == k) ≡ false
      → find_job js k (remove_job js j jobs) ≡ find_job js k jobs
  unfolding find_job remove_job
  find_job-remove_job k j [] h = refl
  find_job-remove_job k j (job ∷ jobs) h = ground (
    arith,
    find_job-remove_job k j jobs h,
    eq_iff (get_job_id js job) j,
    eq_iff (get_job_id js job) k,
    eq_iff j k,
  )

  upsert-IsKept :
      (k : String) (job : Object) (s : State)
      → (get_job_id js job == k) ≡ false
      → IsKept js k s.jobs (upsert_job_snapshot js job s).0.jobs
  unfolding upsert_job_snapshot find_job
  upsert-IsKept k job s h = elim (Bool-cases (get_job_id js job == "")) [
    | inl e ↦ rw (upsert_job_snapshot, e) (inl refl)
    | inr e ↦
        let j = get_job_id js job in
        let first : State = record s {
          jobs = job ∷ remove_job js j s.jobs;
          job_ids = add j s.job_ids;
          done = false;
        } in
        let stored : find_job js k first.jobs ≡ find_job js k s.jobs =
          rw (find_job, h) (find_job-remove_job k j s.jobs h) in
        rw (upsert_job_snapshot, e, prepend_job-jobs js job s e)
          (IsKept-trans k s.jobs first.jobs _ (inl stored) (find_job-trim_jobs k first))
  ]

module _ (env : Env) where
  -- An update of another job.
  pub update_other :
      (k : String) (payload : Value) (s : State)
      → (string_of env.ecma (get "id" (properties payload)) == k) ≡ false
      → find_job env.ecma k (apply_job_update env payload s).0.jobs ≡ find_job env.ecma k s.jobs
  unfolding apply_job_update
  update_other k payload s other =
      let js = env.ecma in
      let p = properties payload in
      let j = string_of js (get "id" p) in
      let u = normalized js p in
      let id = id-normalized env p in
      elim (normalize_job_update_cases js payload) [
        | inl e ↦ rw (e, apply_job_update) refl
        | inr e ↦
            rw (e, apply_job_update, jobs-show_updated env (update_job_store env u s))
              (elim (Bool-cases (j == "")) [
                | inl empty ↦ rw (update_job_store_miss env u s j id (inl empty)) refl
                | inr named ↦ elim (Option-cases (find_job js j s.jobs)) [
                  | inl missing ↦ rw (update_job_store_miss env u s j id (inr missing)) refl
                  | inr (job, found) ↦
                      let m = merge_stored_job env job u in
                      rw (update_job_store_hit env u s j job id named found) (
                        rw
                          (
                            find_job-replace_job js j k m s.jobs
                                (get_job_id-merge_stored_job env job u j id)
                                (found-contains js j s.jobs job found),
                            other,
                          )
                          refl)
                ]
              ])
      ]

  named_id :
      (o : Object)
      → (get_job_id env.ecma o == "") ≡ false
      → get_job_id env.ecma o ≡ string_of env.ecma (get "id" o)
  unfolding get_job_id
  named_id o h = elim (Bool-cases (is_nullish (get "id" o))) [
    | inl e ↦ absurd (true≢false (rw (get_job_id, e) at h))
    | inr e ↦ rw (get_job_id, e) refl
  ]

  -- The id that `upsertJobSnapshot` reads, where it is not the one the epochs are looked up by.
  pub upsert_other :
      (k : String) (v : Value) (l : State)
      → (snapshot_id env v == k) ≡ false
      → IsKept env.ecma k l.jobs (upsert_job_snapshot env.ecma (properties v) l).0.jobs
  unfolding upsert_job_snapshot
  upsert_other k v l other = elim (Bool-cases (get_job_id env.ecma (properties v) == "")) [
    | inl empty ↦ rw (upsert_job_snapshot, empty) (inl refl)
    | inr named ↦
        upsert-IsKept env.ecma k (properties v) l (rw (named_id (properties v) named) other)
  ]
