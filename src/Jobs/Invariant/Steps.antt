-- ===== src/Jobs/Invariant/Steps.antt =====
-- app/static/js/jobs.js: what each operation does to the list of jobs and the set of ids.
use fetchly.Common.{
  ℕ, ◌≤◌, ◌+◌, String, ◌≡◌, refl, subst, sym, Bool, true, false, not, ◌&&◌, ◌||◌, List, [], ◌∷◌,
  ◌==◌, if◌then◌else◌, length, contains, arith, ◌⊎◌, inl, inr, Bool-cases, ltb, ◌<◌, length-append,
  lt→ltb,
}
use fetchly.Ecma.{Ecma, Object}
use fetchly.Config.{max_rows}
use fetchly.Jobs.Update.{get_job_id}
use fetchly.Jobs.State.{State, ids, trim_jobs, render_active_jobs, set_detached_job_id}
use fetchly.Jobs.Store.{
  prepend_rendered_job, append_rendered_jobs, store_first, prepend_job, upsert_job_snapshot,
  render_stored_job,
}
use fetchly.Jobs.Paging.{push_one, push_unknown}
use fetchly.Jobs.Invariant.{
  IsConsistent, IsValid, trim_jobs-IsValid, prepend-IsConsistent, append-IsConsistent,
}

-- Two states with one list of jobs, one set of ids and one mark of a request under way.
pub record SameStore (s t : State) : Type 0 where
  pub jobs : t.jobs ≡ s.jobs
  pub job_ids : t.job_ids ≡ s.job_ids
  pub loading : t.loading ≡ s.loading

module _ (js : Ecma) where
  pub SameStore-IsValid : {s t : State} → SameStore s t → IsValid js s → IsValid js t
  SameStore-IsValid m v = record {
    consistent = rw (m.jobs, m.job_ids) v.consistent;
    bounded = rw m.jobs v.bounded;
  }

  pub render_active_jobs-SameStore : (s : State) → SameStore s (render_active_jobs js s)
  unfolding render_active_jobs
  render_active_jobs-SameStore s = record { jobs = refl; job_ids = refl; loading = refl }

  pub prepend_rendered_job-SameStore :
      (job : Object) (s : State) → SameStore s (prepend_rendered_job js job s)
  unfolding prepend_rendered_job render_active_jobs
  prepend_rendered_job-SameStore job s = ground arith

  pub append_rendered_jobs-SameStore :
      (jobs : List Object) (s : State) → SameStore s (append_rendered_jobs js jobs s)
  unfolding append_rendered_jobs render_active_jobs
  append_rendered_jobs-SameStore jobs s = ground arith

  pub render_stored_job-SameStore :
      (k : String) (s : State) → SameStore s (render_stored_job js k s)
  unfolding render_stored_job render_active_jobs
  render_stored_job-SameStore k s = ground arith

  pub set_detached_job_id-SameStore :
      (k : String) (s : State) → SameStore s (set_detached_job_id js k s)
  unfolding set_detached_job_id render_active_jobs
  set_detached_job_id-SameStore k s = ground arith

  pub store_first-IsValid :
      (job : Object) (s : State)
      → (get_job_id js job == "") ≡ false
      → IsValid js s
      → IsValid js (store_first js job s)
  unfolding store_first
  store_first-IsValid job s h v =
      trim_jobs-IsValid js _ (prepend-IsConsistent js job s.jobs s.job_ids h v.consistent)

  pub offset_only :
      (b : Bool) (n : ℕ) (s : State) → SameStore s (if b then record s { next_offset = n } else s)
  offset_only b n s = ground arith

  pub prepend_job-IsValid :
      (job : Object) (s : State) → IsValid js s → IsValid js (prepend_job js job s)
  unfolding prepend_job
  prepend_job-IsValid job s v = elim (Bool-cases (get_job_id js job == "")) [
    | inl e ↦ rw e v
    | inr e ↦
        let t = prepend_rendered_job js job (store_first js job s) in
        rw e (
          SameStore-IsValid
            (offset_only
              (not (contains (get_job_id js job) (ids js s.jobs))
                && (t.preserve_history || ltb (length s.jobs) max_rows))
              (t.next_offset + 1) t)
            (SameStore-IsValid (prepend_rendered_job-SameStore job (store_first js job s))
              (store_first-IsValid job s e v)))
  ]

  pub upsert_job_snapshot-IsValid :
      (job : Object) (s : State) → IsValid js s → IsValid js (upsert_job_snapshot js job s).0
  unfolding upsert_job_snapshot
  upsert_job_snapshot-IsValid job s v = ground (arith, prepend_job-IsValid job s)

  pub push_one-IsConsistent :
      (job : Object) (s : State)
      → IsConsistent js s.jobs s.job_ids
      → IsConsistent js (push_one js job s).jobs (push_one js job s).job_ids
  unfolding push_one
  push_one-IsConsistent job s c = elim (Bool-cases (get_job_id js job == "")) [
    | inl e ↦ rw e c
    | inr e ↦ elim (Bool-cases (contains (get_job_id js job) s.job_ids)) [
      | inl k ↦ rw (e, k) c
      | inr k ↦ rw (e, k) (rw k at (append-IsConsistent js job s.jobs s.job_ids e k c))
    ]
  ]

  -- The loop over a page, before the list is cut.
  pub push_unknown-IsConsistent :
      (jobs : List Object) (s : State)
      → IsConsistent js s.jobs s.job_ids
      → IsConsistent js (push_unknown js jobs s).jobs (push_unknown js jobs s).job_ids
  unfolding push_unknown
  push_unknown-IsConsistent [] s c = c
  push_unknown-IsConsistent (job ∷ rest) s c =
      push_unknown-IsConsistent rest (push_one js job s) (push_one-IsConsistent job s c)

  -- A page in which nothing is new leaves the list as it was.
  pub length-push_one-le :
      (job : Object) (s : State) → length s.jobs ≤ length (push_one js job s).jobs
  unfolding push_one
  length-push_one-le job s = ground (arith, length-append s.jobs (job ∷ []))

  pub push_one_cases :
      (job : Object) (s : State)
      → (length s.jobs < length (push_one js job s).jobs) ⊎ ((push_one js job s) ≡ s)
  unfolding push_one
  push_one_cases job s = ground (arith, length-append s.jobs (job ∷ []))

  pub length-push_unknown-le :
      (jobs : List Object) (s : State) → length s.jobs ≤ length (push_unknown js jobs s).jobs
  unfolding push_unknown
  length-push_unknown-le [] s = omega arith
  length-push_unknown-le (job ∷ rest) s =
      omega (arith, length-push_one-le job s, length-push_unknown-le rest (push_one js job s))

  pub push_unknown_cases :
      (jobs : List Object) (s : State)
      → (length s.jobs < length (push_unknown js jobs s).jobs) ⊎ (push_unknown js jobs s ≡ s)
  unfolding push_unknown
  push_unknown_cases [] s = inr refl
  push_unknown_cases (job ∷ rest) s = elim (push_one_cases job s) [
    | inl h ↦ inl (omega (arith, length-push_unknown-le rest (push_one js job s)))
    | inr e ↦
        subst
          (λ t.
            (length s.jobs < length (push_unknown js rest t).jobs) ⊎ (push_unknown js rest t ≡ s))
          (sym e) (push_unknown_cases rest s)
  ]

  pub started-IsValid :
      (n : ℕ) (s : State)
      → IsValid js s
      → IsValid js (record s { preserve_history = true; next_offset = n })
  started-IsValid n s v = record { consistent = v.consistent; bounded = v.bounded }

  -- The list after a page, cut if something was added to it.
  pub shown_page-IsValid :
      (s t : State)
      → IsValid js s
      → IsConsistent js t.jobs t.job_ids
      → (length s.jobs < length t.jobs) ⊎ (t ≡ s)
      → (shown : State)
      → SameStore (if ltb (length s.jobs) (length t.jobs) then trim_jobs js t else t) shown
      → IsValid js shown
  shown_page-IsValid s t v c (inl grown) shown m =
      SameStore-IsValid
        (subst (λ b. SameStore (if b then trim_jobs js t else t) shown) (lt→ltb _ _ grown) m)
        (trim_jobs-IsValid js t c)
  shown_page-IsValid s t v c (inr same) shown m =
      elim (Bool-cases (ltb (length s.jobs) (length t.jobs))) [
        | inl e ↦
            SameStore-IsValid (subst (λ b. SameStore (if b then trim_jobs js t else t) shown) e m)
              (trim_jobs-IsValid js t c)
        | inr e ↦
            SameStore-IsValid (subst (λ b. SameStore (if b then trim_jobs js t else t) shown) e m)
              (subst (IsValid js) (sym same) v)
      ]
