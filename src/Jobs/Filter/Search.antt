-- ===== src/Jobs/Filter/Search.antt =====
-- app/static/js/jobs.js: what `applyStoredJobTitleFilter` shows and counts.
use fetchly.Common.{
  String, ◌≡◌, refl, Bool, true, false, not, ◌&&◌, List, [], ◌∷◌, ◌==◌, contains, arith, filter,
  Distinct, Bool-cases, ◌⊎◌, inl, inr, Option, none, some, length, eqb,
}
use fetchly.Ecma.{Ecma, Value, Object}
use fetchly.Jobs.Update.{get_job_id}
use fetchly.Jobs.State.{State, ids, find_job, attached, get_list_jobs}
use fetchly.Jobs.Invariant.{IsValid}
use fetchly.Jobs.Filter.{should_hide, normalized_text, apply_stored_job_title_filter, count_visible}
use fetchly.Jobs.Filter.Rows.{filter_rows, Shows}

module _ (js : Ecma) where
  contains-filter-ids :
      (p : Object → Bool) (k : String) (jobs : List Object)
      → contains k (ids js jobs) ≡ false
      → contains k (ids js (filter p jobs)) ≡ false
  contains-filter-ids p k [] h = refl
  contains-filter-ids p k (j ∷ jobs) h = ground (arith, contains-filter-ids p k jobs)

  Distinct-filter-ids :
      (p : Object → Bool) (jobs : List Object)
      → Distinct (ids js jobs)
      → Distinct (ids js (filter p jobs))
  Distinct-filter-ids p [] d = tt
  Distinct-filter-ids p (j ∷ jobs) d = elim (Bool-cases (p j)) [
    | inl e ↦
        rw e (contains-filter-ids p (get_job_id js j) jobs d.0, Distinct-filter-ids p jobs d.1)
    | inr e ↦ rw e (Distinct-filter-ids p jobs d.1)
  ]

  Distinct-attached :
      (o : Option String) (jobs : List Object)
      → Distinct (ids js jobs)
      → Distinct (ids js (attached js o jobs))
  Distinct-attached none jobs d = d
  Distinct-attached (some k) jobs d = Distinct-filter-ids (λ j. not (get_job_id js j == k)) jobs d

  -- The test that a search makes of a job.
  abbrev pub hides_of : Value → Value → Object → Bool
  hides_of query status_filter =
      should_hide js (normalized_text js query "") (normalized_text js status_filter "all")

  tracked-ne-zero :
      (k : String) (xs : List String) → contains k xs ≡ true → eqb (length xs) 0 ≡ false
  tracked-ne-zero k [] h = ground arith
  tracked-ne-zero k (x ∷ xs) h = ground arith

  untracked : (k : String) (xs : List String) → eqb (length xs) 0 ≡ true → contains k xs ≡ false
  untracked k [] h = refl
  untracked k (x ∷ xs) h = ground arith

  -- After a search in a valid store, on both surfaces the row of a listed job, if there is one and it is
  -- tracked, is hidden exactly when the job does not match the search; any other is as it was.
  pub filter_hides :
      (query status_filter : Value) (s : State) (k : String) (job : Object)
      → IsValid js s
      → find_job js k (get_list_jobs js s) ≡ some job
      → Shows js
          (hides_of query status_filter)
          k
          job
          s.desktop
          (apply_stored_job_title_filter js query status_filter s).0.desktop
        × Shows js
            (hides_of query status_filter)
            k
            job
            s.mobile
            (apply_stored_job_title_filter js query status_filter s).0.mobile
  unfolding apply_stored_job_title_filter
  filter_hides query status_filter s k job v f =
      let hides = hides_of query status_filter in
      let jobs = get_list_jobs js s in
      let d = Distinct-attached s.detached_job_id s.jobs v.consistent.distinct in
      elim (Bool-cases (eqb (length s.desktop.nodes) 0 && eqb (length s.mobile.nodes) 0)) [
        | inl e ↦ rw e (
          ground (arith, untracked k s.desktop.nodes),
          ground (arith, untracked k s.mobile.nodes),
        )
        | inr e ↦ rw e (
          filter_rows js hides k jobs s.desktop job d f,
          filter_rows js hides k jobs s.mobile job d f,
        )
      ]

  visible_lem :
      (hides : Object → Bool) (jobs : List Object)
      → count_visible js hides jobs ≡ length (filter (λ j. not (hides j)) jobs)
  unfolding count_visible
  visible_lem hides [] = refl
  visible_lem hides (j ∷ jobs) = ground (arith, visible_lem hides jobs)

  -- Where a surface tracks a row, a search counts the listed jobs and those of them that match it.
  pub filter_counts :
      (query status_filter : Value) (s : State) (k : String)
      → (contains k s.desktop.nodes ≡ true) ⊎ (contains k s.mobile.nodes ≡ true)
      → ((apply_stored_job_title_filter js query status_filter s).1.total_count
          ≡ length (get_list_jobs js s))
        × ((apply_stored_job_title_filter js query status_filter s).1.visible_count
            ≡ length (filter (λ j. not (hides_of query status_filter j)) (get_list_jobs js s)))
  unfolding apply_stored_job_title_filter
  filter_counts query status_filter s k h =
      let hides = hides_of query status_filter in
      let jobs = get_list_jobs js s in
      ground (
        arith,
        tracked-ne-zero k s.desktop.nodes,
        tracked-ne-zero k s.mobile.nodes,
        visible_lem hides jobs,
      )
