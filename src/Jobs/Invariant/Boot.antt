-- ===== src/Jobs/Invariant/Boot.antt =====
-- app/static/js/jobs.js: `init` makes the store valid, and `applyJobUpdate` keeps it so.
use fetchly.Common.{
  String, ◌≡◌, refl, Bool, true, false, not, ◌&&◌, ◌||◌, Option, none, some, List, [], ◌∷◌, ◌==◌,
  length, contains, add, arith, filter, Distinct, ◌⊎◌, inl, inr, Bool-cases, eq_iff, contains-add,
  eq_self,
}
use fetchly.Ecma.{Ecma, Value, Object, get, properties, is_nullish, arr}
use fetchly.Config.{list_of}
use fetchly.Jobs.Update.{get_job_id}
use fetchly.Jobs.State.{State, ids, trim_jobs, render_active_jobs}
use fetchly.Jobs.Paging.{sync_view_mode, init, distinct_jobs, read_bootstrap_jobs, replace_jobs}
use fetchly.Jobs.Invariant.{IsConsistent, IsValid, trim_jobs-IsValid}
use fetchly.Jobs.Invariant.Steps.{SameStore-IsValid, render_active_jobs-SameStore}

module _ (js : Ecma) where
  -- A job is left out if its id is empty or was seen.
  abbrev is_skipped : List String → Object → Bool
  is_skipped seen job =
      is_nullish (get "id" job) || get_job_id js job == "" || contains (get_job_id js job) seen

  distinct_jobs-fresh :
      (seen : List String) (vs : List Value) (k : String)
      → contains k seen ≡ true
      → contains k (ids js (distinct_jobs js seen vs)) ≡ false
  unfolding distinct_jobs
  distinct_jobs-fresh seen [] k h = refl
  distinct_jobs-fresh seen (v ∷ vs) k h = elim (Bool-cases (is_skipped seen (properties v))) [
    | inl e ↦ rw e (distinct_jobs-fresh seen vs k h)
    | inr e ↦
        let j = get_job_id js (properties v) in
        rw e
          (ground (arith, distinct_jobs-fresh (add j seen) vs k, contains-add j k seen, eq_iff j k))
  ]

  distinct_jobs-named :
      (seen : List String) (vs : List Value)
      → contains "" (ids js (distinct_jobs js seen vs)) ≡ false
  unfolding distinct_jobs
  distinct_jobs-named seen [] = refl
  distinct_jobs-named seen (v ∷ vs) = elim (Bool-cases (is_skipped seen (properties v))) [
    | inl e ↦ rw e (distinct_jobs-named seen vs)
    | inr e ↦
        rw e (ground (arith, distinct_jobs-named (add (get_job_id js (properties v)) seen) vs))
  ]

  distinct_jobs-Distinct :
      (seen : List String) (vs : List Value) → Distinct (ids js (distinct_jobs js seen vs))
  unfolding distinct_jobs
  distinct_jobs-Distinct seen [] = tt
  distinct_jobs-Distinct seen (v ∷ vs) = elim (Bool-cases (is_skipped seen (properties v))) [
    | inl e ↦ rw e (distinct_jobs-Distinct seen vs)
    | inr e ↦
        let j = get_job_id js (properties v) in
        rw e (
          distinct_jobs-fresh (add j seen) vs j (ground (arith, contains-add j j seen, eq_self j)),
          distinct_jobs-Distinct (add j seen) vs,
        )
  ]

  read_bootstrap_jobs-named :
      (raw : Option Value) → contains "" (ids js (read_bootstrap_jobs js raw)) ≡ false
  unfolding read_bootstrap_jobs
  read_bootstrap_jobs-named (some (arr xs)) = distinct_jobs-named [] (list_of xs)
  read_bootstrap_jobs-named none = refl
  read_bootstrap_jobs-named (some v) = refl

  read_bootstrap_jobs-Distinct :
      (raw : Option Value) → Distinct (ids js (read_bootstrap_jobs js raw))
  unfolding read_bootstrap_jobs
  read_bootstrap_jobs-Distinct (some (arr xs)) = distinct_jobs-Distinct [] (list_of xs)
  read_bootstrap_jobs-Distinct none = tt
  read_bootstrap_jobs-Distinct (some v) = tt

  -- `.filter(Boolean)` drops nothing here.
  filter_named : (xs : List String) → contains "" xs ≡ false → filter (λ k. not (k == "")) xs ≡ xs
  filter_named [] h = refl
  filter_named (x ∷ xs) h = ground (arith, filter_named xs)

  replace_jobs-IsConsistent :
      (jobs : List Object) (s : State)
      → Distinct (ids js jobs)
      → contains "" (ids js jobs) ≡ false
      → IsConsistent js (replace_jobs js jobs s).jobs (replace_jobs js jobs s).job_ids
  unfolding replace_jobs
  replace_jobs-IsConsistent jobs s d n = record {
    distinct = d;
    named = n;
    known_distinct = rw (filter_named (ids js jobs) n) d;
    known_iff = λ k. rw (filter_named (ids js jobs) n);
  }

  -- Whatever the page's bootstrap data is, the store is valid after the first `init`.
  pub init-IsValid :
      (raw : Option Value) (matches : Bool) (s : State)
      → IsValid js s
        ⊎ (s.initialized ≡ false) × (s.desktop.mounted ≡ true) × (s.mobile.mounted ≡ true)
      → IsValid js (init js raw matches s)
  unfolding init sync_view_mode
  init-IsValid raw matches s h =
      let jobs = read_bootstrap_jobs js raw in
      let loaded = replace_jobs js jobs s in
      let counted = record loaded { next_offset = length loaded.jobs } in
      let trimmed = trim_jobs js counted in
      let fresh : IsValid js trimmed = trim_jobs-IsValid js counted (
        replace_jobs-IsConsistent jobs s (read_bootstrap_jobs-Distinct raw)
          (read_bootstrap_jobs-named raw)) in
      let shown : IsValid js (render_active_jobs js trimmed) =
        SameStore-IsValid js (render_active_jobs-SameStore js trimmed) fresh in
      elim (Bool-cases (s.initialized || not (s.desktop.mounted && s.mobile.mounted))) [
        | inl e ↦ elim h [ inl v ↦ rw e v | inr (a, b, c) ↦ absurd (ground arith) ]
        | inr e ↦ rw e (record { consistent = shown.consistent; bounded = shown.bounded })
      ]
