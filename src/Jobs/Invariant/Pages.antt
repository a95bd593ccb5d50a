-- ===== src/Jobs/Invariant/Pages.antt =====
-- app/static/js/jobs.js: `loadMore`, `init` and `applyJobUpdate` keep the store valid.
use fetchly.Common.{
  ℕ, ◌+◌, refl, Bool, true, List, [], ◌∷◌, if◌then◌else◌, length, arith, drop, inl, inr, Bool-cases,
  ltb,
}
use fetchly.Ecma.{Ecma, Object}
use fetchly.Config.{page_size}
use fetchly.Jobs.State.{State, trim_jobs}
use fetchly.Jobs.Store.{append_rendered_jobs}
use fetchly.Jobs.Paging.{
  Fetched, page, not_array, aborted, failed, load_more_begin, push_unknown, take_page,
  load_more_end,
}
use fetchly.Jobs.Invariant.{IsValid}
use fetchly.Jobs.Invariant.Steps.{
  SameStore, SameStore-IsValid, append_rendered_jobs-SameStore, push_unknown-IsConsistent,
  push_unknown_cases, started-IsValid, shown_page-IsValid,
}

module _ (js : Ecma) where
  page_done : (b : Bool) (s : State) → SameStore s (if b then record s { done = true } else s)
  page_done b s = ground arith

  shown_page :
      (s t : State)
      → SameStore (if ltb (length s.jobs) (length t.jobs) then trim_jobs js t else t) (
          if ltb (length s.jobs) (length t.jobs)
          then append_rendered_jobs js (drop (length s.jobs) (trim_jobs js t).jobs) (trim_jobs js t)
          else t)
  shown_page s t = elim (Bool-cases (ltb (length s.jobs) (length t.jobs))) [
    | inl e ↦ rw e (append_rendered_jobs-SameStore js _ (trim_jobs js t))
    | inr e ↦ rw e (record { jobs = refl; job_ids = refl; loading = refl })
  ]

  take_page-IsValid :
      (n : ℕ) (jobs : List Object) (s : State) → IsValid js s → IsValid js (take_page js n jobs s)
  unfolding take_page
  take_page-IsValid n jobs s v =
      let started = record s { preserve_history = true; next_offset = n + length jobs } in
      let pushed = push_unknown js jobs started in
      SameStore-IsValid js (page_done (ltb (length jobs) page_size) _) (
        shown_page-IsValid js started pushed (started-IsValid js (n + length jobs) s v)
          (push_unknown-IsConsistent js jobs started v.consistent)
          (push_unknown_cases js jobs started) _ (shown_page started pushed))

  pub load_more_end-IsValid :
      (n : ℕ) (f : Fetched) (s : State) → IsValid js s → IsValid js (load_more_end js n f s).0
  unfolding load_more_end
  load_more_end-IsValid n not_array s v = record { consistent = v.consistent; bounded = v.bounded }
  load_more_end-IsValid n aborted s v = record { consistent = v.consistent; bounded = v.bounded }
  load_more_end-IsValid n failed s v = record { consistent = v.consistent; bounded = v.bounded }
  load_more_end-IsValid n (page []) s v = record { consistent = v.consistent; bounded = v.bounded }
  load_more_end-IsValid n (page (job ∷ jobs)) s v =
      let w = take_page-IsValid n (job ∷ jobs) s v in
      record { consistent = w.consistent; bounded = w.bounded }

  pub load_more_begin-IsValid : (s : State) → IsValid js s → IsValid js (load_more_begin js s).0
  unfolding load_more_begin
  load_more_begin-IsValid s v = ground (arith, v)
