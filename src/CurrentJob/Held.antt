-- ===== src/CurrentJob/Held.antt =====
-- app/static/js/current-job.js: the job on the card and the lists.
use fetchly.Common.{
  Bool, false, none, map, ◌&&◌, ◌||◌, String, ◌≡◌, refl, ap, true, some, List, [], ◌∷◌, ◌==◌,
  eq_cases, contains, arith, inl, inr, Option-cases, subst, sym,
}
use fetchly.Ecma.{Ecma, Object}
use fetchly.Jobs.Update.{get_job_id}
use fetchly.Jobs.State.{
  State, ids, attached, get_list_jobs, sync_surface_visibility, set_detached_job_id,
  render_active_jobs,
}
use fetchly.Jobs.Surface.{Surface, has_row, build_row, render_jobs}
use fetchly.Jobs.Paging.{sync_view_mode}
use fetchly.CurrentJob.{Page, sync_detachment, set_current_job, change_layout, detached_for}

module _ (js : Ecma) where
  detached-set :
      (k : String) (s : State)
      → (k == "") ≡ false
      → (set_detached_job_id js k s).detached_job_id ≡ some k
  unfolding set_detached_job_id render_active_jobs
  detached-set k s named = elim (Option-cases s.detached_job_id) [
    | inl e ↦ ground arith
    | inr (d, e) ↦ elim (eq_cases d k) [
      | inl (same, p) ↦ ground (arith, ap (λ x. some x) p)
      | inr (other, _) ↦ ground arith
    ]
  ]

  attached_without :
      (k : String) (jobs : List Object) → contains k (ids js (attached js (some k) jobs)) ≡ false
  attached_without k [] = refl
  attached_without k (job ∷ jobs) = ground (arith, attached_without k jobs)

  -- No list shows the job that is detached.
  unlisted :
      (k : String) (s : State)
      → s.detached_job_id ≡ some k
      → contains k (ids js (get_list_jobs js s)) ≡ false
  unfolding get_list_jobs
  unlisted k s e = rw e (attached_without k s.jobs)

  sync_unlisted :
      (k : String) (p : Page)
      → p.card.current_id ≡ some k
      → (k == "") ≡ false
      → p.store.mobile_view ≡ true
      → contains k (ids js (get_list_jobs js (sync_detachment js p).store)) ≡ false
  unfolding sync_detachment
  sync_unlisted k p held named mobile =
      let same : detached_for js p.card.current_id p.store.mobile_view ≡ k =
        rw (held, mobile) refl in
      unlisted k (sync_detachment js p).store (rw same (detached-set k p.store named))

  -- A list that is on the page has a row of the job.
  abbrev pub shows_row : String → State → Bool
  shows_row k s =
      s.desktop.mounted && has_row js k s.desktop.children
      || s.mobile.mounted && has_row js k s.mobile.children

  abbrev pub shows_detached : State → Bool
  shows_detached s = elim s.detached_job_id [ none ↦ false | some d ↦ shows_row d s ]

  has_row-build :
      (k : String) (jobs : List Object)
      → has_row js k (map build_row jobs) ≡ contains k (ids js jobs)
  unfolding has_row
  has_row-build k [] = refl
  has_row-build k (job ∷ jobs) = ground (arith, has_row-build k jobs)

  -- A rendered list has no row of a job that it was not given.
  rendered_without :
      (k : String) (jobs : List Object) (s : Surface)
      → contains k (ids js jobs) ≡ false
      → ((render_jobs js jobs s).mounted && has_row js k (render_jobs js jobs s).children) ≡ false
  unfolding render_jobs has_row
  rendered_without k [] s absent = ground arith
  rendered_without k (job ∷ jobs) s absent = ground (arith, has_row-build k (job ∷ jobs))

  render-shows_row :
      (k : String) (s : State)
      → contains k (ids js (get_list_jobs js s)) ≡ false
      → shows_row k (render_active_jobs js s) ≡ false
  unfolding render_active_jobs sync_surface_visibility
  render-shows_row k s absent = ground (
    arith,
    rendered_without k (get_list_jobs js s) s.desktop absent,
    rendered_without k (get_list_jobs js s) s.mobile absent,
  )

  -- Every list is rendered again without a job that is detached, if it was not detached already.
  detached_without_row :
      (k : String) (s : State)
      → (k == "") ≡ false
      → shows_detached s ≡ false
      → shows_row k (set_detached_job_id js k s) ≡ false
  unfolding set_detached_job_id
  detached_without_row k s named clean =
      let next = record s { detached_job_id = some k } in
      let again = render-shows_row k next (unlisted k next refl) in
      elim (Option-cases s.detached_job_id) [
        | inl e ↦ rw (e, named) again
        | inr (d, e) ↦
            let was : shows_row d s ≡ false = rw e at clean in
            elim (eq_cases d k) [
              | inl (same, p) ↦ rw (e, same) (subst (λ x. shows_row x s ≡ false) p was)
              | inr (other, _) ↦ rw (e, other, named) again
            ]
      ]

  sync_without_row :
      (k : String) (p : Page)
      → p.card.current_id ≡ some k
      → (k == "") ≡ false
      → p.store.mobile_view ≡ true
      → shows_detached p.store ≡ false
      → shows_row k (sync_detachment js p).store ≡ false
  unfolding sync_detachment
  sync_without_row k p held named mobile clean =
      let same : detached_for js p.card.current_id p.store.mobile_view ≡ k =
        rw (held, mobile) refl in
      subst (λ x. shows_row k (set_detached_job_id js x p.store) ≡ false) (sym same)
        (detached_without_row k p.store named clean)

  -- A job with an id is put on the card of a page in its mobile layout that has the card, where no list on the page
  -- has a row of the job that was detached before, if one was. Then the card holds the job, it is not among the jobs
  -- to be listed, and neither list on the page has a row of it.
  pub current_job_unlisted :
      (job : Object) (p : Page)
      → p.card.present ≡ true
      → (get_job_id js job == "") ≡ false
      → p.store.mobile_view ≡ true
      → shows_detached p.store ≡ false
      → (let q = set_current_job js job p in
          (q.card.current_id ≡ some (get_job_id js job))
          × (q.card.node ≡ some job)
          × (contains (get_job_id js job) (ids js (get_list_jobs js q.store)) ≡ false)
          × (shows_row (get_job_id js job) q.store ≡ false))
  unfolding set_current_job sync_detachment
  current_job_unlisted job p present named mobile clean =
      let k = get_job_id js job in
      let held : Page = record p { card = record (p.card) { current_id = some k } } in
      rw (set_current_job, present, named)
        (
          refl,
          refl,
          sync_unlisted k held refl named mobile,
          sync_without_row k held refl named mobile clean,
        )

  -- When the layout changes to the mobile one, a job with an id that the card holds is not among the jobs
  -- that the lists show.
  pub layout_unlists_job :
      (k : String) (p : Page)
      → p.card.current_id ≡ some k
      → (k == "") ≡ false
      → contains k (ids js (get_list_jobs js (change_layout js true p).store)) ≡ false
  unfolding change_layout sync_view_mode sync_surface_visibility
  layout_unlists_job k p held named =
      sync_unlisted k (record p { store = sync_view_mode js true p.store }) held named refl
