-- ===== src/Events/Reconcile/Snapshot.antt =====
-- app/static/js/events.js: what a list from the server does to a job of a later epoch.
use fetchly.Common.{
  ℕ, String, ◌≡◌, refl, ap, sym, true, false, Option, none, some, List, [], ◌∷◌, ltb, ◌==◌, inl,
  inr, arith, ◌∙◌, Bool-cases, eq_cases,
}
use mathlib.Core.Bool.{false≢true}
use fetchly.Ecma.{
  Value, arr, Items, nil, cons, Object, properties, null, undefined, bool, num, text, obj,
}
use fetchly.Config.{Env}
use fetchly.Jobs.Store.{apply_job_update, upsert_job_snapshot}
use fetchly.Events.Queue.{Queue, Live}
use fetchly.Events.Reconcile.{
  live_epoch, Round, reconcile_one, reconcile_jobs, insert_one, insert_unknown, reconcile_once,
  snapshot_id, patched,
}
use fetchly.Events.Reconcile.Kept.{IsKept, IsKept-trans, update_other, upsert_other}

module _ (env : Env) where
  -- A snapshot's job whose id is another than this one, which a live update touched.
  abbrev AllOther : String → List Value → Type 0
  AllOther k [] = Unit
  AllOther k (v ∷ vs) = ((snapshot_id env v == k) ≡ false) × AllOther k vs

  record IsRound (k : String) (l : Live) (r : Round) : Type 0 where
    queue : r.live.queue ≡ l.queue
    kept : IsKept env.ecma k l.store.jobs r.live.store.jobs
    others : AllOther k r.unknown

  -- A job that is not skipped is another one.
  unskipped :
      (k : String) (start : ℕ) (v : Value) (q : Queue)
      → ltb start (live_epoch k q) ≡ true
      → ltb start (live_epoch (snapshot_id env v) q) ≡ false
      → (snapshot_id env v == k) ≡ false
  unskipped k start v q touched old = elim (eq_cases (snapshot_id env v) k) [
    | inl (_, e) ↦
        absurd (false≢true (sym old ∙ (ap (λ i. ltb start (live_epoch i q)) e ∙ touched)))
    | inr (e, _) ↦ e
  ]

  patched-IsRound :
      (k : String) (v : Value) (l : Live) (r : Round) (job : Option Object)
      → (snapshot_id env v == k) ≡ false
      → IsRound k l r
      → IsRound k l (patched env v r job)
  patched-IsRound k v l r none other ok = record {
    queue = ok.queue;
    kept = ok.kept;
    others = (other, ok.others);
  }
  patched-IsRound k v l r (some job) other ok = record {
    queue = ok.queue;
    kept = ok.kept;
    others = ok.others;
  }

  reconcile_one-IsRound :
      (k : String) (start : ℕ) (v : Value) (l : Live) (r : Round)
      → ltb start (live_epoch k l.queue) ≡ true
      → IsRound k l r
      → IsRound k l (reconcile_one env start v r)
  unfolding reconcile_one
  reconcile_one-IsRound k start v l r touched ok =
      elim (Bool-cases (ltb start (live_epoch (snapshot_id env v) r.live.queue))) [
        | inl skip ↦
            rw (reconcile_one, skip)
              (record { queue = ok.queue; kept = ok.kept; others = ok.others })
        | inr old ↦
            let other = unskipped k start v r.live.queue (rw ok.queue touched) old in
            let (store, job) = apply_job_update env v r.live.store in
            rw (reconcile_one, old)
              (patched-IsRound k v l (record r { live = record (r.live) { store = store } }) job
                other
                (record {
                  queue = ok.queue;
                  kept =
                      IsKept-trans env.ecma k l.store.jobs r.live.store.jobs store.jobs ok.kept
                        (inl (update_other env k v r.live.store other));
                  others = ok.others;
                }))
      ]

  reconcile_jobs-IsRound :
      (k : String) (start : ℕ) (vs : Items) (l : Live) (r : Round)
      → ltb start (live_epoch k l.queue) ≡ true
      → IsRound k l r
      → IsRound k l (reconcile_jobs env start vs r)
  unfolding reconcile_jobs
  reconcile_jobs-IsRound k start nil l r touched ok = ok
  reconcile_jobs-IsRound k start (cons v vs) l r touched ok =
      reconcile_jobs-IsRound k start vs l (reconcile_one env start v r) touched
        (reconcile_one-IsRound k start v l r touched ok)

  store-insert_one :
      (v : Value) (l : Live)
      → (insert_one env v l).store ≡ (upsert_job_snapshot env.ecma (properties v) l.store).0
  unfolding insert_one
  store-insert_one v l = ground arith

  insert_unknown-IsKept :
      (k : String) (vs : List Value) (l : Live)
      → AllOther k vs
      → IsKept env.ecma k l.store.jobs (insert_unknown env vs l).store.jobs
  unfolding insert_unknown
  insert_unknown-IsKept k [] l others = inl refl
  insert_unknown-IsKept k (v ∷ vs) l (other, others) =
      let next = insert_one env v l in
      let first : IsKept env.ecma k l.store.jobs next.store.jobs =
        rw (store-insert_one v l) (upsert_other env k v l.store other) in
      IsKept-trans env.ecma k l.store.jobs next.store.jobs _ first
        (insert_unknown-IsKept k vs next others)

  -- A list from the server does not overwrite a job whose epoch is later than that of the request:
  -- afterwards a lookup of that job finds what it found before, or the job has left the store.
  pub snapshot_keeps_touched :
      (start : ℕ) (snapshot : Value) (l : Live) (k : String)
      → ltb start (live_epoch k l.queue) ≡ true
      → IsKept env.ecma k l.store.jobs (reconcile_once env start snapshot l).0.store.jobs
  unfolding reconcile_once
  snapshot_keeps_touched start (arr jobs) l k touched =
      let r = reconcile_jobs env start jobs (record { live = l; skipped = false; unknown = [] }) in
      let ok : IsRound k l r =
        reconcile_jobs-IsRound k start jobs l (record { live = l; skipped = false; unknown = [] })
          touched (record { queue = refl; kept = inl refl; others = record {} }) in
      IsKept-trans env.ecma k l.store.jobs r.live.store.jobs _ ok.kept
        (insert_unknown-IsKept k r.unknown r.live ok.others)
  snapshot_keeps_touched start null l k touched = inl refl
  snapshot_keeps_touched start undefined l k touched = inl refl
  snapshot_keeps_touched start (bool _) l k touched = inl refl
  snapshot_keeps_touched start (num _) l k touched = inl refl
  snapshot_keeps_touched start (text _) l k touched = inl refl
  snapshot_keeps_touched start (obj _) l k touched = inl refl
