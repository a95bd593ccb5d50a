-- ===== src/Events/Reconcile.antt =====
-- app/static/js/events.js: reconcileVisibleJobs and reconcileOnce. A request is what separates two
-- functions; what it gives is an argument of the second one, and `none` is an error.
pub mod Kept
pub mod Snapshot
pub mod Touched
pub mod Passes
use fetchly.Common.{
  ℕ, ◌+◌, String, Bool, true, false, not, ◌&&◌, ◌||◌, Option, none, some, List, [], ◌∷◌, ◌++◌,
  if◌then◌else◌, ltb, leb, lookup,
}
use fetchly.Ecma.{Value, arr, Items, nil, cons, Object, get, string_of, properties}
use fetchly.Config.{Env}
use fetchly.Jobs.Store.{apply_job_update, upsert_job_snapshot}
use fetchly.Events.Queue.{Queue, Live}

abbrev pub max_reconcile_passes : ℕ
max_reconcile_passes = 3

-- `liveUpdateEpochs.get(id) ?? 0`
unfoldable pub live_epoch : String → Queue → ℕ
live_epoch k q = elim (lookup k q.live_epochs) [ none ↦ 0 | some n ↦ n ]

-- `unknown` has the job pushed last first: the order in which the second loop takes them.
pub record Round : Type 0 where
  pub live : Live
  pub skipped : Bool
  pub unknown : List Value

abbrev pub dispatch : Object → Live → Live
dispatch job l = record l { dispatched = l.dispatched ++ job ∷ [] }

module _ (env : Env) where
  -- `String(job?.id)`
  abbrev pub snapshot_id : Value → String
  snapshot_id v = string_of env.ecma (get "id" (properties v))

  abbrev pub patched : Value → Round → Option Object → Round
  patched v r none = record r { unknown = v ∷ r.unknown }
  patched v r (some job) = record r { live = dispatch job r.live }

  -- One round of the first loop.
  unfoldable pub reconcile_one : ℕ → Value → Round → Round
  reconcile_one start v r =
      let (store, job) = apply_job_update env v r.live.store in
      if ltb start (live_epoch (snapshot_id v) r.live.queue)
      then record r { skipped = true }
      else patched v (record r { live = record (r.live) { store = store } }) job

  unfoldable pub reconcile_jobs : ℕ → Items → Round → Round
  reconcile_jobs start nil r = r
  reconcile_jobs start (cons v vs) r = reconcile_jobs start vs (reconcile_one start v r)

  -- One round of the second loop.
  unfoldable pub insert_one : Value → Live → Live
  insert_one v l =
      let (store, job) = upsert_job_snapshot env.ecma (properties v) l.store in
      elim job [
        | none ↦ record l { store = store }
        | some j ↦ dispatch j (record l { store = store })
      ]

  unfoldable pub insert_unknown : List Value → Live → Live
  insert_unknown [] l = l
  insert_unknown (v ∷ vs) l = insert_unknown vs (insert_one v l)

  -- `reconcileOnce` after its request, with the epoch from before it.
  unfoldable pub reconcile_once : ℕ → Value → Live → Live × Bool
  reconcile_once start (arr jobs) l =
      let r = reconcile_jobs start jobs (record { live = l; skipped = false; unknown = [] }) in
      (insert_unknown r.unknown r.live, r.skipped)
  reconcile_once start _ l = (l, false)

-- The variables of `reconcileVisibleJobs`: the two of the module, and the pass and the epoch from before
-- the request.
pub record Reconciliation : Type 0 where
  pub in_flight : Bool
  pub pending : Bool
  pub pass : ℕ
  pub start_epoch : ℕ

abbrev pub finished : Reconciliation → Reconciliation
finished c = record c { in_flight = false; pending = false }

-- A call up to its first request, or the note for the one that runs.
unfoldable pub reconcile_visible_jobs : Live → Reconciliation → Reconciliation
reconcile_visible_jobs l c =
    if c.in_flight
    then record c { pending = true }
    else record { in_flight = true; pending = false; pass = 0; start_epoch = l.queue.epoch }

-- After a snapshot was applied: the next pass, or the end.
unfoldable pub next_pass : Live → Bool → Reconciliation → Reconciliation
next_pass l skipped c =
    if not skipped && not c.pending || leb max_reconcile_passes (c.pass + 1)
    then finished c
    else record c { pass = c.pass + 1; pending = false; start_epoch = l.queue.epoch }

-- What follows a request.
unfoldable pub end_pass : Env → Option Value → Live → Reconciliation → Live × Reconciliation
end_pass env none l c = (l, finished c)
end_pass env (some v) l c =
    let (after, skipped) = reconcile_once env c.start_epoch v l in
    (after, next_pass after skipped c)
