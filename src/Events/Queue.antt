-- ===== src/Events/Queue.antt =====
-- app/static/js/events.js: the queue of live updates, one merged payload for each job, that one
-- animation frame applies. `Map`s are dictionaries in insertion order.
use fetchly.Common.{
  ℕ, ◌+◌, String, Bool, true, false, not, ◌&&◌, Option, none, some, List, [], ◌∷◌, ◌++◌,
  if◌then◌else◌, length, ltb, add, remove, Dict, lookup, insert, values,
}
use fetchly.Common.Int.{ℤ, pos, leb_ℤ}
use fetchly.Ecma.{
  Ecma, Number, finite, Value, obj, Object, end, get, has_own, spread, delete_key, truthy, set_has,
  string_of, number_of, properties,
}
use fetchly.Config.{Env}
use fetchly.Jobs.State.{State}
use fetchly.Jobs.Store.{apply_job_update, upsert_job_snapshot}

abbrev pub max_entries : ℕ
max_entries = 1000

pub record Queue : Type 0 where
  pub queued : Dict Object
  pub sequences : Dict ℤ
  pub frame : Bool
  pub epoch : ℕ
  pub live_epochs : Dict ℕ

-- `map.set(key, value)`, and the map emptied for that one entry if it grew past the limit.
unfoldable pub insert_bounded {ℓ} : {V : Type ℓ} → String → V → Dict V → Dict V
insert_bounded k v m =
    let grown = insert k v m in if ltb max_entries (length grown) then (k, v) ∷ [] else grown

-- `latestSequences.get(id) || 0`
unfoldable pub previous_sequence : String → Dict ℤ → ℤ
previous_sequence k m = elim (lookup k m) [ none ↦ pos 0 | some z ↦ z ]

-- `isNewerUpdate` for a payload whose `seq` is this number.
unfoldable pub is_newer_number : String → Number → Dict ℤ → Bool × Dict ℤ
is_newer_number k (finite z) m =
    if leb_ℤ z (previous_sequence k m) then (false, m) else (true, insert_bounded k z m)
is_newer_number k _ m = (true, m)

module _ (js : Ecma) where
  abbrev pub payload_id : Object → String
  payload_id p = string_of js (get "id" p)

  unfoldable pub is_newer_update : Object → Dict ℤ → Bool × Dict ℤ
  unfolding is_newer_number
  is_newer_update p m = is_newer_number (payload_id p) (number_of js (get "seq" p)) m

module _ (env : Env) where
  -- `previous || {}`
  abbrev pub or_empty : Option Object → Object
  or_empty none = end
  or_empty (some o) = o

  -- A status without a percentage, in a payload without one.
  unfoldable pub drops_queued_progress : Object → Bool
  drops_queued_progress p =
      has_own "status" p
      && not (set_has env.progress (get "status" p))
      && not (has_own "progress" p)

  unfoldable pub merge_queued_update : Option Object → Object → Object
  merge_queued_update previous p =
      let merged = spread (or_empty previous) p in
      if drops_queued_progress p then delete_key "progress" merged else merged

  -- `scheduleJobUpdate`; `frame` is set when a frame is asked for.
  unfoldable pub schedule_job_update : Object → Queue → Queue
  unfolding merge_queued_update
  schedule_job_update p q =
      let k = payload_id env.ecma p in
      let (newer, sequences) = is_newer_update env.ecma p q.sequences in
      if not (truthy (get "id" p))
      then q
      else if not newer
      then record q { sequences = sequences }
      else record {
        queued = insert k (merge_queued_update (lookup k q.queued) p) q.queued;
        sequences = sequences;
        frame = true;
        epoch = q.epoch + 1;
        live_epochs = insert_bounded k (q.epoch + 1) q.live_epochs;
      }

  unfoldable pub reset_event_sequence_state : Queue → Queue
  reset_event_sequence_state q = record q { sequences = []; queued = []; frame = false }

-- The job store beside the queue, what was dispatched as `fetchly:job-update`, and the ids of the jobs
-- that are being fetched.
pub record Live : Type 0 where
  pub queue : Queue
  pub store : State
  pub dispatched : List Object
  pub recovering : List String

module _ (env : Env) where
  unfoldable pub apply_update : Object → Live → Live × Bool
  apply_update p l =
      let (store, job) = apply_job_update env (obj p) l.store in
      if not (truthy (get "id" p)) then (l, false) else elim job [
        | none ↦ (record l { store = store }, false)
        | some j ↦ (record l { store = store; dispatched = l.dispatched ++ j ∷ [] }, true)
      ]

  -- `recoverUnknownJobUpdate` up to its `await`.
  unfoldable pub begin_recovery : Object → Live → Live
  begin_recovery p l =
      if not (truthy (get "id" p))
      then l
      else record l { recovering = add (payload_id env.ecma p) l.recovering }

  -- The rest of it, with what `fetchJob` gave, if it gave something.
  unfoldable pub end_recovery : String → Option Value → Live → Live
  end_recovery k none l = record l { recovering = remove k l.recovering }
  end_recovery k (some v) l =
      let (store, job) = upsert_job_snapshot env.ecma (properties v) l.store in
      elim job [
        | none ↦ record l { store = store; recovering = remove k l.recovering }
        | some j ↦ record l {
          store = store;
          dispatched = l.dispatched ++ j ∷ [];
          recovering = remove k l.recovering;
        }
      ]

  -- One payload of `flushQueuedJobUpdates`.
  unfoldable pub flush_one : Object → Live → Live
  unfolding apply_update begin_recovery
  flush_one p l =
      let (l', handled) = apply_update p l in if handled then l' else begin_recovery p l'

  unfoldable pub flush_all : List Object → Live → Live
  flush_all [] l = l
  flush_all (p ∷ ps) l = flush_all ps (flush_one p l)

  unfoldable pub flush_queued_job_updates : Live → Live
  unfolding flush_all flush_one
  flush_queued_job_updates l =
      flush_all (values l.queue.queued)
        (record l { queue = record (l.queue) { queued = []; frame = false } })
