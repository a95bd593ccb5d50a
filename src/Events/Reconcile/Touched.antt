-- ===== src/Events/Reconcile/Touched.antt =====
-- app/static/js/events.js: a live update that comes while a list from the server is on its way.
use fetchly.Common.{
  ℕ, ◌+◌, ◌≤◌, ◌≡◌, refl, ap, String, true, false, not, ◌==◌, Option, none, some, List, [], ◌∷◌,
  if◌then◌else◌, length, ltb, Dict, lookup, insert, values, arith, if_both, lookup-insert,
  length-insert-le, lt→ltb, ◌∙◌,
}
use fetchly.Ecma.{Value, Object, get, truthy}
use fetchly.Config.{Env}
use fetchly.Events.Queue.{
  Queue, Live, max_entries, insert_bounded, payload_id, is_newer_update, schedule_job_update,
  merge_queued_update, reset_event_sequence_state, apply_update, begin_recovery, end_recovery,
  flush_one, flush_all, flush_queued_job_updates,
}
use fetchly.Events.Sequence.{insert_small, lookup-insert_bounded}
use fetchly.Events.Reconcile.{live_epoch, reconcile_once}
use fetchly.Events.Reconcile.Kept.{IsKept}
use fetchly.Events.Reconcile.Snapshot.{snapshot_keeps_touched}

-- What the stream, the frames and the answers of single jobs do to the queue and the store.
pub data LiveStep : Type 0 where
  schedules : Object → LiveStep
  flushes resets : LiveStep
  recovers : String → Option Value → LiveStep

live_epoch-insert_bounded :
    (k j : String) (n : ℕ) (q : Queue)
    → length q.live_epochs + 1 ≤ max_entries
    → live_epoch k (record q { live_epochs = insert_bounded j n q.live_epochs })
      ≡ (if j == k then n else live_epoch k q)
unfolding live_epoch
live_epoch-insert_bounded k j n q h =
    rw (insert_small j n q.live_epochs h) (ground (arith, lookup-insert j k n q.live_epochs))

-- The epochs only grow, by one entry at most, and a job that was touched after `start` stays so.
record IsLater (start : ℕ) (q r : Queue) : Type 0 where
  epoch : q.epoch ≤ r.epoch
  entries : length r.live_epochs ≤ length q.live_epochs + 1
  touched :
      (k : String)
      → start ≤ q.epoch
      → length q.live_epochs + 1 ≤ max_entries
      → ltb start (live_epoch k q) ≡ true
      → ltb start (live_epoch k r) ≡ true

same-IsLater :
    (start : ℕ) (q r : Queue)
    → r.epoch ≡ q.epoch
    → r.live_epochs ≡ q.live_epochs
    → IsLater start q r
unfolding live_epoch
same-IsLater start q r e m = record {
  epoch = omega (arith, e);
  entries = rw m (omega arith);
  touched = λ k s room h. rw m h;
}

length-insert_bounded :
    (j : String) (n : ℕ) (m : Dict ℕ) → length (insert_bounded j n m) ≤ length m + 1
unfolding insert_bounded
length-insert_bounded j n m =
    if_both (λ d. length d ≤ length m + 1) (ltb max_entries (length (insert j n m)))
      {s = (j, n) ∷ []} (omega arith) (length-insert-le j n m)

-- A job that is touched now gets the next epoch.
taken-IsLater :
    (start : ℕ) (j : String) (r q : Queue)
    → r.epoch ≡ q.epoch + 1
    → r.live_epochs ≡ insert_bounded j (q.epoch + 1) q.live_epochs
    → IsLater start q r
unfolding live_epoch
taken-IsLater start j r q e m = record {
  epoch = omega (arith, e);
  entries = rw m (length-insert_bounded j (q.epoch + 1) q.live_epochs);
  touched = λ k s room h. rw m (
      rw (live_epoch-insert_bounded k j (q.epoch + 1) q room) (
        if_both (λ n. ltb start n ≡ true) (j == k) (lt→ltb start (q.epoch + 1) (omega (arith, s)))
          h));
}

module _ (env : Env) where
  unfoldable pub live_step : LiveStep → Live → Live
  live_step (schedules p) l = record l { queue = schedule_job_update env p l.queue }
  live_step flushes l = flush_queued_job_updates env l
  live_step (recovers k v) l = end_recovery env k v l
  live_step resets l = record l { queue = reset_event_sequence_state env l.queue }

  unfoldable pub live_run : List LiveStep → Live → Live
  live_run [] l = l
  live_run (e ∷ es) l = live_run es (live_step e l)

  queue-flush_one : (p : Object) (l : Live) → (flush_one env p l).queue ≡ l.queue
  unfolding flush_one apply_update begin_recovery
  queue-flush_one p l = ground arith

  queue-end_recovery :
      (k : String) (v : Option Value) (l : Live) → (end_recovery env k v l).queue ≡ l.queue
  unfolding end_recovery
  queue-end_recovery k none l = refl
  queue-end_recovery k (some v) l = ground arith

  queue-flush_all : (ps : List Object) (l : Live) → (flush_all env ps l).queue ≡ l.queue
  unfolding flush_all
  queue-flush_all [] l = refl
  queue-flush_all (p ∷ ps) l = queue-flush_all ps (flush_one env p l) ∙ queue-flush_one p l

  schedule-IsLater :
      (start : ℕ) (p : Object) (q : Queue) → IsLater start q (schedule_job_update env p q)
  unfolding schedule_job_update
  schedule-IsLater start p q =
      let k = payload_id env.ecma p in
      let sequences = (is_newer_update env.ecma p q.sequences).1 in
      let epochs = insert_bounded k (q.epoch + 1) q.live_epochs in
      let taken : Queue = record {
        queued = insert k (merge_queued_update env (lookup k q.queued) p) q.queued;
        sequences = sequences;
        frame = true;
        epoch = q.epoch + 1;
        live_epochs = epochs;
      } in
      if_both (IsLater start q) (not (truthy (get "id" p))) (same-IsLater start q q refl refl) (
        if_both (IsLater start q) (not (is_newer_update env.ecma p q.sequences).0)
          (same-IsLater start q (record q { sequences = sequences }) refl refl)
          (taken-IsLater start k taken q refl refl))

  step-IsLater : (start : ℕ) (e : LiveStep) (l : Live) → IsLater start l.queue (live_step e l).queue
  unfolding live_step flush_queued_job_updates reset_event_sequence_state
  step-IsLater start (schedules p) l = schedule-IsLater start p l.queue
  step-IsLater start flushes l =
      let emptied = record l { queue = record (l.queue) { queued = []; frame = false } } in
      let same = queue-flush_all (values l.queue.queued) emptied in
      same-IsLater start l.queue _ (ap (λ (q : Queue). q.epoch) same)
        (ap (λ (q : Queue). q.live_epochs) same)
  step-IsLater start (recovers k v) l =
      let same = queue-end_recovery k v l in
      same-IsLater start l.queue _ (ap (λ (q : Queue). q.epoch) same)
        (ap (λ (q : Queue). q.live_epochs) same)
  step-IsLater start resets l = same-IsLater start l.queue _ refl refl

  run-length :
      (es : List LiveStep) (l : Live)
      → length (live_run es l).queue.live_epochs ≤ length l.queue.live_epochs + length es
  unfolding live_run
  run-length [] l = omega arith
  run-length (e ∷ es) l = omega (arith, run-length es (live_step e l), (step-IsLater 0 e l).entries)

  run-epoch : (es : List LiveStep) (l : Live) → l.queue.epoch ≤ (live_run es l).queue.epoch
  unfolding live_run
  run-epoch [] l = omega arith
  run-epoch (e ∷ es) l = omega (arith, run-epoch es (live_step e l), (step-IsLater 0 e l).epoch)

  run-touched :
      (start : ℕ) (k : String) (es : List LiveStep) (l : Live)
      → start ≤ l.queue.epoch
      → length l.queue.live_epochs + length es ≤ max_entries
      → ltb start (live_epoch k l.queue) ≡ true
      → ltb start (live_epoch k (live_run es l).queue) ≡ true
  unfolding live_run
  run-touched start k [] l s room h = h
  run-touched start k (e ∷ es) l s room h =
      let later = step-IsLater start e l in
      run-touched start k es (live_step e l) (omega (arith, s, later.epoch))
        (omega (arith, room, later.entries)) (later.touched k s (omega (arith, room)) h)

  -- An update that is let through is an epoch of its job.
  schedule-touches :
      (start : ℕ) (p : Object) (l : Live)
      → start ≤ l.queue.epoch
      → truthy (get "id" p) ≡ true
      → (is_newer_update env.ecma p l.queue.sequences).0 ≡ true
      → ltb start (live_epoch (payload_id env.ecma p) (live_step (schedules p) l).queue) ≡ true
  unfolding live_step schedule_job_update live_epoch
  schedule-touches start p l s named newer =
      let k = payload_id env.ecma p in
      rw (named, newer)
        (rw (live_epoch, lookup-insert_bounded k (l.queue.epoch + 1) l.queue.live_epochs)
          (lt→ltb start (l.queue.epoch + 1) (omega (arith, s))))

  -- A list of jobs is asked for, an update with the id of a job is let through while the request is under way,
  -- and other updates, frames, answers for single jobs and resets come before and after it. The list that then
  -- comes, whatever it holds, does not overwrite the job: a lookup of it finds what it found before, or the job
  -- has left the store. The condition is that the entries of the map of epochs and the steps since the request
  -- are at most 1000 together.
  pub update_survives_snapshot :
      (before after : List LiveStep) (p : Object) (snapshot : Value) (l : Live)
      → truthy (get "id" p) ≡ true
      → (is_newer_update env.ecma p (live_run before l).queue.sequences).0 ≡ true
      → length l.queue.live_epochs + length before + 1 + length after ≤ max_entries
      → (let reached = live_run after (live_step (schedules p) (live_run before l)) in
          IsKept env.ecma
            (payload_id env.ecma p)
            reached.store.jobs
            (reconcile_once env l.queue.epoch snapshot reached).0.store.jobs)
  update_survives_snapshot before after p snapshot l named newer room =
      let start = l.queue.epoch in
      let k = payload_id env.ecma p in
      let asked = live_run before l in
      let now = live_step (schedules p) asked in
      let grown = run-epoch before l in
      let later = step-IsLater start (schedules p) asked in
      let touched = schedule-touches start p asked grown named newer in
      let small = run-length before l in
      snapshot_keeps_touched env start snapshot (live_run after now) k (
        run-touched start k after now (omega (arith, grown, later.epoch))
          (omega (arith, room, small, later.entries)) touched)
