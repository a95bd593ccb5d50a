-- ===== src/Examples/Reconcile.antt =====
-- Tests of Events.Reconcile: a list from the server beside a live update.
use fetchly.Common.{◌≡◌, refl, true, false, some, [], ◌∷◌, lookup, insert, List, arith}
use fetchly.Ecma.{obj, arr, cons, nil, Value, null, Object, field, end, text, get, number_of}
use fetchly.Events.Queue.{
  Live, payload_id, is_newer_update, is_newer_number, previous_sequence, insert_bounded,
}
use fetchly.Events.Reconcile.{Reconciliation, reconcile_once, reconcile_visible_jobs}
use fetchly.Events.Reconcile.Kept.{IsKept}
use fetchly.Events.Reconcile.Touched.{
  live_run, live_step, schedules, flushes, update_survives_snapshot,
}
use fetchly.Events.Reconcile.Passes.{Answer, passes, reconciliation_ends}
use fetchly.Examples.Sample.{sample_ecma, sample_env, empty_state, job_a, job_b, seven}

-- Job a was updated in epoch 2, after the request of epoch 1 was sent.
abbrev page : Live
page = record {
  queue = record {
    queued = [];
    sequences = [];
    frame = false;
    epoch = 2;
    live_epochs = ("a", 2) ∷ [];
  };
  store = record empty_state { jobs = job_a ∷ []; job_ids = "a" ∷ [] };
  dispatched = [];
  recovering = [];
}

abbrev snapshot : Value
snapshot = arr (cons (obj job_b) (cons (obj job_a) (cons null nil)))

abbrev idle : Reconciliation
idle = record { in_flight = false; pending = false; pass = 0; start_epoch = 0 }

abbrev answers : List Answer
answers = (true, some snapshot) ∷ (true, some snapshot) ∷ (true, some snapshot) ∷ []

-- An update of job a, let through after the request was sent, and the frame that applies it.
abbrev moved : Object
moved = field "id" (text "a") (field "seq" seven (field "status" (text "done") end))

moved_is_newer :
    (is_newer_update sample_ecma moved (live_run sample_env [] page).queue.sequences).0 ≡ true
unfolding live_run is_newer_update is_newer_number get number_of previous_sequence lookup
    insert_bounded insert
moved_is_newer = refl

update_survives_snapshot_example :
    (let reached =
        live_run sample_env
          (flushes ∷ [])
          (live_step sample_env (schedules moved) (live_run sample_env [] page)) in
      IsKept sample_ecma
        (payload_id sample_ecma moved)
        reached.store.jobs
        (reconcile_once sample_env page.queue.epoch snapshot reached).0.store.jobs)
update_survives_snapshot_example =
    update_survives_snapshot sample_env [] (flushes ∷ []) moved snapshot page (unfold get in refl)
      moved_is_newer (omega arith)

reconciliation_ends_example :
    (passes sample_env answers page (reconcile_visible_jobs page idle)).1.in_flight ≡ false
reconciliation_ends_example = reconciliation_ends sample_env answers page idle refl (omega arith)
