-- ===== src/Examples/Events.antt =====
-- The event stream and the queue of updates on small inputs.
use fetchly.Common.{
  ◌≤◌, ◌<◌, ◌*◌, String, ◌≡◌, refl, true, false, none, some, [], ◌∷◌, arith, length, lookup,
}
use fetchly.Common.Int.{pos}
use fetchly.Ecma.{
  null, text, finite, Object, end, field, put, get, has_own, unit, set_has, string_of,
}
use fetchly.Events.Stream.{
  Stream, connects, opens, shuts_down, times_out, changes_visibility, hides, step, run,
}
use fetchly.Events.Stream.Leaks.{IsOwned, no_leak}
use fetchly.Events.Stream.Hidden.{IsQuiet, IsQuiet-when_hidden}
use fetchly.Events.Backoff.{reconnect_delay, reconnect_delay_bounds}
use fetchly.Events.Queue.{is_newer_number, previous_sequence}
use fetchly.Events.Sequence.{learn, stale_is_dropped}
use fetchly.Events.Batch.{
  IsTyped, applied_in_turn, applied_as_batch, batch_agrees, batch_keeps_stale_progress,
}
use fetchly.Jobs.Update.{drops_progress, normalized, copy_fields}
use fetchly.Jobs.Update.Fields.{own}
use fetchly.Examples.Sample.{sample_env, job_a, seven}

abbrev new_page : Stream
new_page = record {
  timer = false;
  active = none;
  attempt = 0;
  should_reconnect = true;
  enabled = true;
  needs_reconciliation = false;
  open_streams = [];
  next_stream = 0;
}

abbrev connected : Stream
connected = record new_page { active = some 0; open_streams = 0 ∷ []; next_stream = 1 }

reopened :
    (run (connects ∷ opens ∷ shuts_down ∷ times_out ∷ connects ∷ []) new_page).open_streams ≡ 1 ∷ []
unfolding run step
reopened = refl

no_leak_example :
    (length (run (connects ∷ shuts_down ∷ times_out ∷ []) new_page).open_streams ≤ 1)
    × IsOwned (run (connects ∷ shuts_down ∷ times_out ∷ []) new_page)
no_leak_example = no_leak (connects ∷ shuts_down ∷ times_out ∷ []) new_page refl refl

connected-IsOwned : IsOwned connected
connected-IsOwned = record { owned = refl }

IsQuiet-when_hidden_example :
    IsQuiet (step hides connected) × IsQuiet (step (changes_visibility false) connected)
IsQuiet-when_hidden_example = IsQuiet-when_hidden connected connected-IsOwned

reconnect_delay_bounds_example :
    (3_000 * unit ≤ reconnect_delay 3 999_999) × (reconnect_delay 3 999_999 < 35_000 * unit)
reconnect_delay_bounds_example = reconnect_delay_bounds 3 999_999 (omega arith)

stale_is_dropped_example :
    is_newer_number "a"
      (finite (pos 3))
      (learn (("b", finite (pos 9)) ∷ []) (is_newer_number "a" (finite (pos 4)) []).1)
    ≡ (false, learn (("b", finite (pos 9)) ∷ []) (is_newer_number "a" (finite (pos 4)) []).1)
unfolding is_newer_number previous_sequence lookup
stale_is_dropped_example =
    stale_is_dropped "a" (pos 4) (pos 3) (("b", finite (pos 9)) ∷ []) [] refl refl (omega arith)

abbrev retried : Object
retried = field "id" (text "a") (field "status" (text "queued") end)

abbrev resumed : Object
resumed = field "id" (text "a") (field "status" (text "downloading") end)

typed : (s : String) → IsTyped sample_env (field "id" (text "a") (field "status" (text s) end))
unfolding get has_own
typed s = record { named = refl; texts = λ j v e k. ground (arith, e) }

batch_agrees_example :
    own "progress" (applied_in_turn sample_env job_a job_a retried)
    ≡ own "progress" (applied_as_batch sample_env job_a job_a retried)
unfolding drops_progress get has_own set_has
batch_agrees_example =
    batch_agrees sample_env job_a job_a retried "progress" (typed "queued") (ground arith)

batch_keeps_stale_progress_example :
    (own "progress" (applied_in_turn sample_env job_a retried resumed) ≡ some null)
    × (own "progress" (applied_as_batch sample_env job_a retried resumed) ≡ some seven)
unfolding drops_progress normalized copy_fields string_of get has_own put set_has
batch_keeps_stale_progress_example =
    batch_keeps_stale_progress sample_env job_a retried resumed seven (typed "downloading") refl
      refl refl refl
