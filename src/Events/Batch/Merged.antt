-- ===== src/Events/Batch/Merged.antt =====
-- app/static/js/events.js and jobs.js: the properties of a job after two updates, in turn and merged.
use fetchly.Common.{
  String, ◌≡◌, Bool, true, false, not, ◌&&◌, none, some, ◌==◌, if◌then◌else◌, contains, arith, ◌∙◌,
  and_true, and_false,
}
use fetchly.Ecma.{Value, null, Object, get, has_own, spread, set_has}
use fetchly.Ecma.Laws.{get-spread, has_own-spread, get-delete_key, has_own-delete_key}
use fetchly.Config.{Env}
use fetchly.Jobs.Update.{normalized, merge_stored_job, drops_progress, text_field, text_keys}
use fetchly.Jobs.Update.Fields.{own, or_else, update_field, own-normalized, own-merge_stored_job}
use fetchly.Events.Queue.{merge_queued_update, drops_queued_progress}
use fetchly.Events.Batch.Convert.{drops_of}

module _ (env : Env) where
  own-merge_queued_update :
      (a b : Object) (j : String)
      → own j (merge_queued_update env (some a) b) ≡ (
          if drops_queued_progress env b && "progress" == j
          then none
          else or_else (own j b) (own j a))
  unfolding merge_queued_update
  own-merge_queued_update a b j = ground (
    arith,
    get-spread j a b,
    has_own-spread j a b,
    get-delete_key "progress" j (spread a b),
    has_own-delete_key "progress" j (spread a b),
  )

  pub drops_progress-own :
      (u : Object) → drops_progress env u ≡ drops_of env (own "status" u) (own "progress" u)
  unfolding drops_progress
  drops_progress-own u = ground arith

  drops_queued_progress-own :
      (u : Object) → drops_queued_progress env u ≡ drops_of env (own "status" u) (own "progress" u)
  unfolding drops_queued_progress
  drops_queued_progress-own u = ground arith

  -- A payload as the server sends it: it names its job, and its texts are texts or null.
  pub record IsTyped (b : Object) : Type 0 where
    pub named : has_own "id" b ≡ true
    pub texts :
        (j : String) (v : Value)
        → own j b ≡ some v
        → contains j text_keys ≡ true
        → text_field v ≡ some v

  -- The job `e` after the updates `a` and `b`, applied one after the other.
  abbrev pub applied_in_turn : Object → Object → Object → Object
  applied_in_turn e a b =
      merge_stored_job env (merge_stored_job env e (normalized env.ecma a)) (normalized env.ecma b)

  -- The same after one update, which the queue merged from the two.
  abbrev pub applied_as_batch : Object → Object → Object → Object
  applied_as_batch e a b =
      merge_stored_job env e (normalized env.ecma (merge_queued_update env (some a) b))

  -- The second payload gives a status with a percentage, and no percentage.
  abbrev pub resumes_progress : Object → Bool
  resumes_progress b =
      has_own "status" b && set_has env.progress (get "status" b) && not (has_own "progress" b)

  pub own-in_turn :
      (e a b : Object) (j : String)
      → own j (applied_in_turn e a b) ≡ (
          if drops_progress env (normalized env.ecma b) && "progress" == j
          then some null
          else or_else (update_field env.ecma j b) (
              if drops_progress env (normalized env.ecma a) && "progress" == j
              then some null
              else or_else (update_field env.ecma j a) (own j e)))
  own-in_turn e a b j = rw (
    own-merge_stored_job env (merge_stored_job env e (normalized env.ecma a))
        (normalized env.ecma b) j,
    own-merge_stored_job env e (normalized env.ecma a) j,
    own-normalized env.ecma b j,
    own-normalized env.ecma a j,
  )

  pub own-as_batch :
      (e a b : Object) (j : String)
      → own j (applied_as_batch e a b) ≡ (
          if drops_progress env (normalized env.ecma (merge_queued_update env (some a) b))
            && "progress" == j
          then some null
          else or_else (update_field env.ecma j (merge_queued_update env (some a) b)) (own j e))
  own-as_batch e a b j =
      let merged = merge_queued_update env (some a) b in
      rw (
        own-merge_stored_job env e (normalized env.ecma merged) j,
        own-normalized env.ecma merged j,
      )

  pub get_id-merged :
      (a b : Object) → IsTyped b → get "id" (merge_queued_update env (some a) b) ≡ get "id" b
  get_id-merged a b t = ground (arith, own-merge_queued_update a b "id", t.named)

  pub own_merged :
      (a b : Object) (j : String)
      → ("progress" == j) ≡ false
      → own j (merge_queued_update env (some a) b) ≡ or_else (own j b) (own j a)
  own_merged a b j p = own-merge_queued_update a b j ∙ rw (p, and_false)

  pub progress_merged :
      (a b : Object)
      → own "progress" (merge_queued_update env (some a) b) ≡ (
          if drops_of env (own "status" b) (own "progress" b)
          then none
          else or_else (own "progress" b) (own "progress" a))
  progress_merged a b =
      own-merge_queued_update a b "progress" ∙ rw (and_true, drops_queued_progress-own b)
