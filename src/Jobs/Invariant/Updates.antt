-- ===== src/Jobs/Invariant/Updates.antt =====
-- app/static/js/jobs.js: `applyJobUpdate` on the store.
use fetchly.Common.{
  String, ◌≡◌, true, false, Option, none, some, ◌==◌, arith, ◌⊎◌, inl, inr, Bool-cases,
  Option-cases, ◌∙◌,
}
use fetchly.Ecma.{Value, Object, text, get, properties, string_of}
use fetchly.Config.{Env}
use fetchly.Jobs.Update.{get_job_id, normalized, merge_stored_job}
use fetchly.Jobs.Update.Fields.{
  normalize_job_update_cases, own-normalized, update_field, own, own-merge_stored_job,
}
use fetchly.Jobs.State.{State, replace_job, find_job}
use fetchly.Jobs.Store.{update_id, update_job_store, show_updated, apply_job_update}
use fetchly.Jobs.Invariant.{IsValid, ids-replace_job, length-replace_job}
use fetchly.Jobs.Invariant.Steps.{SameStore-IsValid, render_stored_job-SameStore}

pub get-own : (k : String) (o : Object) (v : Value) → own k o ≡ some v → get k o ≡ v
get-own k o v h = ground arith

module _ (env : Env) where
  pub id-normalized :
      (p : Object)
      → own "id" (normalized env.ecma p) ≡ some (text (string_of env.ecma (get "id" p)))
  unfolding update_field
  id-normalized p = own-normalized env.ecma p "id"

  -- A merge gives the job the id of its update.
  pub get_job_id-merge_stored_job :
      (e u : Object) (k : String)
      → own "id" u ≡ some (text k)
      → get_job_id env.ecma (merge_stored_job env e u) ≡ k
  unfolding get_job_id string_of
  get_job_id-merge_stored_job e u k h =
      let eq : get "id" (merge_stored_job env e u) ≡ text k =
        get-own "id" (merge_stored_job env e u) (text k)
          (own-merge_stored_job env e u "id" ∙ ground arith) in
      rw eq

  update_id-own : (u : Object) (k : String) → own "id" u ≡ some (text k) → update_id u ≡ k
  unfolding update_id
  update_id-own u k h = let e = get-own "id" u (text k) h in rw (e, update_id)

  -- The store after an update of a job that it holds.
  pub update_job_store_hit :
      (u : Object) (s : State) (k : String) (e : Object)
      → own "id" u ≡ some (text k)
      → (k == "") ≡ false
      → find_job env.ecma k s.jobs ≡ some e
      → update_job_store env u s ≡ (
        record s { jobs = replace_job env.ecma k (merge_stored_job env e u) s.jobs },
        some (merge_stored_job env e u),
      )
  unfolding update_job_store
  update_job_store_hit u s k e hu hk he = ground (arith, update_id-own u k hu)

  pub update_job_store_miss :
      (u : Object) (s : State) (k : String)
      → own "id" u ≡ some (text k)
      → (k == "") ≡ true ⊎ (find_job env.ecma k s.jobs ≡ none)
      → update_job_store env u s ≡ (s, none)
  unfolding update_job_store
  update_job_store_miss u s k hu (inl e) = rw (update_id-own u k hu, e)
  update_job_store_miss u s k hu (inr e) = ground (arith, update_id-own u k hu)

  replaced-IsValid :
      (k : String) (job : Object) (s : State)
      → get_job_id env.ecma job ≡ k
      → IsValid env.ecma s
      → IsValid env.ecma (record s { jobs = replace_job env.ecma k job s.jobs })
  replaced-IsValid k job s e v = record {
    consistent = record {
      distinct = rw (ids-replace_job env.ecma k job s.jobs e) v.consistent.distinct;
      named = rw (ids-replace_job env.ecma k job s.jobs e) v.consistent.named;
      known_distinct = v.consistent.known_distinct;
      known_iff = λ j. rw (ids-replace_job env.ecma k job s.jobs e) (v.consistent.known_iff j);
    };
    bounded = rw (length-replace_job env.ecma k job s.jobs) v.bounded;
  }

  update_job_store-IsValid :
      (u : Object) (s : State) (k : String)
      → own "id" u ≡ some (text k)
      → IsValid env.ecma s
      → IsValid env.ecma (update_job_store env u s).0
  update_job_store-IsValid u s k hu v = elim (Bool-cases (k == "")) [
    | inl e ↦ rw (update_job_store_miss u s k hu (inl e)) v
    | inr e ↦ elim (Option-cases (find_job env.ecma k s.jobs)) [
      | inl missing ↦ rw (update_job_store_miss u s k hu (inr missing)) v
      | inr (job, found) ↦ rw (update_job_store_hit u s k job hu e found) (
          replaced-IsValid k (merge_stored_job env job u) s (get_job_id-merge_stored_job job u k hu)
            v)
    ]
  ]

  show_updated-IsValid :
      (r : State × Option Object) → IsValid env.ecma r.0 → IsValid env.ecma (show_updated env r).0
  unfolding show_updated
  show_updated-IsValid (t, none) v = v
  show_updated-IsValid (t, some job) v =
      SameStore-IsValid env.ecma (render_stored_job-SameStore env.ecma (get_job_id env.ecma job) t)
        v

  pub apply_job_update-IsValid :
      (payload : Value) (s : State)
      → IsValid env.ecma s
      → IsValid env.ecma (apply_job_update env payload s).0
  unfolding apply_job_update
  apply_job_update-IsValid payload s v =
      let p = properties payload in
      elim (normalize_job_update_cases env.ecma payload) [
        | inl e ↦ rw (e, apply_job_update) v
        | inr e ↦
            rw (e, apply_job_update)
              (show_updated-IsValid _ (
                update_job_store-IsValid (normalized env.ecma p) s (string_of env.ecma (get "id" p))
                  (id-normalized p) v))
      ]
