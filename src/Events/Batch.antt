-- ===== src/Events/Batch.antt =====
-- app/static/js/events.js and jobs.js: two updates of a job merged in the queue, against the same two
-- updates applied to the store one after the other.
mod Convert
mod Merged
pub use Merged.{IsTyped, applied_in_turn, applied_as_batch, resumes_progress}
use fetchly.Common.{
  String, ◌≡◌, ◌≢◌, refl, Bool, true, false, not, ◌&&◌, ◌||◌, Option, none, some, List, [], ◌∷◌,
  ◌==◌, if◌then◌else◌, contains, arith, ◌∙◌, sym, eq_iff, eq_cases, ◌⊎◌, inl, inr, Bool-cases,
  Option-cases, and_true, and_false, ap, subst,
}
use fetchly.Ecma.{
  Ecma, Value, text, null, undefined, Object, get, has_own, put, spread, delete_key, set_has,
  is_nullish, string_of,
}
use fetchly.Ecma.Laws.{get-spread, has_own-spread, get-delete_key, has_own-delete_key}
use fetchly.Config.{Env}
use fetchly.Jobs.Update.{
  normalized, normalize_number_field, merge_stored_job, drops_progress, text_field, number_field,
  date_field, text_keys, number_keys,
}
use fetchly.Jobs.Update.Fields.{
  own, or_else, update_field, own-normalized, own-merge_stored_job, bind_field,
}
use fetchly.Events.Queue.{merge_queued_update, drops_queued_progress}
use Convert.{
  drops_of, loop, convert, update_field-convert, loop-none, convert-none, convert_cases, convert_or,
  status_of, progress_of, in_turn, batched, resumes, drops_of-some, progress_agrees, stale_progress,
}
use Merged.{
  drops_progress-own, own-in_turn, own-as_batch, get_id-merged, own_merged, progress_merged,
}

module _ (env : Env) where
  id_agrees :
      (e a b : Object)
      → IsTyped env b
      → own "id" (applied_in_turn env e a b) ≡ own "id" (applied_as_batch env e a b)
  unfolding update_field
  id_agrees e a b t =
      own-in_turn env e a b "id"
      ∙ (rw (get_id-merged env a b t) (ground arith) ∙ sym (own-as_batch env e a b "id"))

  other_agrees :
      (e a b : Object) (j : String)
      → IsTyped env b
      → ("id" == j) ≡ false
      → ("progress" == j) ≡ false
      → own j (applied_in_turn env e a b) ≡ own j (applied_as_batch env e a b)
  other_agrees e a b j t i p =
      let merged = merge_queued_update env (some a) b in
      let turn : own j (applied_in_turn env e a b)
          ≡ or_else (convert env j (own j b)) (or_else (convert env j (own j a)) (own j e)) =
        own-in_turn env e a b j
        ∙ rw (
          p,
          and_false,
          and_false,
          update_field-convert env j b i,
          update_field-convert env j a i,
        ) in
      let batch : own j (applied_as_batch env e a b)
          ≡ or_else (convert env j (or_else (own j b) (own j a))) (own j e) =
        own-as_batch env e a b j
        ∙ rw (p, and_false, update_field-convert env j merged i, own_merged env a b j p) in
      turn ∙ (convert_or env j (own j a) (own j b) (own j e) (t.texts j) ∙ sym batch)

  status_field : (u : Object) → update_field env.ecma "status" u ≡ status_of env (own "status" u)
  unfolding update_field
  status_field u = ground arith

  progress_field :
      (u : Object) → update_field env.ecma "progress" u ≡ progress_of env (own "progress" u)
  unfolding update_field
  progress_field u = ground arith

  drops-normalized :
      (u : Object)
      → drops_progress env (normalized env.ecma u)
        ≡ drops_of env (status_of env (own "status" u)) (progress_of env (own "progress" u))
  drops-normalized u =
      drops_progress-own env (normalized env.ecma u)
      ∙ rw (
        own-normalized env.ecma u "status",
        own-normalized env.ecma u "progress",
        status_field u,
        progress_field u,
      )

  progress_in_turn :
      (e a b : Object)
      → own "progress" (applied_in_turn env e a b)
        ≡ in_turn env
            (own "status" a)
            (own "progress" a)
            (own "status" b)
            (own "progress" b)
            (own "progress" e)
  progress_in_turn e a b =
      own-in_turn env e a b "progress"
      ∙ rw (
        drops-normalized b,
        drops-normalized a,
        progress_field b,
        progress_field a,
        and_true,
        and_true,
      )

  progress_as_batch :
      (e a b : Object)
      → own "progress" (applied_as_batch env e a b)
        ≡ batched env
            (own "status" a)
            (own "progress" a)
            (own "status" b)
            (own "progress" b)
            (own "progress" e)
  progress_as_batch e a b =
      let merged = merge_queued_update env (some a) b in
      own-as_batch env e a b "progress"
      ∙ rw (
        drops-normalized merged,
        progress_field merged,
        and_true,
        own_merged env a b "status" refl,
        progress_merged env a b,
      )

  resumes-own :
      (b : Object) → resumes_progress env b ≡ resumes env (own "status" b) (own "progress" b)
  resumes-own b = ground arith

  status-typed : (b : Object) → IsTyped env b → status_of env (own "status" b) ≡ own "status" b
  status-typed b t = elim (Option-cases (own "status" b)) [
    | inl e ↦ rw e
    | inr (v, e) ↦ rw e (t.texts "status" v e refl)
  ]

  progress_lem :
      (e a b : Object)
      → IsTyped env b
      → (drops_progress env (normalized env.ecma a) && resumes_progress env b) ≡ false
      → own "progress" (applied_in_turn env e a b) ≡ own "progress" (applied_as_batch env e a b)
  progress_lem e a b t h =
      progress_in_turn e a b
      ∙ (progress_agrees env (own "status" a) (own "progress" a) (own "status" b) (own "progress" b)
            (own "progress" e) (status-typed b t) (rw (drops-normalized a, resumes-own b) at h)
          ∙ sym (progress_as_batch e a b))

  -- Two updates of a job that the queue merges within a frame give the stored job the same properties
  -- as the two applied in turn, if the second one names its job, each of its properties that the store
  -- takes as a text is a text or null, and it is not the case that the first one drops the percentage
  -- by its status and the second one starts a status with a percentage and gives none.
  pub batch_agrees :
      (e a b : Object) (j : String)
      → IsTyped env b
      → (drops_progress env (normalized env.ecma a) && resumes_progress env b) ≡ false
      → own j (applied_in_turn env e a b) ≡ own j (applied_as_batch env e a b)
  batch_agrees e a b j t h = elim (eq_cases "id" j) [
    | inl (_, i) ↦
        subst (λ k. own k (applied_in_turn env e a b) ≡ own k (applied_as_batch env e a b)) i
          (id_agrees e a b t)
    | inr (i, _) ↦ elim (eq_cases "progress" j) [
      | inl (_, p) ↦
          subst (λ k. own k (applied_in_turn env e a b) ≡ own k (applied_as_batch env e a b)) p
            (progress_lem e a b t h)
      | inr (p, _) ↦ other_agrees e a b j t i p
    ]
  ]

  -- The first of two updates drops the percentage by its status and gives none, and the second one,
  -- which names its job and whose texts are texts or null, starts a status with a percentage and gives
  -- none. Then the two in turn leave no percentage in the stored job, and the merged one leaves the old.
  pub batch_keeps_stale_progress :
      (e a b : Object) (v : Value)
      → IsTyped env b
      → own "progress" e ≡ some v
      → has_own "progress" a ≡ false
      → drops_progress env (normalized env.ecma a) ≡ true
      → resumes_progress env b ≡ true
      → (own "progress" (applied_in_turn env e a b) ≡ some null)
        × (own "progress" (applied_as_batch env e a b) ≡ some v)
  batch_keeps_stale_progress e a b v t stored bare dropped resumed =
      let none_given : own "progress" a ≡ none = ground arith in
      let drops = rw (drops-normalized a, none_given) at dropped in
      let (turn, batch) =
        stale_progress env (own "status" a) (own "status" b) (own "progress" b) (own "progress" e)
          (status-typed b t) drops (rw (resumes-own b) at resumed) in
      (
        progress_in_turn e a b ∙ rw none_given turn,
        progress_as_batch e a b ∙ (rw none_given batch ∙ stored),
      )
