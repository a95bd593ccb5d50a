-- ===== src/Jobs/Update/Fields.antt =====
-- What a normalized update says of each property, and what a merge makes of it.
use fetchly.Common.{
  String, ◌≡◌, refl, ◌⊎◌, inl, inr, ◌&&◌, Option, none, some, List, [], ◌∷◌, ◌==◌, if◌then◌else◌,
  arith, contains, eq_cases, eq_self,
}
use fetchly.Ecma.{
  Ecma, Value, null, text, Object, end, field, get, has_own, put, spread, properties, string_of,
}
use fetchly.Ecma.Laws.{get-put, has_own-put, get-spread, has_own-spread}
use fetchly.Config.{Env}
use fetchly.Jobs.Update.{
  text_keys, number_keys, text_field, number_field, date_field, put_field, copy_fields, normalized,
  normalize_job_update, drops_progress, merge_stored_job,
}

-- The property of an update that a payload gives, if it gives one.
abbrev pub own : String → Object → Option Value
own k o = if has_own k o then some (get k o) else none

abbrev pub or_else : Option Value → Option Value → Option Value
or_else (some v) d = some v
or_else none d = d

abbrev pub bind_field : (Value → Option Value) → Option Value → Option Value
bind_field f none = none
bind_field f (some v) = f v

own-put :
    (k j : String) (v : Value) (o : Object)
    → own j (put k v o) ≡ (if k == j then some v else own j o)
own-put k j v o = ground (arith, get-put k j v o, has_own-put k j v o)

own-put_field :
    (k j : String) (v : Option Value) (o : Object)
    → own j (put_field k v o) ≡ (if k == j then or_else v (own j o) else own j o)
own-put_field k j none o = ground arith
own-put_field k j (some v) o = ground (arith, own-put k j v o)

-- One round of a loop over keys.
own_step :
    (f : Value → Option Value) (k : String) (p u : Object) (j : String)
    → own j (if has_own k p then put_field k (f (get k p)) u else u)
      ≡ (if k == j then or_else (bind_field f (own k p)) (own j u) else own j u)
own_step f k p u j = ground (arith, own-put_field k j (f (get k p)) u)

own_hit :
    (f : Value → Option Value) (k : String) (p u : Object) (j : String) (ks : List String)
    → k ≡ j
    → (if contains j ks
        then or_else
            (bind_field f (own j p))
            (if k == j then or_else (bind_field f (own k p)) (own j u) else own j u)
        else (if k == j then or_else (bind_field f (own k p)) (own j u) else own j u))
      ≡ or_else (bind_field f (own j p)) (own j u)
own_hit f k p u j ks e = rw e (ground (arith, eq_self j))

pub own-copy_fields :
    (f : Value → Option Value) (ks : List String) (p u : Object) (j : String)
    → own j (copy_fields f ks p u)
      ≡ (if contains j ks then or_else (bind_field f (own j p)) (own j u) else own j u)
unfolding copy_fields
own-copy_fields f [] p u j = refl
own-copy_fields f (k ∷ ks) p u j = elim (eq_cases k j) [
  | inl (hit, e) ↦ rw (own-copy_fields f ks p _ j, hit, own_step f k p u j) (own_hit f k p u j ks e)
  | inr (miss, _) ↦ rw (own-copy_fields f ks p _ j, miss, own_step f k p u j, miss)
]

-- What a payload's own properties say of the property `j`, where it is one of `ks`.
abbrev field_of :
    (Value → Option Value) → List String → String → Object → Option Value → Option Value
field_of f ks j p d = if contains j ks then or_else (bind_field f (own j p)) d else d

-- What a payload's own properties say of the property `j` of its update.
unfoldable pub update_field : Ecma → String → Object → Option Value
update_field js j p = field_of (date_field js) ("created_at" ∷ "finished_at" ∷ []) j p (
    field_of (number_field js) number_keys j p (
      field_of text_field text_keys j p
        (if "id" == j then some (text (string_of js (get "id" p))) else none)))

own-start :
    (js : Ecma) (p : Object) (j : String)
    → own j (field "id" (text (string_of js (get "id" p))) end)
      ≡ (if "id" == j then some (text (string_of js (get "id" p))) else none)
unfolding get has_own
own-start js p j = ground arith

pub own-normalized :
    (js : Ecma) (p : Object) (j : String) → own j (normalized js p) ≡ update_field js j p
unfolding normalized update_field
own-normalized js p j = rw (
  own-copy_fields (date_field js),
  own-copy_fields (number_field js),
  own-copy_fields text_field,
  own-start js p j,
)

pub normalize_job_update_cases :
    (js : Ecma) (payload : Value)
    → (normalize_job_update js payload ≡ none)
      ⊎ (normalize_job_update js payload ≡ some (normalized js (properties payload)))
unfolding normalize_job_update
normalize_job_update_cases js payload = ground arith

pub own-merge_stored_job :
    (env : Env) (e u : Object) (j : String)
    → own j (merge_stored_job env e u)
      ≡ (if drops_progress env u && "progress" == j then some null else or_else (own j u) (own j e))
unfolding merge_stored_job
own-merge_stored_job env e u j =
    ground (arith, own-put "progress" j null (spread e u), get-spread j e u, has_own-spread j e u)
