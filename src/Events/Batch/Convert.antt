-- ===== src/Events/Batch/Convert.antt =====
-- app/static/js/events.js and jobs.js: what two updates of a job make of one property, in turn and
-- merged in the queue.
use fetchly.Common.{
  String, ◌≡◌, refl, Bool, true, false, not, ◌&&◌, Option, none, some, List, [], ◌∷◌, ◌==◌,
  if◌then◌else◌, contains, arith, ◌⊎◌, inl, inr, Bool-cases,
}
use fetchly.Ecma.{Ecma, Value, text, null, Object, set_has, is_nullish, string_of}
use fetchly.Config.{Env}
use fetchly.Jobs.Update.{
  normalize_number_field, text_field, number_field, date_field, text_keys, number_keys,
}
use fetchly.Jobs.Update.Fields.{own, or_else, update_field, bind_field}

module _ (env : Env) where
  abbrev pub js : Ecma
  js = env.ecma

  -- `drops_progress` by what a payload says of the two properties.
  abbrev pub drops_of : Option Value → Option Value → Bool
  drops_of none p = false
  drops_of (some v) none = not (set_has env.progress v)
  drops_of (some v) (some p) = false

  -- The conversion of one property, by the loop that its key stands in.
  abbrev pub loop :
      (Value → Option Value) → List String → String → Option Value → Option Value → Option Value
  loop f ks j o d = if contains j ks then or_else (bind_field f o) d else d

  pub convert : String → Option Value → Option Value
  convert j o =
      loop (date_field js) ("created_at" ∷ "finished_at" ∷ []) j o
        (loop (number_field js) number_keys j o (loop text_field text_keys j o none))

  pub update_field-convert :
      (j : String) (p : Object) → ("id" == j) ≡ false → update_field js j p ≡ convert j (own j p)
  unfolding update_field convert
  update_field-convert j p h = rw h

  pub loop-none :
      (f : Value → Option Value) (ks : List String) (j : String) → loop f ks j none none ≡ none
  loop-none f ks j = ground arith

  pub convert-none : (j : String) → convert j none ≡ none
  unfolding convert
  convert-none j = rw (
    loop-none text_field text_keys j,
    loop-none (number_field js) number_keys j,
    loop-none (date_field js) ("created_at" ∷ "finished_at" ∷ []) j,
  )

  -- A key that a loop knows and a value that it takes, or a key that no loop knows.
  pub convert_cases :
      (j : String) (v : Value)
      → (contains j text_keys ≡ true → text_field v ≡ some v)
      → ((w : Value) × (convert j (some v) ≡ some w)) ⊎ ((o : Option Value) → convert j o ≡ none)
  unfolding convert
  convert_cases j v typed = elim (Bool-cases (contains j ("created_at" ∷ "finished_at" ∷ []))) [
    | inl d ↦ inl (if is_nullish v then null else text (string_of js v), rw d)
    | inr d ↦ elim (Bool-cases (contains j number_keys)) [
      | inl n ↦ inl (if is_nullish v then null else normalize_number_field js v, rw (d, n))
      | inr n ↦ elim (Bool-cases (contains j text_keys)) [
        | inl t ↦ inl (v, rw (d, n, t, typed t))
        | inr t ↦ inr (λ o. rw (d, n, t))
      ]
    ]
  ]

  -- Converted one after the other or merged first, a property comes out alike.
  pub convert_or :
      (j : String) (a b e : Option Value)
      → ((v : Value) → b ≡ some v → contains j text_keys ≡ true → text_field v ≡ some v)
      → or_else (convert j b) (or_else (convert j a) e) ≡ or_else (convert j (or_else b a)) e
  convert_or j a none e typed = rw (convert-none j)
  convert_or j a (some v) e typed = elim (convert_cases j v (typed v refl)) [
    | inl (w, known) ↦ rw known
    | inr unknown ↦ rw (unknown (some v), unknown a)
  ]

  -- `progress` of a job after two updates one after the other, by what they say of the two
  -- properties: `s` and `p` of the first, `t` and `q` of the second, `e` of the stored job.
  abbrev pub status_of : Option Value → Option Value
  status_of = bind_field text_field

  abbrev pub progress_of : Option Value → Option Value
  progress_of = bind_field (number_field js)

  abbrev pub in_turn : (s p t q e : Option Value) → Option Value
  in_turn s p t q e =
      if drops_of (status_of t) (progress_of q)
      then some null
      else or_else (progress_of q)
          (if drops_of (status_of s) (progress_of p) then some null else or_else (progress_of p) e)

  abbrev pub batched : (s p t q e : Option Value) → Option Value
  batched s p t q e =
      let merged = if drops_of t q then none else or_else q p in
      if drops_of (status_of (or_else t s)) (progress_of merged)
      then some null
      else or_else (progress_of merged) e

  -- The second update starts a status with a percentage and does not give one.
  abbrev pub resumes : Option Value → Option Value → Bool
  resumes none q = false
  resumes (some v) none = set_has env.progress v
  resumes (some v) (some w) = false

  pub drops_of-some : (o : Option Value) (w : Value) → drops_of o (some w) ≡ false
  drops_of-some none w = refl
  drops_of-some (some v) w = refl

  pub progress_agrees :
      (s p t q e : Option Value)
      → status_of t ≡ t
      → (drops_of (status_of s) (progress_of p) && resumes t q) ≡ false
      → in_turn s p t q e ≡ batched s p t q e
  progress_agrees s p none none e typed h = ground arith
  progress_agrees s p none (some w) e typed h =
      rw (drops_of-some (status_of s) (if is_nullish w then null else normalize_number_field js w))
  progress_agrees s p (some v) none e typed h =
      let kept : text_field v ≡ some v = typed in
      elim (Bool-cases (set_has env.progress v)) [
        | inl on ↦ rw (kept, on) (ground (arith, h, on))
        | inr off ↦ rw (kept, off) (ground (arith, off))
      ]
  progress_agrees s p (some v) (some w) e typed h =
      let number = if is_nullish w then null else normalize_number_field js w in
      rw (drops_of-some (text_field v) number)

  pub stale_progress :
      (s t q e : Option Value)
      → status_of t ≡ t
      → drops_of (status_of s) none ≡ true
      → resumes t q ≡ true
      → (in_turn s none t q e ≡ some null) × (batched s none t q e ≡ e)
  stale_progress s none q e typed d r = cc
  stale_progress s (some v) (some w) e typed d r = cc
  stale_progress s (some v) none e typed d r =
      let kept : text_field v ≡ some v = typed in rw (kept, r) (ground (arith, d, r))
