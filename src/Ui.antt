-- ===== src/Ui.antt =====
-- app/static/js/ui.js: the status and the actions of a job, as texts and categories. Ui.Actions builds
-- their markup.
pub mod Size
pub mod Buttons
pub mod Actions
pub mod Key
use fetchly.Common.{
  ℕ, ◌/◌, ◌*◌, String, Bool, true, false, not, ◌&&◌, ◌||◌, Option, none, some, List, [], ◌∷◌, ◌==◌,
  if◌then◌else◌, ltb, leb, min,
}
use fetchly.Common.Int.{pos, negsuc}
use fetchly.Ecma.{
  Ecma, Number, nan, infinite, finite, Value, null, undefined, bool, num, text, arr, obj, Object,
  get, is_nullish, truthy, or_truthy, set_has, string_of, number_of, properties, unit,
}
use fetchly.Jobs.Update.{get_job_id}
use fetchly.Times.{round_div}
use fetchly.Site.{Site, ecma_of}
use Prim.Native.String

pub data Category : Type 0 where
  download cancel retry detail : Category

abbrev pub category_text : Category → String
category_text download = "download"
category_text cancel = "cancel"
category_text retry = "retry"
category_text detail = "detail"

abbrev pub append : String → String → String
append s t = String.◌++◌ s t

-- `name` of the six properties, as texts joined by colons.
pub data DurationBucket : Type 0 where
  unknown long ok : DurationBucket

abbrev pub bucket_text : DurationBucket → String
bucket_text unknown = "unknown"
bucket_text long = "long"
bucket_text ok = "ok"

-- `none` where the job is no audio; else whether Lalal.ai is connected, and whether the guard is on.
abbrev pub lalal_text : Option (Bool × Bool) → String
lalal_text none = "none"
lalal_text (some (enabled, guard)) =
    append (if enabled then "lalal-on" else "lalal-off")
      (append ":" (if guard then "guard-on" else "guard-off"))

-- The parts of `actionKey`.
pub record ActionKey : Type 0 where
  pub category : Category
  pub kind : String
  pub bucket : DurationBucket
  pub lalal : Option (Bool × Bool)

unfoldable pub key_text : ActionKey → String
key_text k = append (category_text k.category) (
    append ":" (
      append k.kind (append ":" (append (bucket_text k.bucket) (append ":" (lalal_text k.lalal))))))

abbrev pub is_text : String → Value → Bool
is_text s (text t) = t == s
is_text s _ = false

abbrev pub whole_seconds : Number → Option ℕ
whole_seconds (finite (pos n)) = some n
whole_seconds _ = none

module _ (site : Site) where
  abbrev js : Ecma
  js = ecma_of site

  unfoldable pub normalize_status : Value → String
  normalize_status status = js.lower (js.trim (string_of js (or_truthy status (text "queued"))))

  -- The colour and the label of a status, as texts.
  unfoldable pub get_status_meta : Value → String × String
  get_status_meta status =
      let key = string_of js (or_truthy status (text "queued")) in
      let entry = get key site.contract.meta in
      if truthy entry
      then (
        string_of js (get "color" (properties entry)),
        string_of js (get "label" (properties entry)),
      )
      else ("primary", site.upper key)

  abbrev pub percent_of : Number → Option ℕ
  percent_of (finite (pos n)) = some (min 100 (round_div n unit))
  percent_of _ = none

  unfoldable pub to_progress_percent : Value → Option ℕ
  to_progress_percent null = none
  to_progress_percent undefined = none
  to_progress_percent (bool _) = none
  to_progress_percent (text s) =
      if js.trim s == "" then none else percent_of (number_of js (text s))
  to_progress_percent (num n) = percent_of (number_of js (num n))
  to_progress_percent (arr xs) = percent_of (number_of js (arr xs))
  to_progress_percent (obj o) = percent_of (number_of js (obj o))

  abbrev pub whole_text : ℕ → String
  whole_text n = js.text_of_number (finite (pos (n * unit)))

  unfoldable pub get_status_text : Value → Value → String
  get_status_text status progress =
      let normalized = or_truthy status (text "queued") in
      let (_, label) = get_status_meta normalized in
      if not (set_has site.contract.progress normalized)
      then label
      else elim (to_progress_percent progress) [
        | none ↦ label
        | some p ↦ append label (append " " (append (whole_text p) "%"))
      ]

  unfoldable pub get_status_pill_class : Value → String
  get_status_pill_class status = append "status-pill status-pill-" (get_status_meta status).0

  -- In millionths of a second.
  unfoldable pub get_known_duration_seconds : Object → Option ℕ
  get_known_duration_seconds job =
      let raw = get "duration_seconds" job in
      if is_nullish raw || js.trim (string_of js raw) == ""
      then none
      else whole_seconds (number_of js raw)

  abbrev pub is_too_long : Option ℕ → Bool
  is_too_long none = true
  is_too_long (some seconds) = ltb site.lalal_max seconds

  unfoldable pub is_duration_blocked : Object → Bool
  is_duration_blocked job =
      if not site.duration_guard then false else is_too_long (get_known_duration_seconds job)

  unfoldable pub get_action_button_category : Value → Category
  get_action_button_category status =
      let normalized = or_truthy status (text "") in
      if set_has site.contract.downloadable normalized
      then download
      else if set_has site.contract.cancellable normalized
      then cancel
      else if set_has site.contract.retryable normalized
      then retry
      else detail

  unfoldable pub duration_bucket : Option ℕ → DurationBucket
  duration_bucket none = unknown
  duration_bucket (some seconds) = if ltb site.lalal_max seconds then long else ok

  abbrev pub is_audio : Object → Bool
  is_audio job = is_text "audio" (get "type" job)

  unfoldable pub resolve_job_action : Object → ActionKey
  resolve_job_action job = record {
    category = get_action_button_category (get "status" job);
    kind = string_of js (or_truthy (get "type" job) (text ""));
    bucket = duration_bucket (get_known_duration_seconds job);
    lalal = if is_audio job then some (site.lalal_enabled, site.duration_guard) else none;
  }
