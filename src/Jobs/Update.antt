-- ===== src/Jobs/Update.antt =====
-- app/static/js/jobs.js: what an update payload changes in a stored job.
pub mod Fields
use fetchly.Common.{
  String, Bool, true, false, not, ◌&&◌, ◌||◌, Option, none, some, List, [], ◌∷◌, ◌==◌,
  if◌then◌else◌,
}
use fetchly.Ecma.{
  Ecma, Number, finite, Value, null, undefined, num, text, Object, end, field, is_nullish,
  is_finite, truthy, set_has, get, has_own, put, spread, properties, string_of, number_of,
}
use fetchly.Config.{Env}

-- `getJobId`: `String(job?.id ?? "")`
unfoldable pub get_job_id : Ecma → Object → String
get_job_id js job = let id = get "id" job in if is_nullish id then "" else string_of js id

unfoldable pub normalize_number_field : Ecma → Value → Value
normalize_number_field js value =
    let number = number_of js value in if is_finite number then num number else null

abbrev pub text_keys : List String
text_keys =
    "status" ∷ "message" ∷ "url" ∷ "type" ∷ "video_title" ∷ "video_meta_hover" ∷ "codec" ∷ "quality"
    ∷ "filename" ∷ []

abbrev pub number_keys : List String
number_keys =
    "bitrate_kbps" ∷ "bpm" ∷ "bpm_confidence" ∷ "filesize_bytes" ∷ "progress" ∷ "duration_seconds"
    ∷ []

-- One round of the first loop: a text or nothing; any other value is left out.
abbrev pub text_field : Value → Option Value
text_field null = some null
text_field undefined = some null
text_field (text s) = some (text s)
text_field _ = none

-- One round of the second loop.
abbrev pub number_field : Ecma → Value → Option Value
number_field js value = some (if is_nullish value then null else normalize_number_field js value)

-- The two dates.
abbrev pub date_field : Ecma → Value → Option Value
date_field js value = some (if is_nullish value then null else text (string_of js value))

abbrev pub put_field : String → Option Value → Object → Object
put_field key none update = update
put_field key (some value) update = put key value update

-- A loop over keys: an own property of the payload is converted and written to the update.
unfoldable pub copy_fields : (Value → Option Value) → List String → Object → Object → Object
copy_fields convert [] payload update = update
copy_fields convert (key ∷ keys) payload update =
    copy_fields convert keys payload
      (if has_own key payload then put_field key (convert (get key payload)) update else update)

-- The update built from the properties of a payload that has an id.
unfoldable pub normalized : Ecma → Object → Object
normalized js p = copy_fields (date_field js) ("created_at" ∷ "finished_at" ∷ []) p (
    copy_fields (number_field js) number_keys p
      (copy_fields text_field text_keys p (field "id" (text (string_of js (get "id" p))) end)))

unfoldable pub normalize_job_update : Ecma → Value → Option Object
normalize_job_update js payload =
    let p = properties payload in
    if not (truthy payload) || is_nullish (get "id" p) then none else some (normalized js p)

-- A status without a progress percentage drops the stored one.
unfoldable pub drops_progress : Env → Object → Bool
drops_progress env update =
    has_own "status" update
    && not (set_has env.progress (get "status" update))
    && not (has_own "progress" update)

unfoldable pub merge_stored_job : Env → Object → Object → Object
merge_stored_job env existing update =
    let merged = spread existing update in
    if drops_progress env update then put "progress" null merged else merged
