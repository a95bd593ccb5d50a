-- ===== src/Rows.antt =====
-- app/static/js/jobs.js: the texts that a row shows of a job, and app/static/js/utils.js, `parseUtcTimestamp`
-- and `platformPillLabel`.
pub mod Cells
pub mod Nodes
pub mod Same
pub mod Patched
use fetchly.Common.{
  ℕ, zero, suc, ◌*◌, String, Bool, true, false, not, ◌&&◌, ◌||◌, Option, none, some, List, [], ◌∷◌,
  ◌==◌, if◌then◌else◌, eqb, leb, filter, contains,
}
use fetchly.Common.Int.{ℤ, pos, negsuc}
use fetchly.Ecma.{
  or_truthy, Ecma, Number, nan, infinite, finite, Value, null, undefined, text, Object, get,
  is_nullish, truthy, string_of, number_of, unit,
}
use fetchly.Links.{detect_platform}
use fetchly.Times.{empty_value, format_duration, round_div}
use fetchly.Site.{Site, ecma_of}
use fetchly.Ui.{append, is_text}
use fetchly.Ui.Size.{human_size}
use Prim.Native.Char.{code}
use Prim.Native.String

-- The text after the last of some characters.
unfoldable pub after_last : (ℕ → Bool) → String → Option String
after_last p String.[] = none
after_last p (String.◌∷◌ c s) = elim (after_last p s) [
  | some t ↦ some t
  | none ↦ if p (code c) then some s else none
]

abbrev pub text_or : String → Option String → String
text_or s none = s
text_or s (some t) = t

abbrev pub is_slash : ℕ → Bool
is_slash n = eqb n 47 || eqb n 92

abbrev pub rest_of : String → String
rest_of String.[] = String.[]
rest_of (String.◌∷◌ c s) = s

-- A shape in which `0` stands for any digit.
unfoldable pub has_shape : String → String → Bool
has_shape String.[] String.[] = true
has_shape String.[] (String.◌∷◌ c s) = false
has_shape (String.◌∷◌ d shape) String.[] = false
has_shape (String.◌∷◌ d shape) (String.◌∷◌ c s) =
    (if eqb (code d) 48 then leb 48 (code c) && leb (code c) 57 else eqb (code d) (code c))
    && has_shape shape s

-- `text.replace(" ", "T")`
unfoldable pub mark_time : String → String
mark_time String.[] = String.[]
mark_time (String.◌∷◌ c s) =
    let rest = mark_time s in if eqb (code c) 32 then append "T" s else String.◌∷◌ c rest

-- A part of a summary is shown if it says something.
abbrev pub is_shown : Value → Bool
is_shown part = truthy part && not (is_text empty_value part)

abbrev pub pill_label : String → String
pill_label platform =
    if platform == "youtube"
    then "YT"
    else if platform == "tiktok"
    then "TikTok"
    else if platform == "instagram"
    then "Insta"
    else if platform == "facebook"
    then "FB"
    else ""

-- `value == null ? "" : String(value)`
abbrev pub text_of_option : Option String → Value
text_of_option none = null
text_of_option (some s) = text s

module _ (site : Site) where
  abbrev js : Ecma
  js = ecma_of site

  abbrev pub text_or_empty : Value → String
  text_or_empty v = if is_nullish v then "" else string_of js v

  abbrev pub join_texts : List Value → String
  join_texts [] = ""
  join_texts (part ∷ []) = string_of js part
  join_texts (part ∷ next ∷ parts) =
      append (string_of js part) (append " · " (join_texts (next ∷ parts)))

  unfoldable pub get_quality_label : Object → String
  get_quality_label job =
      let quality = string_of js (or_truthy (get "quality" job) (text empty_value)) in
      if is_text "audio" (get "type" job)
      then empty_value
      else if quality == "max"
      then "Max"
      else quality

  abbrev pub type_of : Object → String
  type_of job = js.lower (string_of js (or_truthy (get "type" job) (text "")))

  -- `charAt(0)` is half of a character beyond the basic plane, and has no capital.
  abbrev pub capitalized : String → String
  capitalized String.[] = empty_value
  capitalized (String.◌∷◌ c s) =
      if leb 65536 (code c) then String.◌∷◌ c s else append (site.upper (String.◌∷◌ c String.[])) s

  unfoldable pub get_type_label : Object → String
  get_type_label job =
      let kind = type_of job in
      if kind == "audio" then "Audio" else if kind == "video" then "Video" else capitalized kind

  unfoldable pub get_type_icon : Object → String
  get_type_icon job =
      let kind = type_of job in
      if kind == "audio" then "music_note" else if kind == "video" then "movie" else ""

  -- `String(Math.round(n))` of a positive finite number.
  abbrev pub rounded : Number → Option String
  rounded (finite (pos zero)) = none
  rounded (finite (pos (suc n))) =
      some (js.text_of_number (finite (pos (round_div (suc n) unit * unit))))
  rounded _ = none

  unfoldable pub format_bpm_value : Value → String
  format_bpm_value value = text_or empty_value (rounded (number_of js value))

  unfoldable pub format_bpm_compact : Value → String
  format_bpm_compact value =
      let bpm = format_bpm_value value in
      if bpm == empty_value then empty_value else append bpm " BPM"

  abbrev pub with_unit : Option String → String
  with_unit none = empty_value
  with_unit (some n) = append n " kbps"

  unfoldable pub format_bitrate_text : Value → String
  format_bitrate_text value = with_unit (rounded (number_of js value))

  abbrev pub summary : List Value → String → String
  summary parts fallback =
      let shown = join_texts (filter is_shown parts) in if shown == "" then fallback else shown

  unfoldable pub format_mobile_media_line : Object → String
  format_mobile_media_line job =
      summary
        (text (get_type_label job)
          ∷ text (get_quality_label job)
          ∷ text (format_duration js (get "duration_seconds" job))
          ∷ text (human_size site (get "filesize_bytes" job))
          ∷ [])
        empty_value

  unfoldable pub parse_utc_timestamp : Value → Option ℤ
  parse_utc_timestamp value =
      let shown = if is_nullish value then "" else js.trim (string_of js value) in
      site.parse_date
        (if has_shape "0000-00-00 00:00:00" shown then append (mark_time shown) "Z" else shown)

  unfoldable pub format_mobile_time_line : Value → String
  format_mobile_time_line value = elim (parse_utc_timestamp (text (text_or_empty value))) [
    | none ↦ text_or_empty value
    | some at ↦ site.format_mobile at
  ]

  unfoldable pub format_created_text : Value → String
  format_created_text value = elim (parse_utc_timestamp (text (text_or_empty value))) [
    | none ↦ text_or_empty value
    | some at ↦ append (site.format_date at) (append " " (site.format_time at))
  ]

  unfoldable pub file_extension : Value → String
  file_extension filename =
      let path = string_of js (or_truthy filename (text "")) in
      let name = text_or path (after_last is_slash path) in
      elim (after_last (eqb 46) (rest_of name)) [ none ↦ "" | some t ↦ js.lower t ]

  unfoldable pub has_limited_playback : Object → Bool
  has_limited_playback job =
      let codec = js.lower (string_of js (or_truthy (get "codec" job) (text ""))) in
      let container = file_extension (get "filename" job) in
      if not (is_text "video" (get "type" job))
      then false
      else if codec == "" && container == ""
      then false
      else if not (codec == "") && not (contains codec ("h264" ∷ "avc1" ∷ []))
      then true
      else not (container == "") && not (contains container ("mp4" ∷ "m4v" ∷ "mov" ∷ []))

  unfoldable pub format_desktop_media_secondary : Object → String
  format_desktop_media_secondary job =
      summary
        (text (format_duration js (get "duration_seconds" job))
          ∷ or_truthy (get "codec" job) (text "")
          ∷ text (format_bpm_compact (get "bpm" job))
          ∷ text (format_bitrate_text (get "bitrate_kbps" job))
          ∷ text (human_size site (get "filesize_bytes" job))
          ∷ [])
        "Live job metadata updates here"

  -- The value that names the platform.
  unfoldable pub platform_of : Object → String
  platform_of job = string_of js (
      or_truthy (get "platform" job)
        (text_of_option (detect_platform site.browser (or_truthy (get "url" job) (text "")))))
