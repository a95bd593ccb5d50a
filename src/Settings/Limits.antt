-- ===== src/Settings/Limits.antt =====
-- app/static/js/settings.js, `validateSettings`: the bounds of the settings. A form gives the texts of its inputs,
-- empty where one is missing; `parse_int` is `parseInt(text, 10)`, `none` for `NaN`, and `trim` the language's.
use fetchly.Common.{
  ℕ, ◌*◌, String, Bool, not, ◌&&◌, ◌||◌, Option, none, some, List, [], ◌∷◌, ◌==◌, if◌then◌else◌,
  eqb, leb, ltb, contains,
}
use fetchly.Common.Int.{ℤ, pos}
use fetchly.Common.Texts.{text_length, all_codes}
use fetchly.Ecma.{Ecma, finite, unit}
use fetchly.Ui.{append}
use fetchly.Settings.Credentials.{Checked, accepted, refused}

-- A row of `RUNTIME_LIMITS`.
pub record Limit : Type 0 where
  pub key : String
  pub label : String
  pub minimum : ℕ
  pub maximum : ℕ

abbrev pub runtime_limits : List Limit
runtime_limits =
    record { key = "download_worker_count"; label = "Download workers"; minimum = 0; maximum = 8 }
    ∷ record {
      key = "download_timeout_minutes";
      label = "Download timeout";
      minimum = 1;
      maximum = 240;
    }
    ∷ record {
      key = "transcode_timeout_minutes";
      label = "Transcode timeout";
      minimum = 1;
      maximum = 480;
    }
    ∷ record {
      key = "download_max_filesize_gib";
      label = "Maximum source download size";
      minimum = 1;
      maximum = 100;
    }
    ∷ record {
      key = "audio_analysis_max_minutes";
      label = "BPM analysis track limit";
      minimum = 0;
      maximum = 240;
    }
    ∷ record {
      key = "audio_analysis_timeout_minutes";
      label = "BPM analysis timeout";
      minimum = 1;
      maximum = 60;
    }
    ∷ record {
      key = "lalal_max_download_gib";
      label = "Lalal result limit";
      minimum = 1;
      maximum = 100;
    }
    ∷ []

-- Whether a number is one, and within bounds that are not negative.
abbrev pub within : ℕ → ℕ → Option ℤ → Option ℕ
within low high (some (pos n)) = if leb low n && leb n high then some n else none
within low high _ = none

abbrev pub or_refuse : {A : Type 0} → Option A → String → Checked A
or_refuse none message = refused message
or_refuse (some a) message = accepted a

infixl 5 ◌>>=◌
abbrev pub ◌>>=◌ : {A B : Type 0} → Checked A → (A → Checked B) → Checked B
accepted a >>= k = k a
refused message >>= k = refused message

-- `[A-Za-z0-9.:-]`
abbrev pub is_host_code : ℕ → Bool
is_host_code n =
    leb 65 n && leb n 90 || leb 97 n && leb n 122 || leb 48 n && leb n 58 || eqb n 46 || eqb n 45

-- The texts of the inputs by their names, and the switches, on where one is missing.
pub record Form : Type 0 where
  pub field_text : String → String
  pub enable_job_history : Bool
  pub download_auto_start : Bool
  pub video_watermark : Bool
  pub duration_guard : Bool

pub record SettingsData : Type 0 where
  pub retention_days : ℕ
  pub enable_job_history : Bool
  pub download_auto_start : Bool
  pub download_concurrent_fragments : ℕ
  pub share_link_max_uses : ℕ
  pub session_max_days : ℕ
  pub public_hostname : String
  pub download_output_mode : String
  pub video_watermark : Bool
  pub lalalaai_duration_guard : Bool
  pub runtime : List (String × ℕ)

module _ (js : Ecma) (parse_int : String → Option ℤ) where
  abbrev pub number_text : ℕ → String
  number_text n = js.text_of_number (finite (pos (n * unit)))

  abbrev pub limit_message : Limit → String
  limit_message l = append l.label (
      append " must be between "
        (append (number_text l.minimum) (append " and " (number_text l.maximum))))

  -- The loop over `RUNTIME_LIMITS`.
  unfoldable pub runtime_values : List Limit → Form → Checked (List (String × ℕ))
  runtime_values [] form = accepted []
  runtime_values (l ∷ ls) form = do
    value ←
        or_refuse (within l.minimum l.maximum (parse_int (form.field_text l.key))) (limit_message l)
    others ← runtime_values ls form
    accepted ((l.key, value) ∷ others)

  abbrev pub or_zero : String → String
  or_zero s = if s == "" then "0" else s

  abbrev pub output_mode : String → Checked String
  output_mode mode =
      if contains mode ("source" ∷ "universal" ∷ "av1" ∷ [])
      then accepted mode
      else refused "Video output format must be Source, H.264 or AV1"

  abbrev pub public_host : String → Checked String
  public_host host =
      if not (host == "") && (ltb 253 (text_length host) || not (all_codes is_host_code host))
      then refused "Public hostname must be a plain host or IP — no scheme, port or path"
      else accepted host

  abbrev pub settings_of : Form → ℕ → ℕ → ℕ → ℕ → String → List (String × ℕ) → String → SettingsData
  settings_of form kept parts uses days mode runtime host = record {
    retention_days = kept;
    enable_job_history = form.enable_job_history;
    download_auto_start = form.download_auto_start;
    download_concurrent_fragments = parts;
    share_link_max_uses = uses;
    session_max_days = days;
    public_hostname = host;
    download_output_mode = mode;
    video_watermark = form.video_watermark;
    lalalaai_duration_guard = form.duration_guard;
    runtime = runtime;
  }

  abbrev pub number_in : String → ℕ → ℕ → String → Checked ℕ
  number_in typed low high message = or_refuse (within low high (parse_int typed)) message

  abbrev pub days_message : String
  days_message =
      append "Session lifetime must be between "
        (append (number_text 1) (append " and " (append (number_text 7) " days")))

  abbrev pub retention : Form → Checked ℕ
  retention form =
      number_in (form.field_text "retention_days") 0 365
        "Retention must be unlimited or between 1 and 365 days"

  abbrev pub fragments : Form → Checked ℕ
  fragments form =
      number_in (form.field_text "download_concurrent_fragments") 0 16
        "Parallel fragments must be automatic or between 1 and 16"

  abbrev pub share_uses : Form → Checked ℕ
  share_uses form =
      number_in (or_zero (form.field_text "share_link_max_uses")) 0 10_000
        "Max. uses per share link must be between 0 and 10000"

  abbrev pub session_days : Form → Checked ℕ
  session_days form = number_in (form.field_text "session_max_days") 1 7 days_message

  unfoldable pub validate_settings : Form → Checked SettingsData
  validate_settings form = do
    kept ← retention form
    parts ← fragments form
    uses ← share_uses form
    days ← session_days form
    mode ← output_mode (form.field_text "download_output_mode")
    runtime ← runtime_values runtime_limits form
    host ← public_host (js.trim (form.field_text "public_hostname"))
    accepted (settings_of form kept parts uses days mode runtime host)
