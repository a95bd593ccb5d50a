-- ===== src/Api.antt =====
-- app/static/js/api.js: the answers of the server, the errors of a call, and the texts of both. The
-- modules below have the body of an error, its message, the attempts of a call and the calls that are shared.
pub mod Snippet
pub mod Messages
pub mod Attempts
pub mod Attempted
pub mod Shared
pub mod Sharing
use fetchly.Common.{
  ℕ, zero, suc, ◌&&◌, ◌+◌, ◌-◌, ◌*◌, ◌/◌, ◌^◌, String, Bool, true, false, Option, none, some, List,
  [], ◌∷◌, ◌==◌, if◌then◌else◌, eqb, leb, max,
}
use fetchly.Common.Int.{ℤ, pos, negsuc}
use fetchly.Ecma.{Ecma, Number, nan, infinite, finite, Value, unit}
use fetchly.Ui.{append}

-- A read of a body: bytes, its end, or an exception.
pub data Read : Type 0 where
  bytes : List ℕ → Read
  ended : Read
  broken : Read

-- A response. `parsed` is what `json()` gives, `none` where it rejects; `body` is what the reads of the body
-- give, in order, and `none` where there is no body.
pub record Response : Type 0 where
  pub ok : Bool
  pub status : ℕ
  pub status_text : String
  pub retry_after : Option String
  pub parsed : Option Value
  pub body : Option (List Read)

-- What a call rejects with. `bad_json` is the rejection of `json()`, `other` any other exception of `fetch`.
pub data Failure : Type 0 where
  http_error : ℕ → String → Option String → Option Value → Failure
  timeout_error : ℕ → Failure
  type_error abort_error bad_json other : Failure

-- What the code uses of the language and the browser. `parse_date` is `Date.parse` in milliseconds, `now` is
-- `Date.now()`, and `parse_json` is `none` where it throws.
pub record Web : Type 0 where
  pub ecma : Ecma
  pub decode : List ℕ → String
  pub parse_json : String → Option Value
  pub parse_date : String → Option ℤ
  pub now : ℕ

abbrev pub default_retry_count : ℕ
default_retry_count = 2

unfoldable pub retry_delay_ms : ℕ → ℕ
retry_delay_ms attempt = 250 * 2 ^ attempt

unfoldable pub is_retryable_status : ℕ → Bool
is_retryable_status status = if eqb status 502 then true else leb 503 status && leb status 504

unfoldable pub is_retryable_fetch_error : Failure → Bool
is_retryable_fetch_error type_error = true
is_retryable_fetch_error (timeout_error ms) = true
is_retryable_fetch_error _ = false

abbrev pub ceil_div : ℕ → ℕ → ℕ
ceil_div a b = (a + (b - 1)) / b

module _ (web : Web) where
  abbrev pub whole_text : ℕ → String
  whole_text n = (web.ecma).text_of_number (finite (pos (n * unit)))

  -- The seconds until an instant, at least one.
  abbrev pub seconds_until : ℤ → ℕ
  seconds_until (pos at) = if leb at web.now then 1 else max 1 (ceil_div (at - web.now) 1000)
  seconds_until (negsuc at) = 1

  abbrev pub from_date : String → String
  from_date retry_after = elim (web.parse_date retry_after) [
    | none ↦ retry_after
    | some at ↦ append (whole_text (seconds_until at)) "s"
  ]

  abbrev pub from_number : String → Number → String
  from_number retry_after (finite (pos zero)) = from_date retry_after
  from_number retry_after (finite (pos (suc n))) = append (whole_text (ceil_div (suc n) unit)) "s"
  from_number retry_after _ = from_date retry_after

  unfoldable pub format_retry_after : Option String → String
  format_retry_after none = "a moment"
  format_retry_after (some s) =
      if s == "" then "a moment" else from_number s ((web.ecma).number_of_text s)
