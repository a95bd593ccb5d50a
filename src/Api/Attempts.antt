-- ===== src/Api/Attempts.antt =====
-- app/static/js/api.js: one attempt of a request, `fetchWithTimeout`, and the loop of attempts, `_apiCall`.
use fetchly.Common.{
  ℕ, zero, suc, ◌+◌, Bool, false, not, Option, none, some, List, [], ◌∷◌, ◌++◌, if◌then◌else◌, eqb,
}
use fetchly.Ecma.{Value}
use fetchly.Ui.{append}
use fetchly.Api.{
  Response, Failure, http_error, timeout_error, type_error, abort_error, bad_json, other, Web,
  default_retry_count, retry_delay_ms, is_retryable_status, is_retryable_fetch_error,
  format_retry_after,
}
use fetchly.Api.Messages.{parse_error}

-- What `fetch` gives: a response or a rejection, the first named `AbortError` or `TimeoutError`.
pub data Fetched : Type 0 where
  answered : Response → Fetched
  interrupted not_connected failed : Fetched

-- An attempt of the request, as the network and the signals decide it: whether the caller's signal is aborted
-- before it, when `fetch` has rejected, and when a retry is considered; whether the time is out.
pub record Attempt : Type 0 where
  pub aborted_before : Bool
  pub fetched : Fetched
  pub aborted_after : Bool
  pub timed_out : Bool

-- A promise that resolves with a value or rejects.
pub data Settled : Type 0 where
  resolved : Value → Settled
  rejected : Failure → Settled

pub data Fetch : Type 0 where
  response : Response → Fetch
  throws : Failure → Fetch

unfoldable pub fetch_with_timeout : ℕ → Attempt → Fetch
fetch_with_timeout timeout_ms attempt =
    let rejection : Failure → Fetch = λ error.
      if attempt.aborted_after
      then throws error
      else if attempt.timed_out
      then throws (timeout_error timeout_ms)
      else throws error in
    if attempt.aborted_before then throws abort_error else elim attempt.fetched [
      | answered r ↦ response r
      | interrupted ↦ rejection abort_error
      | not_connected ↦ throws type_error
      | failed ↦ throws other
    ]

-- What an attempt comes to. `again` is what the call rejects with if there is no further attempt.
pub data Verdict : Type 0 where
  final : Settled → Verdict
  again : Failure → Verdict

-- A request that leaves the browser, and the pause before the next.
pub data Event : Type 0 where
  sends : ℕ → Event
  sleeps : ℕ → Event

pub record Ended : Type 0 where
  pub result : Settled
  pub events : List Event

module _ (web : Web) where
  abbrev pub http_failure : Response → Failure
  http_failure r =
      let parsed = parse_error web r in
      http_error r.status parsed.message none (some parsed.payload)

  abbrev pub rate_limited : Response → Failure
  rate_limited r =
      http_error 429
        (append "Rate limited. Try again in " (append (format_retry_after web r.retry_after) "."))
        r.retry_after none

  abbrev pub json_of : Option Value → Settled
  json_of none = rejected bad_json
  json_of (some v) = resolved v

  -- `return res.json()` leaves the `try` block before the promise settles.
  unfoldable pub judge_response : Response → Verdict
  judge_response r =
      if r.ok
      then final (json_of r.parsed)
      else if eqb r.status 429
      then final (rejected (rate_limited r))
      else if is_retryable_status r.status
      then again (http_failure r)
      else final (rejected (http_failure r))

  unfoldable pub judge : Fetch → Verdict
  unfolding judge_response
  judge (response r) = judge_response r
  judge (throws error) =
      if is_retryable_fetch_error error then again error else final (rejected error)

  abbrev pub sent : ℕ → Attempt → List Event
  sent number attempt = if attempt.aborted_before then [] else sends number ∷ []

  -- The verdict if there is no further attempt.
  abbrev pub last_word : Verdict → Settled
  last_word (final s) = s
  last_word (again error) = rejected error

  abbrev pub goes_on : Verdict → Attempt → Bool
  goes_on (final s) attempt = false
  goes_on (again error) attempt = not attempt.aborted_after

  module _ (timeout_ms : ℕ) (network : ℕ → Attempt) where
    abbrev pub verdict : ℕ → Verdict
    verdict number = judge (fetch_with_timeout timeout_ms (network number))

    -- The loop from an attempt on, with the number of attempts that may follow it.
    unfoldable pub attempts : ℕ → ℕ → Ended
    attempts zero number = record {
      result = last_word (verdict number);
      events = sent number (network number);
    }
    attempts (suc left) number =
        let rest = attempts left (number + 1) in
        if goes_on (verdict number) (network number)
        then record {
          result = rest.result;
          events = sent number (network number) ++ sleeps (retry_delay_ms number) ∷ rest.events;
        }
        else record { result = last_word (verdict number); events = sent number (network number) }

    unfoldable pub api_call_from : ℕ → Ended
    api_call_from retries = attempts retries 0

    unfoldable pub api_call : Ended
    api_call = api_call_from 0

    unfoldable pub api_call_with_retry : Ended
    api_call_with_retry = api_call_from default_retry_count
