-- ===== src/Examples/Api.antt =====
-- Calls tried on a server that is busy once, on a form with two problems, and on two readers of one list.
use fetchly.Common.{
  map, ℕ, ◌+◌, ◌*◌, ◌^◌, ◌≤◌, ◌≢◌, ◌≡◌, refl, true, false, not, ◌&&◌, ◌||◌, none, some, List, [],
  ◌∷◌, if◌then◌else◌, eqb, ltb, leb, arith, length, lookup, insert,
}
use fetchly.Ecma.{text, arr, obj, end, field}
use fetchly.Api.{bytes, broken, Response, Web}
use fetchly.Api.Snippet.{read_response_snippet, body_bytes, breaks, read_response_snippet_lem}
use fetchly.Api.Messages.{
  Problem, problem_items, problem_text, said, extract_messages, to_error_message, parse_error,
  parse_error_speaks, form_problems_shown,
}
use fetchly.Api.Attempts.{Attempt, answered, resolved, api_call_from}
use fetchly.Api.Attempted.{goes_on_at, word_at, all_go_on, requests, slept, call_ends}
use fetchly.Api.Shared
use fetchly.Api.Sharing.Kept.{joins_running_call, callers_get_their_answer}
use fetchly.Examples.Sample.{sample_ecma}

abbrev web : Web
web = record {
  ecma = sample_ecma;
  decode = λ codes. "{}";
  parse_json = λ s. some (obj end);
  parse_date = λ s. none;
  now = 0;
}

abbrev busy : Response
busy = record {
  ok = false;
  status = 503;
  status_text = "";
  retry_after = none;
  parsed = none;
  body = some (bytes (1 ∷ 2 ∷ []) ∷ bytes (3 ∷ []) ∷ broken ∷ []);
}

abbrev list_of_jobs : Response
list_of_jobs = record {
  ok = true;
  status = 200;
  status_text = "OK";
  retry_after = none;
  parsed = some (text "jobs");
  body = none;
}

abbrev attempt_with : Response → Attempt
attempt_with r = record {
  aborted_before = false;
  fetched = answered r;
  aborted_after = false;
  timed_out = false;
}

abbrev network : ℕ → Attempt
network n = attempt_with (if eqb n 0 then busy else list_of_jobs)

read_response_snippet_lem_example : read_response_snippet web busy 2 ≡ (
    if leb 2 (length (body_bytes (bytes (1 ∷ 2 ∷ []) ∷ bytes (3 ∷ []) ∷ broken ∷ [])))
      || not (breaks (bytes (1 ∷ 2 ∷ []) ∷ bytes (3 ∷ []) ∷ broken ∷ []))
    then "{}"
    else "")
read_response_snippet_lem_example =
    read_response_snippet_lem web busy (bytes (1 ∷ 2 ∷ []) ∷ bytes (3 ∷ []) ∷ broken ∷ []) 2 refl

parse_error_speaks_example : (parse_error web busy).message ≢ ""
parse_error_speaks_example = parse_error_speaks web busy

abbrev problems : List Problem
problems =
    record { place = text "url"; kind = text "missing"; msg = "Field required" }
    ∷ record { place = text "type"; kind = text "enum"; msg = "" }
    ∷ []

form_problems_shown_example :
    to_error_message sample_ecma (obj (field "detail" (arr (problem_items problems)) end))
    ≡ said (map (problem_text sample_ecma) problems)
form_problems_shown_example = form_problems_shown sample_ecma problems

-- The second problem has no message.
said_of_problems : said (map (problem_text sample_ecma) problems) ≡ "Field required; type; enum"
unfolding to_error_message extract_messages
said_of_problems = refl

call_ends_example :
    let call = api_call_from web 10_000 network 2 in
    (n : ℕ) × (n ≤ 2)
    × (call.result ≡ word_at web 10_000 network n)
    × (all_go_on web 10_000 network 0 n ≡ true)
    × ((goes_on_at web 10_000 network n && ltb n 2) ≡ false)
    × (requests call.events ≤ n + 1)
    × (slept call.events + 250 ≡ 250 * 2 ^ n)
call_ends_example = call_ends web 10_000 network 2

abbrev one_reader : List Shared.Step
one_reader = Shared.calls (some "jobs") false ∷ []

joins_running_call_example :
    let s = Shared.run one_reader Shared.start in
    let t = Shared.api_call_deduped (some "jobs") false s in
    (t.next ≡ s.next) × (t.callers ≡ Shared.race_with_abort "jobs" 0 false ∷ s.callers)
unfolding Shared.run Shared.step Shared.api_call_deduped lookup insert
joins_running_call_example = joins_running_call one_reader "jobs" false 0 (omega arith) refl refl

abbrev both_answered : List Shared.Step
both_answered =
    Shared.calls (some "jobs") false
    ∷ Shared.calls (some "jobs") false
    ∷ Shared.settles 0 (resolved (text "jobs"))
    ∷ []

callers_get_their_answer_example :
    let s = Shared.run both_answered Shared.start in
    (s.key_of 0 ≡ "jobs") × (s.answer_of 0 ≡ some (resolved (text "jobs")))
unfolding Shared.run Shared.step Shared.on_settled Shared.api_call_deduped lookup insert
    Shared.race_with_abort
callers_get_their_answer_example =
    callers_get_their_answer both_answered 0
      (record { asked = "jobs"; awaits = 0; received = Shared.answered (resolved (text "jobs")) })
      (resolved (text "jobs")) refl refl
