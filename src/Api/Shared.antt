-- ===== src/Api/Shared.antt =====
-- app/static/js/api.js, `_apiCallDeduped`: reads with the same key share one call. A key is what `_requestKey`
-- gives, `none` where it throws; a shared call is known by its number, and its promise settles once.
use fetchly.Common.{
  ℕ, zero, suc, ◌+◌, String, Bool, true, false, ◌&&◌, Option, none, some, List, [], ◌∷◌,
  if◌then◌else◌, eqb, ltb, Dict, lookup, insert, delete, map,
}
use fetchly.Api.Attempts.{Settled}

pub data Received : Type 0 where
  waiting : Received
  answered : Settled → Received
  aborted : Received

-- A caller of `_apiCallDeduped`: the key it asked for and the shared call it awaits.
pub record Caller : Type 0 where
  pub asked : String
  pub awaits : ℕ
  pub received : Received

-- `_inFlightRequests`, the shared calls made so far with their keys and answers, and the callers.
pub record Sharing : Type 0 where
  pub in_flight : Dict ℕ
  pub next : ℕ
  pub key_of : ℕ → String
  pub answer_of : ℕ → Option Settled
  pub callers : List Caller

abbrev pub start : Sharing
start = record { in_flight = []; next = 0; key_of = λ n. ""; answer_of = λ n. none; callers = [] }

abbrev pub at : {A : Type 0} → ℕ → A → (ℕ → A) → ℕ → A
at n a f m = if eqb m n then a else f m

-- `_raceWithAbort`: the signal of the caller may be aborted already.
unfoldable pub race_with_abort : String → ℕ → Bool → Caller
race_with_abort key id is_aborted = record {
  asked = key;
  awaits = id;
  received = if is_aborted then aborted else waiting;
}

abbrev pub join : String → ℕ → Bool → Sharing → Sharing
join key id is_aborted s = record s { callers = race_with_abort key id is_aborted ∷ s.callers }

-- A shared call that is new.
abbrev pub begin_call : String → Sharing → Sharing
begin_call key s = record s {
  in_flight = insert key s.next s.in_flight;
  next = s.next + 1;
  key_of = at s.next key s.key_of;
  answer_of = at s.next none s.answer_of;
}

unfoldable pub api_call_deduped : Option String → Bool → Sharing → Sharing
api_call_deduped none is_aborted s = s
api_call_deduped (some key) is_aborted s = elim (lookup key s.in_flight) [
  | some id ↦ join key id is_aborted s
  | none ↦ join key s.next is_aborted (begin_call key s)
]

abbrev pub is_waiting : Received → Bool
is_waiting waiting = true
is_waiting _ = false

abbrev pub is_unsettled : Option Settled → Bool
is_unsettled none = true
is_unsettled (some _) = false

abbrev pub deliver : ℕ → Settled → Caller → Caller
deliver id answer c = record c {
  received = if eqb c.awaits id && is_waiting c.received then answered answer else c.received;
}

-- The handlers of the shared promise, then its callers.
unfoldable pub on_settled : ℕ → Settled → Sharing → Sharing
on_settled id answer s =
    if ltb id s.next && is_unsettled (s.answer_of id)
    then record s {
      in_flight = delete (s.key_of id) s.in_flight;
      answer_of = at id (some answer) s.answer_of;
      callers = map (deliver id answer) s.callers;
    }
    else s

-- The signal of the caller at a place is aborted.
unfoldable pub abort_at : ℕ → List Caller → List Caller
abort_at n [] = []
abort_at zero (c ∷ cs) =
    record c { received = if is_waiting c.received then aborted else c.received } ∷ cs
abort_at (suc n) (c ∷ cs) = c ∷ abort_at n cs

pub data Step : Type 0 where
  calls : Option String → Bool → Step
  settles : ℕ → Settled → Step
  aborts : ℕ → Step

unfoldable pub step : Step → Sharing → Sharing
unfolding abort_at
step (calls key is_aborted) s = api_call_deduped key is_aborted s
step (settles id answer) s = on_settled id answer s
step (aborts n) s = record s { callers = abort_at n s.callers }

unfoldable pub run : List Step → Sharing → Sharing
run [] s = s
run (e ∷ es) s = run es (step e s)
