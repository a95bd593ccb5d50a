-- ===== src/Api/Sharing/Kept.antt =====
-- app/static/js/api.js, `_apiCallDeduped`: what holds of the shared calls after any steps.
use fetchly.Common.{
  ℕ, zero, suc, ◌<◌, ◌≡◌, refl, sym, ap, ◌∙◌, subst, String, Bool, true, Option, none, some, List,
  [], ◌∷◌, ◌&&◌, arith, eq_self, ltb, lookup, lookup-insert, Bool-cases, Option-cases, if_both, inl,
  inr,
}
use mathlib.Core.Bool.{false≢true}
use mathlib.Core.Option.{some-injective, some-ne-none}
use fetchly.Api.Attempts.{Settled}
use fetchly.Api.Shared.{
  answered, Caller, Sharing, start, race_with_abort, join, begin_call, api_call_deduped,
  is_unsettled, on_settled, Step, calls, settles, aborts, step, run,
}
use fetchly.Api.Sharing.{
  InFlight, Unsettled, Good, Got, AllGood, IsShared, settled_call, begin-InFlight, begin-Unsettled,
  settled-InFlight, settled-Unsettled, settled-AllGood, begun-AllGood, aborted-AllGood,
}

start-IsShared : IsShared start
unfolding IsShared InFlight Unsettled lookup
start-IsShared = (
  λ key id e. absurd (some-ne-none id (sym e)),
  λ id small free. absurd (omega (arith, small)),
  tt,
)

begin-IsShared :
    (key : String) (s : Sharing)
    → lookup key s.in_flight ≡ none
    → IsShared s
    → IsShared (begin_call key s)
unfolding IsShared
begin-IsShared key s absent (found, kept, good) = (
  begin-InFlight key s found,
  begin-Unsettled key s absent kept,
  begun-AllGood key s s.callers good,
)

join-IsShared :
    (key : String) (id : ℕ) (is_aborted : Bool) (s : Sharing)
    → lookup key s.in_flight ≡ some id
    → IsShared s
    → IsShared (join key id is_aborted s)
unfolding IsShared InFlight Unsettled Good race_with_abort
join-IsShared key id is_aborted s present (found, kept, good) =
    let (small, named, unsettled) = found key id present in
    (found, kept, ((small, named, if_both (Got (s.answer_of id)) is_aborted tt unsettled), good))

begin-lookup : (key : String) (s : Sharing) → lookup key (begin_call key s).in_flight ≡ some s.next
begin-lookup key s = rw (lookup-insert key key s.next s.in_flight, eq_self key) refl

call-IsShared :
    (key : Option String) (is_aborted : Bool) (s : Sharing)
    → IsShared s
    → IsShared (api_call_deduped key is_aborted s)
unfolding api_call_deduped
call-IsShared none is_aborted s shared = shared
call-IsShared (some key) is_aborted s shared = elim (Option-cases (lookup key s.in_flight)) [
  | inl absent ↦
      rw (api_call_deduped, absent)
        (join-IsShared key s.next is_aborted (begin_call key s) (begin-lookup key s)
          (begin-IsShared key s absent shared))
  | inr (id, present) ↦
      rw (api_call_deduped, present) (join-IsShared key id is_aborted s present shared)
]

settled-IsShared :
    (id : ℕ) (answer : Settled) (s : Sharing)
    → id < s.next
    → s.answer_of id ≡ none
    → IsShared s
    → IsShared (settled_call id answer s)
unfolding IsShared
settled-IsShared id answer s known free (found, kept, good) = (
  settled-InFlight id answer s found,
  settled-Unsettled id answer s known free kept,
  settled-AllGood id answer s s.callers free good,
)

none_if : (o : Option Settled) → is_unsettled o ≡ true → o ≡ none
none_if none e = refl
none_if (some a) e = absurd (false≢true e)

settle-IsShared :
    (id : ℕ) (answer : Settled) (s : Sharing) → IsShared s → IsShared (on_settled id answer s)
unfolding on_settled
settle-IsShared id answer s shared =
    elim (Bool-cases (ltb id s.next && is_unsettled (s.answer_of id))) [
      | inl live ↦ rw (live) (
          settled-IsShared id answer s (ground (arith, live)) (none_if _ (ground (arith, live)))
            shared)
      | inr settled ↦ rw (settled) shared
    ]

abort-IsShared : (n : ℕ) (s : Sharing) → IsShared s → IsShared (step (aborts n) s)
unfolding step IsShared InFlight Unsettled
abort-IsShared n s (found, kept, good) = (found, kept, aborted-AllGood n s s.callers good)

step-IsShared : (e : Step) (s : Sharing) → IsShared s → IsShared (step e s)
unfolding step
step-IsShared (calls key is_aborted) s shared = call-IsShared key is_aborted s shared
step-IsShared (settles id answer) s shared = settle-IsShared id answer s shared
step-IsShared (aborts n) s shared = abort-IsShared n s shared

run-IsShared : (steps : List Step) (s : Sharing) → IsShared s → IsShared (run steps s)
unfolding run
run-IsShared [] s shared = shared
run-IsShared (e ∷ es) s shared = run-IsShared es (step e s) (step-IsShared e s shared)

-- After any calls, answers and aborts, a call with the key of one that still waits for the network makes no
-- new request: its caller awaits the one that is under way.
pub joins_running_call :
    (steps : List Step) (key : String) (is_aborted : Bool) (id : ℕ)
    → let s = run steps start in
      let t = api_call_deduped (some key) is_aborted s in
      id < s.next
      → s.answer_of id ≡ none
      → s.key_of id ≡ key
      → (t.next ≡ s.next) × (t.callers ≡ race_with_abort key id is_aborted ∷ s.callers)
unfolding IsShared Unsettled api_call_deduped
joins_running_call steps key is_aborted id known free named =
    let (found, kept, good) = run-IsShared steps start start-IsShared in
    let s = run steps start in
    let held : lookup key s.in_flight ≡ some id =
      ap (λ k. lookup k s.in_flight) (sym named) ∙ kept id known free in
    (rw (api_call_deduped, held) refl, rw (api_call_deduped, held) refl)

-- The caller at a place.
abbrev pub caller_at : ℕ → List Caller → Option Caller
caller_at n [] = none
caller_at zero (c ∷ cs) = some c
caller_at (suc n) (c ∷ cs) = caller_at n cs

Good-caller_at :
    (next : ℕ) (key_of : ℕ → String) (answer_of : ℕ → Option Settled) (n : ℕ) (cs : List Caller)
    (c : Caller)
    → AllGood next key_of answer_of cs
    → caller_at n cs ≡ some c
    → Good next key_of answer_of c
Good-caller_at next key_of answer_of n [] c good e = absurd (some-ne-none c (sym e))
Good-caller_at next key_of answer_of zero (d ∷ cs) c (here, rest) e =
    subst (Good next key_of answer_of) (some-injective d c e) here
Good-caller_at next key_of answer_of (suc n) (d ∷ cs) c (here, rest) e =
    Good-caller_at next key_of answer_of n cs c rest e

-- After any steps, an answer that a caller was given is the answer of a call for the key it asked for.
pub callers_get_their_answer :
    (steps : List Step) (n : ℕ) (c : Caller) (answer : Settled)
    → let s = run steps start in
      caller_at n s.callers ≡ some c
      → c.received ≡ answered answer
      → (s.key_of c.awaits ≡ c.asked) × (s.answer_of c.awaits ≡ some answer)
unfolding IsShared Good
callers_get_their_answer steps n c answer place given =
    let s = run steps start in
    let (found, kept, good) = run-IsShared steps start start-IsShared in
    let (small, named, got) = Good-caller_at s.next s.key_of s.answer_of n s.callers c good place in
    (named, subst (Got (s.answer_of c.awaits)) given got)
