-- ===== src/Api/Sharing.antt =====
-- app/static/js/api.js, `_apiCallDeduped`: the shared calls that are under way, and what callers are given.
pub mod Kept
use fetchly.Common.{
  ℕ, zero, suc, ◌+◌, ◌<◌, ◌≤◌, ◌≡◌, refl, sym, ap, ◌∙◌, subst, String, Bool, true, false, Option,
  none, some, List, [], ◌∷◌, ◌&&◌, ◌==◌, if◌then◌else◌, arith, eq_iff, eq_self, eq_cases, eqb, ltb,
  lookup, insert, delete, lookup-insert, lookup-delete, Bool-cases, Option-cases, if_both, inl, inr,
  map,
}
use mathlib.Core.Bool.{false≢true}
use mathlib.Core.Option.{some-injective, some-ne-none}
use fetchly.Api.Attempts.{Settled}
use fetchly.Api.Shared.{
  Received, waiting, answered, aborted, Caller, Sharing, start, at, race_with_abort, join,
  begin_call, api_call_deduped, is_waiting, is_unsettled, deliver, on_settled, abort_at, Step,
  calls, settles, aborts, step, run,
}

InFlight : Sharing → Type 0
InFlight s =
    (key : String) (id : ℕ)
    → lookup key s.in_flight ≡ some id
    → (id < s.next) × (s.key_of id ≡ key) × (s.answer_of id ≡ none)

Unsettled : Sharing → Type 0
Unsettled s =
    (id : ℕ) → id < s.next → s.answer_of id ≡ none → lookup (s.key_of id) s.in_flight ≡ some id

abbrev Got : Option Settled → Received → Type 0
Got answer waiting = answer ≡ none
Got answer (answered a) = answer ≡ some a
Got answer aborted = Unit {0}

Good : ℕ → (ℕ → String) → (ℕ → Option Settled) → Caller → Type 0
Good next key_of answer_of c =
    (c.awaits < next) × (key_of c.awaits ≡ c.asked) × Got (answer_of c.awaits) c.received

-- Every caller of a list is good.
abbrev AllGood : ℕ → (ℕ → String) → (ℕ → Option Settled) → List Caller → Type 0
AllGood next key_of answer_of [] = Unit {0}
AllGood next key_of answer_of (c ∷ cs) =
    Good next key_of answer_of c × AllGood next key_of answer_of cs

abbrev AllGoodIn : Sharing → List Caller → Type 0
AllGoodIn s = AllGood s.next s.key_of s.answer_of

IsShared : Sharing → Type 0
IsShared s = InFlight s × Unsettled s × AllGoodIn s s.callers

begin-InFlight : (key : String) (s : Sharing) → InFlight s → InFlight (begin_call key s)
unfolding InFlight
begin-InFlight key s found k id e = ground (
  arith,
  lookup-insert key k s.next s.in_flight,
  eq_iff key k,
  found k id,
  some-injective s.next id,
)

begin-Unsettled :
    (key : String) (s : Sharing)
    → lookup key s.in_flight ≡ none
    → Unsettled s
    → Unsettled (begin_call key s)
unfolding Unsettled
begin-Unsettled key s absent kept id small free = elim (Bool-cases (eqb id s.next)) [
  | inl new ↦
      let same : id ≡ s.next = ground arith in
      rw (new, lookup-insert key key s.next s.in_flight, eq_self key) (ap some (sym same))
  | inr old ↦
      let unsettled : s.answer_of id ≡ none = ground arith in
      let held = kept id (ground arith) unsettled in
      rw (old, lookup-insert key (s.key_of id) s.next s.in_flight)
        (ground (arith, held, absent, eq_iff key (s.key_of id)))
]

-- What `on_settled` makes of a shared call that is under way.
abbrev settled_call : ℕ → Settled → Sharing → Sharing
settled_call id answer s = record s {
  in_flight = delete (s.key_of id) s.in_flight;
  answer_of = at id (some answer) s.answer_of;
  callers = map (deliver id answer) s.callers;
}

settled-InFlight :
    (id : ℕ) (answer : Settled) (s : Sharing) → InFlight s → InFlight (settled_call id answer s)
unfolding InFlight
settled-InFlight id answer s found k j e =
    let differs : (s.key_of id == k) ≡ false =
      ground (arith, lookup-delete (s.key_of id) k s.in_flight, some-ne-none j) in
    let (small, named, unsettled) =
      found k j (ground (arith, lookup-delete (s.key_of id) k s.in_flight)) in
    (small, named, ground (arith, unsettled, eq_iff (s.key_of id) k, named))

settled-Unsettled :
    (id : ℕ) (answer : Settled) (s : Sharing)
    → id < s.next
    → s.answer_of id ≡ none
    → Unsettled s
    → Unsettled (settled_call id answer s)
unfolding Unsettled
settled-Unsettled id answer s known free kept j small none_yet = elim (Bool-cases (eqb j id)) [
  | inl same ↦ absurd (some-ne-none answer (ground (arith, same, none_yet)))
  | inr other ↦
      let held = kept j small (ground (arith, other, none_yet)) in
      let mine = kept id known free in
      ground (
        arith,
        lookup-delete (s.key_of id) (s.key_of j) s.in_flight,
        eq_iff (s.key_of id) (s.key_of j),
        held,
        mine,
        some-injective id j,
      )
]

aborted-Got :
    (o : Option Settled) (r : Received) → Got o r → Got o (if is_waiting r then aborted else r)
aborted-Got o waiting got = tt
aborted-Got o (answered a) got = got
aborted-Got o aborted got = tt

settled-Got :
    (mine : Bool) (answer : Settled) (o : Option Settled) (r : Received)
    → (mine ≡ true → o ≡ none)
    → Got o r
    → Got (if mine then some answer else o) (if mine && is_waiting r then answered answer else r)
settled-Got true answer o waiting open_yet got = refl
settled-Got true answer o (answered a) open_yet got =
    absurd (some-ne-none a (sym got ∙ open_yet refl))
settled-Got true answer o aborted open_yet got = tt
settled-Got false answer o waiting open_yet got = got
settled-Got false answer o (answered a) open_yet got = got
settled-Got false answer o aborted open_yet got = tt

settled-AllGood :
    (id : ℕ) (answer : Settled) (s : Sharing) (cs : List Caller)
    → s.answer_of id ≡ none
    → AllGoodIn s cs
    → AllGoodIn (settled_call id answer s) (map (deliver id answer) cs)
unfolding Good
settled-AllGood id answer s [] free good = tt
settled-AllGood id answer s (c ∷ cs) free ((small, named, got), rest) =
    let same : eqb c.awaits id ≡ true → s.answer_of c.awaits ≡ none =
      λ e. ground (arith, e, free) in
    (
      (
        small,
        named,
        settled-Got (eqb c.awaits id) answer (s.answer_of c.awaits) c.received same got,
      ),
      settled-AllGood id answer s cs free rest,
    )

begun-AllGood :
    (key : String) (s : Sharing) (cs : List Caller)
    → AllGoodIn s cs
    → AllGoodIn (begin_call key s) cs
unfolding Good
begun-AllGood key s [] good = tt
begun-AllGood key s (c ∷ cs) ((small, named, got), rest) =
    let old : eqb c.awaits s.next ≡ false = ground (arith, small) in
    ((omega (arith, small), rw (old) named, rw (old) got), begun-AllGood key s cs rest)

aborted-AllGood :
    (n : ℕ) (s : Sharing) (cs : List Caller) → AllGoodIn s cs → AllGoodIn s (abort_at n cs)
unfolding Good abort_at
aborted-AllGood n s [] good = tt
aborted-AllGood zero s (c ∷ cs) ((small, named, got), rest) =
    ((small, named, aborted-Got (s.answer_of c.awaits) c.received got), rest)
aborted-AllGood (suc n) s (c ∷ cs) (first, rest) = (first, aborted-AllGood n s cs rest)
