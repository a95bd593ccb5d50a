-- ===== src/Cookies/Settled.antt =====
-- app/static/js/cookie-paste.js: how the promises of the dialog are resolved.
use fetchly.Common.{
  ℕ, ◌+◌, ◌≡◌, refl, String, Bool, true, false, not, ◌&&◌, ◌||◌, Option, none, some, List, [], ◌∷◌,
  if◌then◌else◌, eqb, leb, arith, if_both,
}
use fetchly.Confirm.Settled.{times_settled, times_pending}
use fetchly.Cookies.{
  Paste, closed, waits_for, settle_paste, open_dialog, submit, end_submit, PasteEvent, opens,
  submits, hides, types, answers, handle_paste, run_paste,
}

-- Whether a promise was resolved with `true`.
abbrev pub was_saved : ℕ → List (ℕ × Bool) → Bool
was_saved i [] = false
was_saved i ((j, b) ∷ rest) = eqb j i && b || was_saved i rest

abbrev pub is_current : ℕ → Option ℕ → Bool
is_current n none = true
is_current n (some i) = eqb i n

-- Every opening waits or was resolved once, the one that waits is the last, and only an opening whose cookies
-- were taken was resolved with `true`.
IsSettledAt : Paste → ℕ → Type 0
IsSettledAt p i =
    (times_settled i p.settled + times_pending i p.pending_resolve
      ≡ (if leb 1 i && leb i p.open_generation then 1 else 0))
    × (is_current p.open_generation p.pending_resolve ≡ true)
    × ((was_saved i p.settled && not (waits_for i p.stored)) ≡ false)

settle-IsSettledAt : (p : Paste) (i : ℕ) → IsSettledAt p i → IsSettledAt (settle_paste false p) i
unfolding IsSettledAt settle_paste times_settled
settle-IsSettledAt p i (once, current, saved) = ground arith

open-IsSettledAt : (p : Paste) (i : ℕ) → IsSettledAt p i → IsSettledAt (open_dialog p) i
unfolding IsSettledAt open_dialog settle_paste times_settled
open-IsSettledAt p i (once, current, saved) = ground arith

submit-IsSettledAt :
    (trim : String → String) (p : Paste) (i : ℕ) → IsSettledAt p i → IsSettledAt (submit trim p) i
unfolding IsSettledAt submit
submit-IsSettledAt trim p i (once, current, saved) = ground arith

end-IsSettledAt :
    (generation : ℕ) (answer : Option String) (p : Paste) (i : ℕ)
    → IsSettledAt p i
    → IsSettledAt (end_submit generation answer p) i
unfolding IsSettledAt end_submit settle_paste times_settled
end-IsSettledAt generation (some message) p i (once, current, saved) = ground arith
end-IsSettledAt generation none p i (once, current, saved) = ground arith

typed-IsSettledAt :
    (s : String) (p : Paste) (i : ℕ)
    → IsSettledAt p i
    → IsSettledAt (record p { typed = s; error = "" }) i
unfolding IsSettledAt
typed-IsSettledAt s p i h = h

handle-IsSettledAt :
    (trim : String → String) (e : PasteEvent) (p : Paste) (i : ℕ)
    → IsSettledAt p i
    → IsSettledAt (handle_paste trim e p) i
unfolding handle_paste
handle-IsSettledAt trim opens p i h = open-IsSettledAt p i h
handle-IsSettledAt trim submits p i h = submit-IsSettledAt trim p i h
handle-IsSettledAt trim hides p i h = settle-IsSettledAt p i h
handle-IsSettledAt trim (types s) p i h = typed-IsSettledAt s p i h
handle-IsSettledAt trim (answers generation answer) p i h =
    if_both (λ q. IsSettledAt q i) (waits_for generation p.posting)
      (end-IsSettledAt generation answer p i h) h

run-IsSettledAt :
    (trim : String → String) (events : List PasteEvent) (p : Paste) (i : ℕ)
    → IsSettledAt p i
    → IsSettledAt (run_paste trim events p) i
unfolding run_paste
run-IsSettledAt trim [] p i h = h
run-IsSettledAt trim (e ∷ es) p i h =
    run-IsSettledAt trim es (handle_paste trim e p) i (handle-IsSettledAt trim e p i h)

closed-IsSettledAt : (i : ℕ) → IsSettledAt closed i
unfolding IsSettledAt times_settled
closed-IsSettledAt i = (ground arith, refl, refl)

-- After any events in any order, late answers included, every opening of the dialog so far waits or was
-- resolved exactly once, and none was resolved as saved whose own cookies the server did not take.
pub saved_by_own_submit :
    (trim : String → String) (events : List PasteEvent) (i : ℕ)
    → let p = run_paste trim events closed in
      (times_settled i p.settled + times_pending i p.pending_resolve
        ≡ (if leb 1 i && leb i p.open_generation then 1 else 0))
      × ((was_saved i p.settled && not (waits_for i p.stored)) ≡ false)
unfolding IsSettledAt
saved_by_own_submit trim events i =
    let (once, current, saved) = run-IsSettledAt trim events closed i (closed-IsSettledAt i) in
    (once, saved)
