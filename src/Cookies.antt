-- ===== src/Cookies.antt =====
-- app/static/js/cookie-paste.js: the dialog that takes pasted cookies. An opening is known by the value that
-- `openGeneration` has in it, and so is the promise that it returns. The markup is left out.
pub mod Settled
use fetchly.Common.{
  ℕ, ◌+◌, String, Bool, true, false, not, ◌&&◌, ◌||◌, Option, none, some, List, [], ◌∷◌, ◌==◌,
  if◌then◌else◌, eqb,
}

-- `posting` are the openings whose submit waits for its answer, `stored` those whose cookies the server took,
-- `settled` the promises resolved so far with their values.
pub record Paste : Type 0 where
  pub typed : String
  pub error : String
  pub busy : Bool
  pub open_generation : ℕ
  pub pending_resolve : Option ℕ
  pub settled : List (ℕ × Bool)
  pub posting : List ℕ
  pub stored : List ℕ

abbrev pub closed : Paste
closed = record {
  typed = "";
  error = "";
  busy = false;
  open_generation = 0;
  pending_resolve = none;
  settled = [];
  posting = [];
  stored = [];
}

abbrev pub waits_for : ℕ → List ℕ → Bool
waits_for n [] = false
waits_for n (m ∷ ms) = eqb m n || waits_for n ms

abbrev pub without : ℕ → List ℕ → List ℕ
without n [] = []
without n (m ∷ ms) = let rest = without n ms in if eqb m n then ms else m ∷ rest

unfoldable pub settle_paste : Bool → Paste → Paste
settle_paste saved p = elim p.pending_resolve [
  | none ↦ p
  | some i ↦ record p { pending_resolve = none; settled = (i, saved) ∷ p.settled }
]

-- `openCookiePasteDialog` where Bootstrap is there; `setBusy(false)` and `showError("")` included.
unfoldable pub open_dialog : Paste → Paste
open_dialog p =
    let dismissed = settle_paste false p in
    record dismissed {
      typed = "";
      error = "";
      busy = false;
      open_generation = p.open_generation + 1;
      pending_resolve = some (p.open_generation + 1);
    }

-- `submit` up to its await.
unfoldable pub submit : (String → String) → Paste → Paste
submit trim p =
    if p.busy || trim p.typed == "" || eqb p.open_generation 0
    then p
    else record p { busy = true; error = ""; posting = p.open_generation ∷ p.posting }

-- `err?.message || "Could not save these cookies"`
abbrev pub error_text : String → String
error_text message = if message == "" then "Could not save these cookies" else message

-- The rest of `submit`, in the opening `generation`; the answer is an error's message or none.
unfoldable pub end_submit : ℕ → Option String → Paste → Paste
end_submit generation (some message) p =
    let answered = record p { posting = without generation p.posting } in
    if eqb generation p.open_generation
    then record answered { error = error_text message; busy = false }
    else answered
end_submit generation none p =
    let answered = record p {
      posting = without generation p.posting;
      stored = generation ∷ p.stored;
    } in
    let accepted = settle_paste true answered in
    if eqb generation p.open_generation then record accepted { busy = false } else answered

pub data PasteEvent : Type 0 where
  opens submits hides : PasteEvent
  types : String → PasteEvent
  answers : ℕ → Option String → PasteEvent

-- `types` is the listener of `input`, `hides` that of `hidden.bs.modal`.
unfoldable pub handle_paste : (String → String) → PasteEvent → Paste → Paste
handle_paste trim opens p = open_dialog p
handle_paste trim submits p = submit trim p
handle_paste trim hides p = settle_paste false p
handle_paste trim (types s) p = record p { typed = s; error = "" }
handle_paste trim (answers generation answer) p =
    if waits_for generation p.posting then end_submit generation answer p else p

unfoldable pub run_paste : (String → String) → List PasteEvent → Paste → Paste
run_paste trim [] p = p
run_paste trim (e ∷ es) p = run_paste trim es (handle_paste trim e p)
