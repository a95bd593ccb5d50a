-- ===== src/Events/Reconcile/Passes.antt =====
-- app/static/js/events.js: how long a reconciliation goes on.
use fetchly.Common.{
  ◌+◌, ◌≤◌, ◌≡◌, ap, Bool, true, false, Option, none, some, List, [], ◌∷◌, if◌then◌else◌, length,
  arith, Bool-cases, inl, inr,
}
use mathlib.Core.Bool.{false≢true}
use fetchly.Ecma.{Value}
use fetchly.Config.{Env}
use fetchly.Events.Queue.{Live}
use fetchly.Events.Reconcile.{
  Reconciliation, reconcile_visible_jobs, next_pass, end_pass, reconcile_once, max_reconcile_passes,
}

-- What a request gives, and whether the function was called again during it.
abbrev pub Answer : Type 0
Answer = Bool × Option Value

abbrev called_again : Bool → Live → Reconciliation → Reconciliation
called_again again l c = if again then reconcile_visible_jobs l c else c

-- The loop of `reconcileVisibleJobs` over these answers, until it ends.
unfoldable pub passes : Env → List Answer → Live → Reconciliation → Live × Reconciliation
passes env [] l c = (l, c)
passes env ((again, answer) ∷ answers) l c =
    let (next, d) = end_pass env answer l (called_again again l c) in
    let rest = passes env answers next d in if c.in_flight then rest else (l, c)

next_pass-finishes :
    (l : Live) (b : Bool) (c : Reconciliation)
    → max_reconcile_passes ≤ c.pass + 1
    → (next_pass l b c).in_flight ≡ false
unfolding next_pass
next_pass-finishes l b c h = ground arith

next_pass-counts :
    (l : Live) (b : Bool) (c : Reconciliation)
    → (next_pass l b c).in_flight ≡ true
    → (next_pass l b c).pass ≡ c.pass + 1
unfolding next_pass
next_pass-counts l b c h = ground arith

next_pass-below :
    (l : Live) (b : Bool) (c : Reconciliation)
    → (next_pass l b c).in_flight ≡ true
    → c.pass + 2 ≤ max_reconcile_passes
unfolding next_pass
next_pass-below l b c h = ground arith

passes_idle :
    (env : Env) (answers : List Answer) (l : Live) (c : Reconciliation)
    → c.in_flight ≡ false
    → (passes env answers l c).1.in_flight ≡ false
unfolding passes
passes_idle env [] l c h = h
passes_idle env (answer ∷ answers) l c h = ground arith

again-pass :
    (b : Bool) (l : Live) (c : Reconciliation)
    → c.in_flight ≡ true
    → (called_again b l c).pass ≡ c.pass
unfolding reconcile_visible_jobs
again-pass b l c h = ground arith

-- A pass that does not end the loop leaves one for less.
end_pass-counts :
    (env : Env) (answer : Option Value) (l : Live) (c : Reconciliation)
    → (end_pass env answer l c).1.in_flight ≡ true
    → ((end_pass env answer l c).1.pass ≡ c.pass + 1) × (c.pass + 2 ≤ max_reconcile_passes)
unfolding end_pass
end_pass-counts env none l c h = absurd (false≢true h)
end_pass-counts env (some v) l c h =
    let (after, skipped) = reconcile_once env c.start_epoch v l in
    (next_pass-counts after skipped c h, next_pass-below after skipped c h)

passes_busy :
    (env : Env) (again : Bool) (answer : Option Value) (answers : List Answer) (l : Live)
    (c : Reconciliation)
    → c.in_flight ≡ true
    → passes env ((again, answer) ∷ answers) l c ≡ (
        let (next, d) = end_pass env answer l (called_again again l c) in passes env answers next d)
unfolding passes
passes_busy env again answer answers l c busy =
    let (next, d) = end_pass env answer l (called_again again l c) in
    ap (λ b. if b then passes env answers next d else (l, c)) busy

passes_end :
    (env : Env) (answers : List Answer) (l : Live) (c : Reconciliation)
    → c.pass + 1 ≤ max_reconcile_passes
    → max_reconcile_passes ≤ c.pass + length answers
    → (passes env answers l c).1.in_flight ≡ false
unfolding passes
passes_end env [] l c low enough = absurd (omega arith)
passes_end env ((again, answer) ∷ answers) l c low enough = elim (Bool-cases c.in_flight) [
  | inr idle ↦ passes_idle env ((again, answer) ∷ answers) l c idle
  | inl busy ↦
      let before = called_again again l c in
      let same = again-pass again l c busy in
      let (next, d) = end_pass env answer l before in
      rw (passes_busy env again answer answers l c busy) (elim (Bool-cases d.in_flight) [
        | inr over ↦ passes_idle env answers next d over
        | inl going ↦
            let (count, room) = end_pass-counts env answer l before going in
            passes_end env answers next d (omega arith) (omega arith)
      ])
]

-- A reconciliation that starts while none runs ends with its third request at the latest, whatever the
-- requests give and however often it is called meanwhile.
pub reconciliation_ends :
    (env : Env) (answers : List Answer) (l : Live) (c : Reconciliation)
    → c.in_flight ≡ false
    → max_reconcile_passes ≤ length answers
    → (passes env answers l (reconcile_visible_jobs l c)).1.in_flight ≡ false
unfolding reconcile_visible_jobs
reconciliation_ends env answers l c idle enough =
    passes_end env answers l (reconcile_visible_jobs l c) (ground arith) (ground arith)
