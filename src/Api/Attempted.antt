-- ===== src/Api/Attempted.antt =====
-- app/static/js/api.js, `_apiCall`: how a call with retries ends.
use fetchly.Common.{
  ℕ, zero, suc, ◌+◌, ◌*◌, ◌^◌, ◌≤◌, ◌≡◌, refl, ap, ◌∙◌, Bool, true, false, ◌&&◌, List, [], ◌∷◌,
  ◌++◌, ltb, arith, Bool-cases, if_both, and_false, subst, inl, inr,
}
use native.Mathlib.Nat.{two-pow-succ}
use fetchly.Api.{Web, retry_delay_ms}
use fetchly.Api.Attempts.{
  Attempt, Settled, Event, sends, sleeps, last_word, goes_on, verdict, sent, attempts,
  api_call_from,
}

abbrev pub requests : List Event → ℕ
requests [] = 0
requests (sends n ∷ rest) = 1 + requests rest
requests (sleeps ms ∷ rest) = requests rest

abbrev pub slept : List Event → ℕ
slept [] = 0
slept (sends n ∷ rest) = slept rest
slept (sleeps ms ∷ rest) = ms + slept rest

requests-append : (xs ys : List Event) → requests (xs ++ ys) ≡ requests xs + requests ys
requests-append [] ys = omega arith
requests-append (sends n ∷ xs) ys = omega (arith, requests-append xs ys)
requests-append (sleeps ms ∷ xs) ys = requests-append xs ys

slept-append : (xs ys : List Event) → slept (xs ++ ys) ≡ slept xs + slept ys
slept-append [] ys = omega arith
slept-append (sends n ∷ xs) ys = slept-append xs ys
slept-append (sleeps ms ∷ xs) ys = omega (arith, slept-append xs ys)

doubled : (n : ℕ) → retry_delay_ms (n + 1) ≡ 2 * retry_delay_ms n
unfolding retry_delay_ms
doubled n =
    let step : 2 ^ (n + 1) ≡ 2 ^ n + 2 ^ n =
      ap (λ m. 2 ^ m) {x = n + 1} (omega arith) ∙ two-pow-succ n in
    omega arith

module _ (web : Web) (timeout_ms : ℕ) (network : ℕ → Attempt) where
  abbrev pub goes_on_at : ℕ → Bool
  goes_on_at n = goes_on web (verdict web timeout_ms network n) (network n)

  abbrev pub word_at : ℕ → Settled
  word_at n = last_word web (verdict web timeout_ms network n)

  -- So many attempts in a row, from one on, are each followed by another.
  abbrev pub all_go_on : ℕ → ℕ → Bool
  all_go_on start zero = true
  all_go_on start (suc k) = goes_on_at start && all_go_on (start + 1) k

  -- The attempts from `start` on end with attempt `n`, the one `k` after it.
  EndsAt : ℕ → ℕ → ℕ → ℕ → Type 0
  EndsAt left start k n =
      let ended = attempts web timeout_ms network left start in
      (n ≡ start + k)
      × (k ≤ left)
      × (ended.result ≡ word_at n)
      × (all_go_on start k ≡ true)
      × ((goes_on_at n && ltb k left) ≡ false)
      × (requests ended.events ≤ k + 1)
      × (slept ended.events + retry_delay_ms start ≡ retry_delay_ms n)

  abbrev sent_at : ℕ → List Event
  sent_at n = sent web n (network n)

  sent_lem : (n : ℕ) → (requests (sent_at n) ≤ 1) × (slept (sent_at n) ≡ 0)
  sent_lem n =
      if_both (λ events. (requests events ≤ 1) × (slept events ≡ 0)) (network n).aborted_before
        (omega arith, refl) (omega arith, refl)

  attempts_end : (left start : ℕ) → (k : ℕ) × (n : ℕ) × EndsAt left start k n
  unfolding attempts EndsAt
  attempts_end zero start =
      let (few, quiet) = sent_lem start in
      (0, start, (omega arith, omega arith, refl, refl, and_false _, few, omega (arith, quiet)))
  attempts_end (suc left) start =
      let (few, quiet) = sent_lem start in
      elim (Bool-cases (goes_on_at start)) [
        | inl on ↦
            let (k, n, ends) = attempts_end left (start + 1) in
            let (place, small, result, all, stop, sparse, pause) = ends in
            let next = (attempts web timeout_ms network left (start + 1)).events in
            let later = sleeps (retry_delay_ms start) ∷ next in
            (
              suc k,
              n,
              (
                omega (arith, place),
                omega (arith, small),
                rw (on) result,
                rw (on) all,
                ground (arith, stop),
                rw (on, requests-append (sent_at start) later) (omega (arith, few, sparse)),
                rw (on, slept-append (sent_at start) later)
                    (omega (arith, quiet, pause, doubled start)),
              ),
            )
        | inr off ↦ (
          0,
          start,
          (
            omega arith,
            omega arith,
            rw (off) refl,
            refl,
            rw (off) refl,
            rw (off) few,
            rw (off) (omega (arith, quiet)),
          ),
        )
      ]

  -- A call with retries ends with some attempt, at most `retries` after the first: its result is that of the
  -- attempt, every attempt before it was to be followed by another, and it is the last one allowed or is not
  -- to be followed. No more requests are sent than attempts made, and the pauses double from 250 milliseconds.
  pub call_ends :
      (retries : ℕ)
      → let ended = api_call_from web timeout_ms network retries in
        (n : ℕ) × (n ≤ retries)
        × (ended.result ≡ word_at n)
        × (all_go_on 0 n ≡ true)
        × ((goes_on_at n && ltb n retries) ≡ false)
        × (requests ended.events ≤ n + 1)
        × (slept ended.events + 250 ≡ 250 * 2 ^ n)
  unfolding api_call_from EndsAt retry_delay_ms
  call_ends retries =
      let (k, n, ends) = attempts_end retries 0 in
      let same : n ≡ k = omega (arith, ends.0) in
      let (_, small, result, all, stop, few, pause) = subst (λ m. EndsAt retries 0 k m) same ends in
      (k, small, result, all, stop, few, pause)
