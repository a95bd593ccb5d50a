-- ===== src/Toast/Repeat.antt =====
-- app/static/js/toast.js: a message that is shown again.
use fetchly.Common.{
  ℕ, String, Bool, true, ◌≡◌, refl, none, some, List, [], ◌∷◌, ◌++◌, arith, Option-cases, inl, inr,
  ap, length, ◌∙◌, eq_self,
}
use fetchly.Ecma.{Ecma, Value}
use fetchly.Toast.{
  Toast, Toasts, is_active_toast, find_active_toast, restart_timer, add_toast, show_message,
  get_container, show_toast, new_toast, toast_type, message_text, is_timed,
}

-- The toast found after its timer has started again is the same one, with the timer.
find-restart_timer :
    (c : ℕ) (kind message : String) (b : Bool) (ts : List Toast) (t : Toast)
    → find_active_toast c kind message ts ≡ some t
    → find_active_toast c kind message (restart_timer c kind message b ts)
      ≡ some (record t { auto_timer = b })
unfolding find_active_toast restart_timer is_active_toast
find-restart_timer c kind message b [] t e = ground arith
find-restart_timer c kind message b (u ∷ ts) t e =
    ground (arith, find-restart_timer c kind message b ts t)

find-append :
    (c : ℕ) (kind message : String) (ts : List Toast) (t : Toast)
    → find_active_toast c kind message ts ≡ none
    → is_active_toast c kind message t ≡ true
    → find_active_toast c kind message (ts ++ t ∷ []) ≡ some t
unfolding find_active_toast
find-append c kind message [] t e h = ground arith
find-append c kind message (u ∷ ts) t e h = ground (arith, find-append c kind message ts t)

new_toast-active :
    (kind message : String) (b : Bool) (s : Toasts)
    → is_active_toast s.container kind message (new_toast kind message b s) ≡ true
unfolding new_toast is_active_toast
new_toast-active kind message b s = ground (arith, eq_self kind, eq_self message)

new_toast-id :
    (kind message : String) (b : Bool) (s : Toasts) → (new_toast kind message b s).id ≡ s.next
unfolding new_toast
new_toast-id kind message b s = refl

new_toast-auto_timer :
    (kind message : String) (b : Bool) (s : Toasts) → (new_toast kind message b s).auto_timer ≡ b
unfolding new_toast
new_toast-auto_timer kind message b s = refl

get_container-in_body : (s : Toasts) → (get_container s).in_body ≡ true
unfolding get_container
get_container-in_body s = ground arith

get_container_again : (s : Toasts) → s.in_body ≡ true → get_container s ≡ s
unfolding get_container
get_container_again s h = rw h refl

length-restart_timer :
    (c : ℕ) (kind message : String) (b : Bool) (ts : List Toast)
    → length (restart_timer c kind message b ts) ≡ length ts
unfolding restart_timer
length-restart_timer c kind message b [] = refl
length-restart_timer c kind message b (t ∷ ts) =
    ground (arith, length-restart_timer c kind message b ts)

-- `findActiveToast` finds the toast with this id, and its timer runs or not.
abbrev pub Shows : String → String → ℕ → Bool → Toasts → Type 0
Shows kind message i b s =
    (t : Toast) × (find_active_toast s.container kind message s.nodes ≡ some t)
    × (t.id ≡ i)
    × (t.auto_timer ≡ b)

abbrev Result : String → String → Bool → Toasts × ℕ → Type 0
Result kind message b (u, i) = Shows kind message i b u × (u.in_body ≡ true)

show_message-Result :
    (kind message : String) (b : Bool) (s : Toasts)
    → Result kind message b (show_message kind message b s)
unfolding show_message add_toast
show_message-Result kind message b s =
    let w = get_container s in
    let inside = get_container-in_body s in
    elim (Option-cases (find_active_toast w.container kind message w.nodes)) [
      | inl e ↦
          rw (show_message, e)
            (
              (
                new_toast kind message b w,
                find-append w.container kind message w.nodes _ e
                    (new_toast-active kind message b w),
                new_toast-id kind message b w,
                new_toast-auto_timer kind message b w,
              ),
              inside,
            )
      | inr (t, e) ↦
          rw (show_message, e)
            (
              (
                record t { auto_timer = b },
                find-restart_timer w.container kind message b w.nodes t e,
                refl,
                refl,
              ),
              inside,
            )
    ]

show_message_again :
    (kind message : String) (b : Bool) (s : Toasts) (t : Toast)
    → s.in_body ≡ true
    → find_active_toast s.container kind message s.nodes ≡ some t
    → (let (u, i) = show_message kind message b s in (i ≡ t.id) × (length u.nodes ≡ length s.nodes))
unfolding show_message
show_message_again kind message b s t h e =
    let w = get_container s in
    let same : w ≡ s = get_container_again s h in
    let found : find_active_toast w.container kind message w.nodes ≡ some t = rw same e in
    rw (show_message, found)
      (
        refl,
        length-restart_timer w.container kind message b w.nodes ∙ ap (λ x. length x.nodes) same,
      )

show_message_twice :
    (kind message : String) (b c : Bool) (s : Toasts)
    → (let (u, i) = show_message kind message b s in
        let (v, j) = show_message kind message c u in
        (j ≡ i) × (length v.nodes ≡ length u.nodes) × Shows kind message i c v)
show_message_twice kind message b c s =
    let (u, i) = show_message kind message b s in
    let (v, j) = show_message kind message c u in
    let ((t, found, named, _), inside) = show_message-Result kind message b s in
    let (same, len) = show_message_again kind message c u t inside found in
    let ((r, found_again, named_again, timed), _) = show_message-Result kind message c u in
    (same ∙ named, len, (r, found_again, named_again ∙ (same ∙ named), timed))

-- A message shown twice in a row with the same type gives the same toast both times and the second call
-- adds none; the toast is active afterwards, and has a timer exactly if the second duration is positive.
pub show_toast_twice :
    (js : Ecma) (message kind first second : Value) (s : Toasts)
    → (let (u, i) = show_toast js message kind first s in
        let (v, j) = show_toast js message kind second u in
        (j ≡ i)
        × (length v.nodes ≡ length u.nodes)
        × Shows (toast_type kind) (message_text js message) i (is_timed js second) v)
unfolding show_toast
show_toast_twice js message kind first second s =
    show_message_twice (toast_type kind) (message_text js message) (is_timed js first)
      (is_timed js second) s
