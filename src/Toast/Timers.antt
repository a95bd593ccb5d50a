-- ===== src/Toast/Timers.antt =====
-- app/static/js/toast.js: the timers of a toast that goes, and a call that is repeated.
use fetchly.Common.{
  ℕ, String, Bool, true, false, not, ◌&&◌, ◌≡◌, refl, none, some, List, [], ◌∷◌, ◌++◌,
  if◌then◌else◌, arith, Option-cases, inl, inr,
}
use fetchly.Ecma.{Ecma}
use fetchly.Toast.{
  Toast, Toasts, is_active_toast, find_active_toast, modify, restart_timer, add_toast, show_message,
  get_container, dismiss_toast, do_remove, remove_toast, on_transition_end, on_frame,
  dismiss_children, clear_toasts, Happening, shows, closes, auto_fires, fallback_fires, draws_frame,
  transition_ends, clears, container_leaves, happen, happen_all, show_toast, new_toast,
}

abbrev is_out : Toast → Bool
is_out t = elim t.parent [ none ↦ true | some _ ↦ false ]

-- A removed toast has left its container and has no timer; one that is being dismissed has no timer to
-- dismiss it again, and one to remove it.
unfoldable pub is_settled : Toast → Bool
is_settled t =
    if t.removed
    then is_out t && t.dismissing && not t.auto_timer && not t.fallback_timer
    else if t.dismissing
    then not t.auto_timer && t.fallback_timer
    else not t.fallback_timer && not t.listening

unfoldable pub all_settled : List Toast → Bool
all_settled [] = true
all_settled (t ∷ ts) = is_settled t && all_settled ts

abbrev Settles : (Toast → Toast) → Type 0
Settles f = (t : Toast) → is_settled t ≡ true → is_settled (f t) ≡ true

modify-settled :
    (i : ℕ) (f : Toast → Toast) (ts : List Toast)
    → Settles f
    → all_settled ts ≡ true
    → all_settled (modify i f ts) ≡ true
unfolding all_settled modify
modify-settled i f [] k h = refl
modify-settled i f (t ∷ ts) k h = ground (arith, k t, modify-settled i f ts k)

dismiss_toast-Settles : Settles dismiss_toast
unfolding is_settled dismiss_toast
dismiss_toast-Settles t h = ground arith

do_remove-Settles : Settles do_remove
unfolding is_settled do_remove remove_toast
do_remove-Settles t h = ground arith

on_frame-Settles : (c : ℕ) (b : Bool) → Settles (on_frame c b)
unfolding is_settled on_frame
on_frame-Settles c b t h = ground arith

on_transition_end-Settles : (property : String) → Settles (on_transition_end property)
unfolding on_transition_end
on_transition_end-Settles property t h = ground (arith, do_remove-Settles t)

when-Settles :
    (q : Toast → Bool) (f : Toast → Toast) → Settles f → Settles (λ t. if q t then f t else t)
when-Settles q f k t h = ground (arith, k t)

restart_timer-settled :
    (c : ℕ) (kind message : String) (b : Bool) (ts : List Toast)
    → all_settled ts ≡ true
    → all_settled (restart_timer c kind message b ts) ≡ true
unfolding all_settled restart_timer is_active_toast is_settled
restart_timer-settled c kind message b [] h = refl
restart_timer-settled c kind message b (t ∷ ts) h =
    ground (arith, restart_timer-settled c kind message b ts)

append-settled :
    (ts : List Toast) (t : Toast)
    → all_settled ts ≡ true
    → is_settled t ≡ true
    → all_settled (ts ++ t ∷ []) ≡ true
unfolding all_settled
append-settled [] t h e = ground arith
append-settled (u ∷ ts) t h e = ground (arith, append-settled ts t)

new_toast-settled :
    (kind message : String) (b : Bool) (s : Toasts) → is_settled (new_toast kind message b s) ≡ true
unfolding is_settled new_toast
new_toast-settled kind message b s = refl

dismiss_children-settled :
    (c : ℕ) (ts : List Toast) → all_settled ts ≡ true → all_settled (dismiss_children c ts) ≡ true
unfolding all_settled dismiss_children
dismiss_children-settled c [] h = refl
dismiss_children-settled c (t ∷ ts) h =
    ground (arith, dismiss_toast-Settles t, dismiss_children-settled c ts)

get_container-nodes : (s : Toasts) → (get_container s).nodes ≡ s.nodes
unfolding get_container
get_container-nodes s = ground arith

show_message-settled :
    (kind message : String) (b : Bool) (s : Toasts)
    → all_settled s.nodes ≡ true
    → all_settled (show_message kind message b s).0.nodes ≡ true
unfolding show_message add_toast
show_message-settled kind message b s h =
    let w = get_container s in
    let kept : all_settled w.nodes ≡ true = rw (get_container-nodes s) h in
    elim (Option-cases (find_active_toast w.container kind message w.nodes)) [
      | inl e ↦
          rw (show_message, e) (append-settled w.nodes _ kept (new_toast-settled kind message b w))
      | inr (t, e) ↦
          rw (show_message, e) (restart_timer-settled w.container kind message b w.nodes kept)
    ]

clear_toasts-settled :
    (s : Toasts) → all_settled s.nodes ≡ true → all_settled (clear_toasts s).nodes ≡ true
unfolding clear_toasts
clear_toasts-settled s h = ground (arith, dismiss_children-settled s.container s.nodes h)

happen-settled :
    (js : Ecma) (e : Happening) (s : Toasts)
    → all_settled s.nodes ≡ true
    → all_settled (happen js e s).nodes ≡ true
unfolding happen show_toast
happen-settled js (shows message kind duration) s h = show_message-settled _ _ _ s h
happen-settled js (closes i) s h = modify-settled i _ s.nodes dismiss_toast-Settles h
happen-settled js (auto_fires i) s h =
    modify-settled i _ s.nodes (when-Settles (λ t. t.auto_timer) _ dismiss_toast-Settles) h
happen-settled js (fallback_fires i) s h =
    modify-settled i _ s.nodes (when-Settles (λ t. t.fallback_timer) _ do_remove-Settles) h
happen-settled js (draws_frame i) s h =
    modify-settled i _ s.nodes (on_frame-Settles s.container s.in_body) h
happen-settled js (transition_ends i property) s h =
    modify-settled i _ s.nodes (on_transition_end-Settles property) h
happen-settled js clears s h = clear_toasts-settled s h
happen-settled js container_leaves s h = h

-- Whatever is called and whatever happens, if every toast is settled, each is afterwards: a removed one
-- has left its container and has no timer, one that is being dismissed has the timer that removes it
-- and not the one that dismisses it, and any other has neither the timer nor the listener that removes
-- it.
pub timers_settled :
    (js : Ecma) (es : List Happening) (s : Toasts)
    → all_settled s.nodes ≡ true
    → all_settled (happen_all js es s).nodes ≡ true
unfolding happen_all
timers_settled js [] s h = h
timers_settled js (e ∷ es) s h = timers_settled js es (happen js e s) (happen-settled js e s h)
