-- ===== src/Toast/Duplicates.antt =====
-- app/static/js/toast.js: what holds of the toasts after any sequence of calls and events.
use fetchly.Common.{
  ℕ, ◌+◌, ◌≤◌, String, Bool, true, ◌≡◌, refl, none, List, [], ◌∷◌, ◌++◌, eq_iff, if◌then◌else◌,
  arith, Option-cases, inl, inr,
}
use fetchly.Ecma.{Ecma}
use fetchly.Toast.{
  Toast, Toasts, is_active_toast, find_active_toast, modify, restart_timer, add_toast, show_message,
  get_container, dismiss_toast, do_remove, remove_toast, on_transition_end, on_frame,
  dismiss_children, clear_toasts, Happening, shows, closes, auto_fires, fallback_fires, draws_frame,
  transition_ends, clears, container_leaves, happen, happen_all, show_toast, new_toast,
}

unfoldable pub count : (Toast → Bool) → List Toast → ℕ
count p [] = 0
count p (t ∷ ts) = if p t then 1 + count p ts else count p ts

-- At most one toast of a container is shown with a type and a text.
abbrev pub HasNoTwins : List Toast → Type 0
HasNoTwins ts = (c : ℕ) (kind message : String) → count (is_active_toast c kind message) ts ≤ 1

-- A change of a toast that does not make it another one to `findActiveToast`.
abbrev Keeps : (Toast → Toast) → Type 0
Keeps f =
    (c : ℕ) (kind message : String) (t : Toast)
    → is_active_toast c kind message (f t) ≡ true
    → is_active_toast c kind message t ≡ true

count-modify :
    (p : Toast → Bool) (i : ℕ) (f : Toast → Toast) (ts : List Toast)
    → ((t : Toast) → p (f t) ≡ true → p t ≡ true)
    → count p (modify i f ts) ≤ count p ts
unfolding count modify
count-modify p i f [] h = omega arith
count-modify p i f (t ∷ ts) h = ground (arith, h t, count-modify p i f ts h)

count-dismiss_children :
    (p : Toast → Bool) (c : ℕ) (ts : List Toast)
    → ((t : Toast) → p (dismiss_toast t) ≡ true → p t ≡ true)
    → count p (dismiss_children c ts) ≤ count p ts
unfolding count dismiss_children
count-dismiss_children p c [] h = omega arith
count-dismiss_children p c (t ∷ ts) h = ground (arith, h t, count-dismiss_children p c ts h)

count-append :
    (p : Toast → Bool) (ts : List Toast) (t : Toast)
    → count p (ts ++ t ∷ []) ≡ count p ts + (if p t then 1 else 0)
unfolding count
count-append p [] t = ground arith
count-append p (u ∷ ts) t = ground (arith, count-append p ts t)

find_active_toast-none :
    (c : ℕ) (kind message : String) (ts : List Toast)
    → find_active_toast c kind message ts ≡ none
    → count (is_active_toast c kind message) ts ≡ 0
unfolding find_active_toast count
find_active_toast-none c kind message [] e = refl
find_active_toast-none c kind message (t ∷ ts) e =
    ground (arith, find_active_toast-none c kind message ts)

dismiss_toast-Keeps : Keeps dismiss_toast
unfolding dismiss_toast is_active_toast
dismiss_toast-Keeps c kind message t h = ground arith

do_remove-Keeps : Keeps do_remove
unfolding do_remove remove_toast is_active_toast
do_remove-Keeps c kind message t h = ground arith

on_transition_end-Keeps : (property : String) → Keeps (on_transition_end property)
unfolding on_transition_end
on_transition_end-Keeps property c kind message t h =
    ground (arith, do_remove-Keeps c kind message t)

on_frame-Keeps : (d : ℕ) (b : Bool) → Keeps (on_frame d b)
unfolding on_frame is_active_toast
on_frame-Keeps d b c kind message t h = ground arith

count-restart_timer :
    (c : ℕ) (kind message : String) (b : Bool) (d : ℕ) (k m : String) (ts : List Toast)
    → count (is_active_toast d k m) (restart_timer c kind message b ts)
      ≡ count (is_active_toast d k m) ts
unfolding count restart_timer is_active_toast
count-restart_timer c kind message b d k m [] = refl
count-restart_timer c kind message b d k m (t ∷ ts) =
    ground (arith, count-restart_timer c kind message b d k m ts)

modify-HasNoTwins :
    (i : ℕ) (f : Toast → Toast) (ts : List Toast)
    → Keeps f
    → HasNoTwins ts
    → HasNoTwins (modify i f ts)
modify-HasNoTwins i f ts k h c kind message = omega (
  arith,
  h c kind message,
  count-modify (is_active_toast c kind message) i f ts (k c kind message),
)

add_toast-HasNoTwins :
    (kind message : String) (b : Bool) (s : Toasts)
    → HasNoTwins s.nodes
    → find_active_toast s.container kind message s.nodes ≡ none
    → HasNoTwins (add_toast kind message b s).nodes
unfolding add_toast is_active_toast new_toast
add_toast-HasNoTwins kind message b s h e c k m = ground (
  arith,
  h c k m,
  eq_iff kind k,
  eq_iff message m,
  find_active_toast-none s.container kind message s.nodes e,
  count-append (is_active_toast c k m) s.nodes (new_toast kind message b s),
)

get_container-HasNoTwins : (s : Toasts) → HasNoTwins s.nodes → HasNoTwins (get_container s).nodes
unfolding get_container
get_container-HasNoTwins s h c kind message = ground (arith, h c kind message)

show_message-HasNoTwins :
    (kind message : String) (b : Bool) (s : Toasts)
    → HasNoTwins s.nodes
    → HasNoTwins (show_message kind message b s).0.nodes
unfolding show_message
show_message-HasNoTwins kind message b s h =
    let w = get_container s in
    let kept : HasNoTwins w.nodes = get_container-HasNoTwins s h in
    elim (Option-cases (find_active_toast w.container kind message w.nodes)) [
      | inl e ↦ rw (show_message, e) (add_toast-HasNoTwins kind message b w kept e)
      | inr (t, e) ↦
          rw (show_message, e)
            λ d k m.
              omega
                (arith, kept d k m, count-restart_timer w.container kind message b d k m w.nodes)
    ]

dismiss_if-Keeps :
    (q : Toast → Bool) (f : Toast → Toast) → Keeps f → Keeps (λ t. if q t then f t else t)
dismiss_if-Keeps q f k c kind message t h = ground (arith, k c kind message t)

clear_toasts-HasNoTwins : (s : Toasts) → HasNoTwins s.nodes → HasNoTwins (clear_toasts s).nodes
unfolding clear_toasts
clear_toasts-HasNoTwins s h c kind message = ground (
  arith,
  h c kind message,
  count-dismiss_children (is_active_toast c kind message) s.container s.nodes
      (dismiss_toast-Keeps c kind message),
)

happen-HasNoTwins :
    (js : Ecma) (e : Happening) (s : Toasts) → HasNoTwins s.nodes → HasNoTwins (happen js e s).nodes
unfolding happen show_toast
happen-HasNoTwins js (shows message kind duration) s h = show_message-HasNoTwins _ _ _ s h
happen-HasNoTwins js (closes i) s h = modify-HasNoTwins i _ s.nodes dismiss_toast-Keeps h
happen-HasNoTwins js (auto_fires i) s h =
    modify-HasNoTwins i _ s.nodes (dismiss_if-Keeps (λ t. t.auto_timer) _ dismiss_toast-Keeps) h
happen-HasNoTwins js (fallback_fires i) s h =
    modify-HasNoTwins i _ s.nodes (dismiss_if-Keeps (λ t. t.fallback_timer) _ do_remove-Keeps) h
happen-HasNoTwins js (draws_frame i) s h =
    modify-HasNoTwins i _ s.nodes (on_frame-Keeps s.container s.in_body) h
happen-HasNoTwins js (transition_ends i property) s h =
    modify-HasNoTwins i _ s.nodes (on_transition_end-Keeps property) h
happen-HasNoTwins js clears s h = clear_toasts-HasNoTwins s h
happen-HasNoTwins js container_leaves s h = h

-- Whatever is called and whatever happens, if no container shows two toasts of one type and text that
-- are not being dismissed, none does afterwards.
pub no_twins :
    (js : Ecma) (es : List Happening) (s : Toasts)
    → HasNoTwins s.nodes
    → HasNoTwins (happen_all js es s).nodes
unfolding happen_all
no_twins js [] s h = h
no_twins js (e ∷ es) s h = no_twins js es (happen js e s) (happen-HasNoTwins js e s h)
