-- ===== src/Toast.antt =====
-- app/static/js/toast.js: the toasts in the container, their timers and their removal.
-- `nodes` holds every toast built so far, in document order; one that left the document has no
-- parent. A timer is a flag: `clearTimeout` and the write of `null` always go together.
pub mod Duplicates
pub mod Timers
pub mod Repeat
use fetchly.Common.{
  ℕ, ◌+◌, ◌*◌, String, Bool, true, false, not, ◌&&◌, ◌||◌, Option, none, some, List, [], ◌∷◌, ◌++◌,
  ◌==◌, if◌then◌else◌, eqb, contains,
}
use fetchly.Common.Int.{ℤ, pos, negsuc}
use fetchly.Ecma.{
  Ecma, Number, nan, infinite, finite, Value, undefined, text, or_nullish, or_default, string_of,
  number_of, num, unit,
}

pub record Toast : Type 0 where
  pub id : ℕ
  pub kind : String
  pub message : String
  pub parent : Option ℕ
  pub dismissing : Bool
  pub removed : Bool
  pub auto_timer : Bool
  pub fallback_timer : Bool
  pub visible : Bool
  -- the listener of `transitionend`
  pub listening : Bool

-- `in_body` says that the document contains the container.
pub record Toasts : Type 0 where
  pub container : ℕ
  pub in_body : Bool
  pub next : ℕ
  pub nodes : List Toast

abbrev pub valid_types : List String
valid_types = "success" ∷ "danger" ∷ "warning" ∷ "info" ∷ []

abbrev pub toast_duration : Number
toast_duration = finite (pos (3000 * unit))

-- `n > 0`; `infinite true` is `Infinity`.
abbrev pub is_positive : Number → Bool
is_positive nan = false
is_positive (infinite b) = b
is_positive (finite (pos n)) = not (eqb n 0)
is_positive (finite (negsuc n)) = false

-- Before the first toast there is no container in the document.
abbrev pub no_toasts : Toasts
no_toasts = record { container = 0; in_body = false; next = 1; nodes = [] }

unfoldable pub get_container : Toasts → Toasts
get_container s =
    if s.in_body then s else record s { container = s.next; in_body = true; next = s.next + 1 }

unfoldable pub normalize_toast_type : Value → String
normalize_toast_type (text s) =
    if s == "error" then "danger" else if contains s valid_types then s else "info"
normalize_toast_type _ = "info"

unfoldable pub remove_toast : Toast → Toast
remove_toast t = if t.removed then t else record t {
  removed = true;
  dismissing = true;
  auto_timer = false;
  fallback_timer = false;
  parent = none;
}

abbrev pub is_child : ℕ → Toast → Bool
is_child c t = elim t.parent [ none ↦ false | some p ↦ eqb p c ]

-- The test of `findActiveToast` on a toast of the document.
unfoldable pub is_active_toast : ℕ → String → String → Toast → Bool
is_active_toast c kind message t =
    is_child c t && t.kind == kind && not t.dismissing && t.message == message

unfoldable pub find_active_toast : ℕ → String → String → List Toast → Option Toast
find_active_toast c kind message [] = none
find_active_toast c kind message (t ∷ ts) =
    if is_active_toast c kind message t then some t else find_active_toast c kind message ts

unfoldable pub modify : ℕ → (Toast → Toast) → List Toast → List Toast
modify i f [] = []
modify i f (t ∷ ts) = (if eqb t.id i then f t else t) ∷ modify i f ts

abbrev pub modify_node : ℕ → (Toast → Toast) → Toasts → Toasts
modify_node i f s = record s { nodes = modify i f s.nodes }

-- The timer of the toast that `findActiveToast` gives starts again, if the duration has one.
unfoldable pub restart_timer : ℕ → String → String → Bool → List Toast → List Toast
restart_timer c kind message timed [] = []
restart_timer c kind message timed (t ∷ ts) =
    if is_active_toast c kind message t
    then record t { auto_timer = timed } ∷ ts
    else t ∷ restart_timer c kind message timed ts

unfoldable pub new_toast : String → String → Bool → Toasts → Toast
new_toast kind message timed s = record {
  id = s.next;
  kind = kind;
  message = message;
  parent = some s.container;
  dismissing = false;
  removed = false;
  auto_timer = timed;
  fallback_timer = false;
  visible = false;
  listening = false;
}

unfoldable pub add_toast : String → String → Bool → Toasts → Toasts
add_toast kind message timed s = record s {
  next = s.next + 1;
  nodes = s.nodes ++ new_toast kind message timed s ∷ [];
}

-- `showToast` once its arguments are read, with the toast it returns.
unfoldable pub show_message : String → String → Bool → Toasts → Toasts × ℕ
unfolding get_container
show_message kind message timed s =
    let w = get_container s in
    elim (find_active_toast w.container kind message w.nodes) [
      | none ↦ (add_toast kind message timed w, w.next)
      | some t ↦ (record w { nodes = restart_timer w.container kind message timed w.nodes }, t.id)
    ]

unfoldable pub message_text : Ecma → Value → String
message_text js (text s) = s
message_text js v = string_of js (or_nullish v (text ""))

-- The type and the duration, with their defaults.
unfoldable pub toast_type : Value → String
toast_type kind = normalize_toast_type (or_default kind (text "info"))

unfoldable pub is_timed : Ecma → Value → Bool
is_timed js duration = is_positive (number_of js (or_default duration (num toast_duration)))

unfoldable pub show_toast : Ecma → Value → Value → Value → Toasts → Toasts × ℕ
show_toast js message kind duration s =
    show_message (toast_type kind) (message_text js message) (is_timed js duration) s

unfoldable pub dismiss_toast : Toast → Toast
dismiss_toast t = if elim t.parent [ none ↦ true | some _ ↦ t.dismissing ] then t else record t {
  dismissing = true;
  auto_timer = false;
  visible = false;
  listening = true;
  fallback_timer = true;
}

-- `doRemove`
unfoldable pub do_remove : Toast → Toast
unfolding remove_toast
do_remove t = remove_toast (record t { listening = false })

-- `onTransitionEnd` for an event on the toast itself
unfoldable pub on_transition_end : String → Toast → Toast
unfolding do_remove
on_transition_end property t = if t.listening && property == "opacity" then do_remove t else t

-- The animation frame asked for with a new toast.
unfoldable pub on_frame : ℕ → Bool → Toast → Toast
on_frame c in_body t =
    if not t.dismissing && is_child c t && in_body then record t { visible = true } else t

unfoldable pub dismiss_children : ℕ → List Toast → List Toast
dismiss_children c [] = []
dismiss_children c (t ∷ ts) = (if is_child c t then dismiss_toast t else t) ∷ dismiss_children c ts

unfoldable pub clear_toasts : Toasts → Toasts
clear_toasts s = if s.in_body then record s { nodes = dismiss_children s.container s.nodes } else s

-- What can happen to the toasts: the calls of the other modules, the close button, the timers that
-- run, the frame, the end of a transition, and the loss of the container.
pub data Happening : Type 0 where
  shows : Value → Value → Value → Happening
  closes auto_fires fallback_fires draws_frame : ℕ → Happening
  transition_ends : ℕ → String → Happening
  clears container_leaves : Happening

unfoldable pub happen : Ecma → Happening → Toasts → Toasts
unfolding show_toast
happen js (shows message kind duration) s = (show_toast js message kind duration s).0
happen js (closes i) s = modify_node i dismiss_toast s
happen js (auto_fires i) s = modify_node i (λ t. if t.auto_timer then dismiss_toast t else t) s
happen js (fallback_fires i) s = modify_node i (λ t. if t.fallback_timer then do_remove t else t) s
happen js (draws_frame i) s = modify_node i (on_frame s.container s.in_body) s
happen js (transition_ends i property) s = modify_node i (on_transition_end property) s
happen js clears s = clear_toasts s
happen js container_leaves s = record s { in_body = false }

unfoldable pub happen_all : Ecma → List Happening → Toasts → Toasts
happen_all js [] s = s
happen_all js (h ∷ hs) s = happen_all js hs (happen js h s)
