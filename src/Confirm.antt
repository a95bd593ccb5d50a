-- ===== src/Confirm.antt =====
-- app/static/js/confirm.js: the one confirmation dialog of a page. Promises are numbered in the order
-- they are made; the dialog's markup is known by its texts, and Bootstrap shows and hides it.
pub mod Settled
use fetchly.Common.{
  ℕ, ◌+◌, String, Bool, true, false, not, Option, none, some, List, [], ◌∷◌, ◌==◌, if◌then◌else◌,
  contains,
}
use fetchly.Ecma.{Value, text, obj, Object, end, field, get, or_default}

abbrev pub accept_variants : List String
accept_variants = "primary" ∷ "danger" ∷ "warning" ∷ "success" ∷ []

abbrev pub safe_accept_variants : List String
safe_accept_variants = "primary" ∷ "success" ∷ []

pub data Button : Type 0 where
  accept cancel : Button

-- What a dialog shows.
pub record Texts : Type 0 where
  pub title : Value
  pub message : Value
  pub confirm_text : Value
  pub cancel_text : Value
  pub accept_variant : String
  pub focus_target : Button

-- `focused` is `lastFocused`; `settled` holds each promise that is resolved, with its value, the last
-- first.
pub record Dialog : Type 0 where
  pub texts : Option Texts
  pub pending : Option ℕ
  pub focused : Option ℕ
  pub next : ℕ
  pub settled : List (ℕ × Bool)

unfoldable pub settle : Bool → Dialog → Dialog
settle confirmed d = elim d.pending [
  | none ↦ d
  | some i ↦ record d { pending = none; settled = (i, confirmed) ∷ d.settled }
]

-- The element to focus, if the document still has it.
unfoldable pub restore_focus : (ℕ → Bool) → Dialog → Dialog × Option ℕ
restore_focus in_body d = elim d.focused [
  | none ↦ (d, none)
  | some e ↦ (record d { focused = none }, if in_body e then some e else none)
]

-- `typeof options === "string" ? { message: options } : { ...options }`
unfoldable pub config_of : Value → Object
config_of (text s) = field "message" (text s) end
config_of (obj o) = o
config_of _ = end

unfoldable pub variant_of : Value → String
variant_of (text s) = if contains s accept_variants then s else "primary"
variant_of _ = "primary"

unfoldable pub texts_of : Object → Texts
texts_of config =
    let variant = variant_of (or_default (get "variant" config) (text "primary")) in
    record {
      title = or_default (get "title" config) (text "Please confirm");
      message = or_default (get "message" config) (text "");
      confirm_text = or_default (get "confirmText" config) (text "OK");
      cancel_text = or_default (get "cancelText" config) (text "Cancel");
      accept_variant = variant;
      focus_target = if contains variant safe_accept_variants then accept else cancel;
    }

-- `confirmModal` with Bootstrap: the new promise is the one with the number `next`. The second argument
-- is `document.activeElement`, if it is an element.
unfoldable pub confirm_modal : Value → Option ℕ → Dialog → Dialog
unfolding settle
confirm_modal options active d =
    let cancelled = settle false d in
    record cancelled {
      texts = some (texts_of (config_of options));
      focused = active;
      pending = some cancelled.next;
      next = cancelled.next + 1;
    }

-- `confirmModal` without Bootstrap: what the browser's own prompt says.
unfoldable pub native_confirm : Bool → Dialog → Dialog
native_confirm answer d = record d { next = d.next + 1; settled = (d.next, answer) ∷ d.settled }

-- The listener of `hidden.bs.modal`.
unfoldable pub on_hidden : (ℕ → Bool) → Dialog → Dialog
unfolding settle restore_focus
on_hidden in_body d = (restore_focus in_body (settle false d)).0

pub data DialogEvent : Type 0 where
  opens : Value → Option ℕ → DialogEvent
  asks_natively : Bool → DialogEvent
  accepts : DialogEvent
  hides : (ℕ → Bool) → DialogEvent

unfoldable pub handle : DialogEvent → Dialog → Dialog
handle (opens options active) d = confirm_modal options active d
handle (asks_natively answer) d = native_confirm answer d
handle accepts d = settle true d
handle (hides in_body) d = on_hidden in_body d

unfoldable pub handle_all : List DialogEvent → Dialog → Dialog
handle_all [] d = d
handle_all (e ∷ es) d = handle_all es (handle e d)
