-- ===== src/Confirm/Settled.antt =====
-- app/static/js/confirm.js: how often a promise of the dialog is resolved.
use fetchly.Common.{
  ℕ, ◌+◌, ◌≡◌, Bool, true, false, Option, none, some, List, [], ◌∷◌, if◌then◌else◌, eqb, ltb, arith,
}
use fetchly.Ecma.{Value}
use fetchly.Confirm.{
  Dialog, settle, restore_focus, confirm_modal, native_confirm, on_hidden, DialogEvent, opens,
  asks_natively, accepts, hides, handle, handle_all,
}

unfoldable pub times_settled : ℕ → List (ℕ × Bool) → ℕ
times_settled i [] = 0
times_settled i ((j, _) ∷ rest) = (if eqb j i then 1 else 0) + times_settled i rest

abbrev pub times_pending : ℕ → Option ℕ → ℕ
times_pending i none = 0
times_pending i (some j) = if eqb j i then 1 else 0

-- Every promise made so far waits or was resolved, and that once; no other number is in use.
abbrev pub IsFair : Dialog → Type 0
IsFair d =
    (i : ℕ)
    → times_settled i d.settled + times_pending i d.pending ≡ (if ltb i d.next then 1 else 0)

settle-IsFair : (b : Bool) (d : Dialog) → IsFair d → IsFair (settle b d)
unfolding settle times_settled
settle-IsFair b d f i = ground (arith, f i)

next-settle : (b : Bool) (d : Dialog) → (settle b d).next ≡ d.next
unfolding settle
next-settle b d = ground arith

pending-settle : (b : Bool) (d : Dialog) → (settle b d).pending ≡ none
unfolding settle
pending-settle b d = ground arith

confirm_modal-IsFair :
    (options : Value) (active : Option ℕ) (d : Dialog)
    → IsFair d
    → IsFair (confirm_modal options active d)
unfolding confirm_modal
confirm_modal-IsFair options active d f i =
    ground (arith, settle-IsFair false d f i, pending-settle false d)

native_confirm-IsFair : (b : Bool) (d : Dialog) → IsFair d → IsFair (native_confirm b d)
unfolding native_confirm times_settled
native_confirm-IsFair b d f i = ground (arith, f i)

on_hidden-IsFair : (in_body : ℕ → Bool) (d : Dialog) → IsFair d → IsFair (on_hidden in_body d)
unfolding on_hidden restore_focus
on_hidden-IsFair in_body d f i = ground (arith, settle-IsFair false d f i)

handle-IsFair : (e : DialogEvent) (d : Dialog) → IsFair d → IsFair (handle e d)
unfolding handle
handle-IsFair (opens options active) d f = confirm_modal-IsFair options active d f
handle-IsFair (asks_natively b) d f = native_confirm-IsFair b d f
handle-IsFair accepts d f = settle-IsFair true d f
handle-IsFair (hides in_body) d f = on_hidden-IsFair in_body d f

-- Through any events in any order, if every promise returned so far either waits or was resolved exactly
-- once, and no other number is in use, the same holds afterwards.
pub settled_once : (es : List DialogEvent) (d : Dialog) → IsFair d → IsFair (handle_all es d)
unfolding handle_all
settled_once [] d f = f
settled_once (e ∷ es) d f = settled_once es (handle e d) (handle-IsFair e d f)

-- When a dialog is accepted and another one is asked for before the first has finished hiding, the end
-- of that hiding answers the second one with `false`.
pub late_hide_cancels :
    (i : ℕ) (options : Value) (active : Option ℕ) (in_body : ℕ → Bool) (d : Dialog)
    → d.pending ≡ some i
    → (let after = on_hidden in_body (confirm_modal options active (settle true d)) in
        (after.settled ≡ (d.next, false) ∷ (i, true) ∷ d.settled) × (after.pending ≡ none))
unfolding on_hidden restore_focus confirm_modal settle
late_hide_cancels i options active in_body d waits = ground arith
