-- ===== src/Examples/Toast.antt =====
-- Tests of Toast, on a page that shows and dismisses a few messages.
use fetchly.Common.{◌≡◌, refl, List, [], ◌∷◌, true, arith, length}
use fetchly.Ecma.{text, undefined}
use fetchly.Toast.{
  Happening, shows, closes, fallback_fires, container_leaves, no_toasts, restart_timer, happen,
  happen_all, show_toast, show_message, get_container, find_active_toast, message_text,
  normalize_toast_type, toast_type, is_timed, dismiss_toast, do_remove, remove_toast,
  is_active_toast, new_toast, add_toast, modify,
}
use fetchly.Toast.Duplicates.{HasNoTwins, no_twins, count}
use fetchly.Toast.Timers.{timers_settled, all_settled}
use fetchly.Examples.Sample.{sample_ecma}

abbrev failures : List Happening
failures =
    shows (text "Failed") (text "error") undefined
    ∷ shows (text "Failed") (text "danger") undefined
    ∷ closes 2
    ∷ shows (text "Failed") (text "error") undefined
    ∷ fallback_fires 2
    ∷ container_leaves
    ∷ shows (text "Done") (text "success") undefined
    ∷ []

failures_three : length (happen_all sample_ecma failures no_toasts).nodes ≡ 3
unfolding happen_all happen show_toast show_message get_container message_text toast_type
    find_active_toast is_active_toast new_toast add_toast modify is_timed dismiss_toast do_remove
    remove_toast normalize_toast_type restart_timer
failures_three = refl

empty-HasNoTwins : HasNoTwins no_toasts.nodes
unfolding count
empty-HasNoTwins c kind message = omega arith

empty-settled : all_settled no_toasts.nodes ≡ true
unfolding all_settled
empty-settled = refl

no_twins_example : HasNoTwins (happen_all sample_ecma failures no_toasts).nodes
no_twins_example = no_twins sample_ecma failures no_toasts empty-HasNoTwins

timers_settled_example : all_settled (happen_all sample_ecma failures no_toasts).nodes ≡ true
timers_settled_example = timers_settled sample_ecma failures no_toasts empty-settled
