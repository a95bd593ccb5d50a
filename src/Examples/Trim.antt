-- ===== src/Examples/Trim.antt =====
-- A selection that is moved while its file is cut.
use fetchly.Common.{◌≡◌, refl, true, false, some, List, [], ◌∷◌}
use fetchly.Trim.{
  Trim, Regions, IsDocumented, on_region_created, on_region_removed, mark_selection_changed,
  nothing_selected, TrimEvent, ready, ask, step, answer, run_trim, on_trim_event,
  create_default_selection, begin_trim, end_trim, handle_keydown, apply_selection_range,
}
use fetchly.Times.{clamp}
use fetchly.Trim.Sound.{is_proper_if_some, is_file_of}
use fetchly.Trim.Bound.{selection_is_proper, file_is_of_selection}

abbrev plugin : Regions
plugin = record {
  add_region = on_region_created;
  remove_region = on_region_removed;
  set_options = λ r t. record t { region = some r };
}

plugin-IsDocumented : IsDocumented plugin
unfolding IsDocumented
plugin-IsDocumented = (λ r t. refl, λ t. refl, λ r t. refl)

-- The file of the first five seconds comes after the end has been moved, and is not kept; the next one is.
abbrev moved_while_cut : List TrimEvent
moved_while_cut = ready ∷ ask ∷ step false false true ∷ answer true ∷ ask ∷ answer true ∷ []

abbrev after_moves : Trim
after_moves = run_trim plugin 20_000_000 600_000_000 moved_while_cut nothing_selected

file_of_ten_seconds : after_moves.trim_id ≡ some (record { start = 0; end = 10_000_000 })
unfolding run_trim on_trim_event create_default_selection begin_trim end_trim handle_keydown
    apply_selection_range on_region_created mark_selection_changed clamp
file_of_ten_seconds = refl

selection_is_proper_example : is_proper_if_some 20_000_000 after_moves.region ≡ true
selection_is_proper_example =
    selection_is_proper plugin plugin-IsDocumented 20_000_000 600_000_000 moved_while_cut

file_is_of_selection_example : is_file_of after_moves.region after_moves.trim_id ≡ true
file_is_of_selection_example =
    file_is_of_selection plugin plugin-IsDocumented 20_000_000 600_000_000 moved_while_cut
