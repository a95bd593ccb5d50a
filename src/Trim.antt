-- ===== src/Trim.antt =====
-- app/static/js/trim.js: the selection of the trim dialog and the file that is cut from it, from the opening of the
-- dialog until its closing. Times are millionths of a second; a difference that the code clamps from below by 0 is
-- the one of ℕ.
pub mod Sound
pub mod Bound
use fetchly.Common.{
  ℕ, ◌+◌, ◌-◌, ◌*◌, Bool, true, false, not, ◌||◌, ◌&&◌, Option, none, some, List, [], ◌∷◌,
  if◌then◌else◌, eqb, ltb, leb, min, ◌≡◌,
}
use fetchly.Common.Int.{pos}
use fetchly.Ecma.{finite}
use fetchly.Times.{clamp, normalize_time_range, snap_interval}

abbrev pub min_selection : ℕ
min_selection = 1_000_000

abbrev pub default_selection : ℕ
default_selection = 5_000_000

pub record Range : Type 0 where
  pub start : ℕ
  pub end : ℕ

pub data Handle : Type 0 where
  start_handle end_handle body : Handle

-- `selectionDragState`
pub record Drag : Type 0 where
  pub mode : Handle
  pub pointer_time : ℕ
  pub from : Range

-- A request for a file, with the revision and the range it was started for.
pub record TrimRequest : Type 0 where
  pub for_revision : ℕ
  pub range : Range

-- `trim_id` is known by the range that the file was asked for; `request` is some while `trimRequestBusy` is set.
pub record Trim : Type 0 where
  pub region : Option Range
  pub drag : Option Drag
  pub pending_start : Option ℕ
  pub trim_id : Option Range
  pub revision : ℕ
  pub request : Option TrimRequest

abbrev pub nothing_selected : Trim
nothing_selected = record {
  region = none;
  drag = none;
  pending_start = none;
  trim_id = none;
  revision = 0;
  request = none;
}

unfoldable pub mark_selection_changed : Trim → Trim
mark_selection_changed t = record t { revision = t.revision + 1; trim_id = none }

-- The listener of `region-created`.
unfoldable pub on_region_created : Range → Trim → Trim
on_region_created r t = mark_selection_changed (record t { region = some r })

-- The listener of `region-removed`, for the region of the dialog.
unfoldable pub on_region_removed : Trim → Trim
on_region_removed t = mark_selection_changed (record t { region = none; drag = none })

-- The plugin for regions: what its calls make of the state, its listeners included.
pub record Regions : Type 0 where
  pub add_region : Range → Trim → Trim
  pub remove_region : Trim → Trim
  pub set_options : Range → Trim → Trim

-- It calls the listeners before it returns, and sets the bounds of a region that is there.
unfoldable pub IsDocumented : Regions → Type 0
IsDocumented plugin =
    ((r : Range) (t : Trim) → plugin.add_region r t ≡ on_region_created r t)
    × ((t : Trim) → plugin.remove_region t ≡ on_region_removed t)
    × ((r : Range) (t : Trim) → plugin.set_options r t ≡ record t { region = some r })

abbrev pub with_region {ℓ} : {A : Type ℓ} → A → (Range → A) → Option Range → A
with_region a f none = a
with_region a f (some r) = f r

-- What the user does with the pointer and the keys, and the answer to a request; a step is a left or a right key.
pub data TrimEvent : Type 0 where
  ready reset pointer_up ask : TrimEvent
  clicks pointer_move : ℕ → TrimEvent
  pointer_down : Handle → ℕ → TrimEvent
  step : Bool → Bool → Bool → TrimEvent
  answer : Bool → TrimEvent

-- `duration` is that of the track and `longest` the longest range that is cut.
module _ (plugin : Regions) (duration longest : ℕ) where
  abbrev pub within : ℕ → ℕ → ℕ → ℕ
  within low high n = clamp (finite (pos n)) low high

  unfoldable pub apply_selection_range : ℕ → ℕ → Trim → Trim
  apply_selection_range start end t =
      let s = within 0 duration start in
      let e = within 0 duration end in
      if ltb (e - s) min_selection
      then t
      else mark_selection_changed (plugin.set_options (record { start = s; end = e }) t)

  -- `trimRegion?.remove(); trimRegion = null`
  abbrev pub drop_region : Trim → Trim
  drop_region t = record (with_region t (λ r. plugin.remove_region t) t.region) {
    region = none;
    drag = none;
  }

  unfoldable pub create_default_selection : Trim → Trim
  create_default_selection t =
      let end = min default_selection duration in
      if ltb end min_selection then t else plugin.add_region (record { start = 0; end = end }) t

  unfoldable pub handle_wave_reset : Trim → Trim
  handle_wave_reset t =
      let u = drop_region (record t { pending_start = none }) in
      record u { trim_id = none; revision = u.revision + 1 }

  abbrev pub second_click : ℕ × ℕ → Trim → Trim
  second_click (start, end) t =
      if ltb (end - start) min_selection
      then drop_region t
      else plugin.add_region (record { start = start; end = end }) (drop_region t)

  abbrev pub click_from : Option ℕ → ℕ → Trim → Trim
  click_from none time t = drop_region (record t { pending_start = some time; trim_id = none })
  click_from (some first) time t =
      second_click
        (normalize_time_range (finite (pos first)) (finite (pos time)) (finite (pos duration)))
        (record t { pending_start = none })

  unfoldable pub handle_wave_click : ℕ → Trim → Trim
  handle_wave_click time t = click_from t.pending_start time t

  unfoldable pub handle_pointer_down : Handle → ℕ → Trim → Trim
  handle_pointer_down mode time t =
      with_region t
        (λ r. record t { drag = some (record { mode = mode; pointer_time = time; from = r }) })
        t.region

  abbrev pub move_start : ℕ → Range → Trim → Trim
  move_start time r t = apply_selection_range (within 0 (r.end - min_selection) time) r.end t

  abbrev pub move_end : ℕ → Range → Trim → Trim
  move_end time r t =
      apply_selection_range r.start (within (r.start + min_selection) duration time) t

  abbrev pub drag_to : Handle → Drag → ℕ → Range → Trim → Trim
  drag_to start_handle g time r t = move_start time r t
  drag_to end_handle g time r t = move_end time r t
  drag_to body g time r t =
      let length = g.from.end - g.from.start in
      let start = within 0 (duration - length) (g.from.start + time - g.pointer_time) in
      apply_selection_range start (start + length) t

  abbrev pub with_drag : Trim → (Drag → Trim) → Option Drag → Trim
  with_drag t f none = t
  with_drag t f (some g) = f g

  unfoldable pub handle_pointer_move : ℕ → Trim → Trim
  handle_pointer_move time t =
      with_drag t (λ g. with_region t (λ r. drag_to g.mode g time r t) t.region) t.drag

  unfoldable pub handle_keydown : Bool → Bool → Bool → Trim → Trim
  handle_keydown is_start is_left shift t =
      let step = snap_interval * (if shift then 10 else 1) in
      let moved = λ (n : ℕ). if is_left then n - step else n + step in
      with_region t
        (λ r. if is_start then move_start (moved r.start) r t else move_end (moved r.end) r t)
        t.region

  abbrev pub is_file : Option Range → Bool
  is_file none = false
  is_file (some r) = true

  abbrev pub is_busy : Option TrimRequest → Bool
  is_busy none = false
  is_busy (some r) = true

  -- `ensureTrimSelection` up to its request.
  unfoldable pub begin_trim : Trim → Trim
  begin_trim t =
      if is_file t.trim_id || is_busy t.request
      then t
      else with_region t
          (λ r.
            if ltb (r.end - r.start) min_selection || ltb longest (r.end - r.start)
            then t
            else record t { request = some (record { for_revision = t.revision; range = r }) })
          t.region

  abbrev pub end_request : Option TrimRequest → Bool → Trim → Trim
  end_request none ok t = t
  end_request (some q) ok t =
      let ended = record t { request = none } in
      if ok && eqb q.for_revision t.revision then record ended { trim_id = some q.range } else ended

  unfoldable pub end_trim : Bool → Trim → Trim
  end_trim ok t = end_request t.request ok t

  unfoldable pub on_trim_event : TrimEvent → Trim → Trim
  on_trim_event ready t = create_default_selection t
  on_trim_event reset t = handle_wave_reset t
  on_trim_event pointer_up t = record t { drag = none }
  on_trim_event ask t = begin_trim t
  on_trim_event (clicks time) t = handle_wave_click time t
  on_trim_event (pointer_move time) t = handle_pointer_move time t
  on_trim_event (pointer_down mode time) t = handle_pointer_down mode time t
  on_trim_event (step is_start is_left shift) t = handle_keydown is_start is_left shift t
  on_trim_event (answer ok) t = end_trim ok t

  unfoldable pub run_trim : List TrimEvent → Trim → Trim
  run_trim [] t = t
  run_trim (e ∷ es) t = run_trim es (on_trim_event e t)
