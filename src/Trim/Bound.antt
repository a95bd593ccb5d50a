-- ===== src/Trim/Bound.antt =====
-- app/static/js/trim.js: the selection stays within the track, and a file is never that of another selection.
use fetchly.Common.{
  ℕ, ◌+◌, ◌-◌, ◌*◌, ◌≡◌, refl, sym, Bool, true, ◌&&◌, ◌||◌, Option, none, some, List, [], ◌∷◌,
  if◌then◌else◌, eqb, ltb, arith, if_both, Bool-cases, inl, inr, subst,
}
use fetchly.Times.{snap_interval}
use fetchly.Trim.{
  min_selection, Range, Handle, start_handle, end_handle, body, Drag, TrimRequest, Trim,
  nothing_selected, Regions, IsDocumented, with_region, TrimEvent, ready, reset, pointer_up, ask,
  clicks, pointer_move, pointer_down, step, answer, drop_region, handle_wave_reset,
  handle_wave_click, handle_pointer_down, move_start, move_end, drag_to, with_drag,
  handle_pointer_move, handle_keydown, is_file, is_busy, begin_trim, end_request, end_trim,
  on_trim_event, run_trim,
}
use fetchly.Trim.Sound.{
  is_proper_if_some, is_file_of, is_asked_for, IsSound, asked-changed, drop-IsSound,
  drag_to-IsSound, click-IsSound, ready-IsSound,
}

module _ (plugin : Regions) (documented : IsDocumented plugin) (d longest : ℕ) where
  reset-IsSound : (t : Trim) → IsSound d t → IsSound d (handle_wave_reset plugin d longest t)
  unfolding handle_wave_reset IsSound
  reset-IsSound t sound =
      let u = drop_region plugin d longest (record t { pending_start = none }) in
      let dropped =
        drop-IsSound plugin documented d longest (record t { pending_start = none }) sound in
      (refl, refl, refl, asked-changed none none u.revision u.request dropped.3)

  with_region-IsSound :
      (t : Trim) (f : Range → Trim) (o : Option Range)
      → ((r : Range) → o ≡ some r → IsSound d (f r))
      → IsSound d t
      → IsSound d (with_region t f o)
  with_region-IsSound t f none each sound = sound
  with_region-IsSound t f (some r) each sound = each r refl

  with_drag-IsSound :
      (t : Trim) (f : Drag → Trim) (o : Option Drag)
      → ((g : Drag) → IsSound d (f g))
      → IsSound d t
      → IsSound d (with_drag plugin d longest t f o)
  with_drag-IsSound t f none each sound = sound
  with_drag-IsSound t f (some g) each sound = each g

  -- A request is made for the range that is selected.
  asked-IsSound :
      (t : Trim) (r : Range)
      → t.region ≡ some r
      → IsSound d t
      → IsSound d (record t { request = some (record { for_revision = t.revision; range = r }) })
  unfolding IsSound
  asked-IsSound t r is_r (region, drag, file, request) = (
    region,
    drag,
    file,
    subst
        (λ o.
          is_asked_for o t.revision (some (record { for_revision = t.revision; range = r })) ≡ true)
        (sym is_r) (ground arith),
  )

  ask-IsSound : (t : Trim) → IsSound d t → IsSound d (begin_trim plugin d longest t)
  unfolding begin_trim
  ask-IsSound t sound =
      if_both (IsSound d) (is_file plugin d longest t.trim_id || is_busy plugin d longest t.request)
        sound
        (with_region-IsSound t
          (λ r.
            if ltb (r.end - r.start) min_selection || ltb longest (r.end - r.start)
            then t
            else record t { request = some (record { for_revision = t.revision; range = r }) })
          t.region
          (λ r is_r.
            if_both (IsSound d)
              (ltb (r.end - r.start) min_selection || ltb longest (r.end - r.start)) sound
              (asked-IsSound t r is_r sound))
          sound)

  -- A file that comes for the revision of the dialog is of its region.
  end_request-IsSound :
      (q : Option TrimRequest) (ok : Bool) (t : Trim)
      → is_asked_for t.region t.revision q ≡ true
      → IsSound d t
      → IsSound d (end_request plugin d longest q ok t)
  unfolding IsSound
  end_request-IsSound none ok t asked sound = sound
  end_request-IsSound (some q) ok t asked (region, drag, file, request) =
      elim (Bool-cases (ok && eqb q.for_revision t.revision)) [
        | inl fresh ↦ rw fresh (region, drag, ground (arith, asked, fresh), refl)
        | inr late ↦ rw late (region, drag, file, refl)
      ]

  moved-IsSound :
      (time : ℕ) (t : Trim) → IsSound d t → IsSound d (handle_pointer_move plugin d longest time t)
  unfolding handle_pointer_move
  moved-IsSound time t sound =
      with_drag-IsSound t
        (λ g. with_region t (λ r. drag_to plugin d longest g.mode g time r t) t.region) t.drag
        (λ g.
          with_region-IsSound t (λ r. drag_to plugin d longest g.mode g time r t) t.region
            (λ r is_r. drag_to-IsSound plugin documented d longest g.mode g time r t sound) sound)
        sound

  down-IsSound :
      (mode : Handle) (time : ℕ) (t : Trim)
      → IsSound d t
      → IsSound d (handle_pointer_down plugin d longest mode time t)
  unfolding handle_pointer_down IsSound
  down-IsSound mode time t (region, drag, file, request) =
      with_region-IsSound t
        (λ r. record t { drag = some (record { mode = mode; pointer_time = time; from = r }) })
        t.region
        (λ r is_r. (region, subst (λ o. is_proper_if_some d o ≡ true) is_r region, file, request))
        (region, drag, file, request)

  step-IsSound :
      (is_start is_left shift : Bool) (t : Trim)
      → IsSound d t
      → IsSound d (handle_keydown plugin d longest is_start is_left shift t)
  unfolding handle_keydown
  step-IsSound is_start is_left shift t sound =
      let step = snap_interval * (if shift then 10 else 1) in
      let moved = λ (n : ℕ). if is_left then n - step else n + step in
      with_region-IsSound t
        (λ r.
          if is_start
          then move_start plugin d longest (moved r.start) r t
          else move_end plugin d longest (moved r.end) r t)
        t.region
        (λ r is_r.
          if_both (IsSound d) is_start
            (drag_to-IsSound plugin documented d longest start_handle
              (record { mode = body; pointer_time = 0; from = r }) (moved r.start) r t sound)
            (drag_to-IsSound plugin documented d longest end_handle
              (record { mode = body; pointer_time = 0; from = r }) (moved r.end) r t sound))
        sound

  event-IsSound :
      (e : TrimEvent) (t : Trim) → IsSound d t → IsSound d (on_trim_event plugin d longest e t)
  unfolding on_trim_event handle_wave_click end_trim IsSound
  event-IsSound ready t sound = ready-IsSound plugin documented d longest t sound
  event-IsSound reset t sound = reset-IsSound t sound
  event-IsSound pointer_up t (region, drag, file, request) = (region, refl, file, request)
  event-IsSound ask t sound = ask-IsSound t sound
  event-IsSound (clicks time) t sound =
      click-IsSound plugin documented d longest t.pending_start time t sound
  event-IsSound (pointer_move time) t sound = moved-IsSound time t sound
  event-IsSound (pointer_down mode time) t sound = down-IsSound mode time t sound
  event-IsSound (step is_start is_left shift) t sound = step-IsSound is_start is_left shift t sound
  event-IsSound (answer ok) t sound = end_request-IsSound t.request ok t sound.3 sound

  run-IsSound :
      (es : List TrimEvent) (t : Trim) → IsSound d t → IsSound d (run_trim plugin d longest es t)
  unfolding run_trim
  run-IsSound [] t sound = sound
  run-IsSound (e ∷ es) t sound =
      run-IsSound es (on_trim_event plugin d longest e t) (event-IsSound e t sound)

-- Whatever the user does with clicks, handles and keys, and whenever a request is answered, the region that is selected
-- after it, if any, is at least a second long and ends within the track.
pub selection_is_proper :
    (plugin : Regions)
    → IsDocumented plugin
    → (duration longest : ℕ) (es : List TrimEvent)
    → is_proper_if_some duration (run_trim plugin duration longest es nothing_selected).region
      ≡ true
unfolding IsSound
selection_is_proper plugin documented duration longest es =
    (run-IsSound plugin documented duration longest es nothing_selected (refl, refl, refl, refl)).0

-- Whatever the user does, and whenever a request is answered, the cut file that is offered for the selection, if any, was
-- asked for with the bounds of the region that is selected.
pub file_is_of_selection :
    (plugin : Regions)
    → IsDocumented plugin
    → (duration longest : ℕ) (es : List TrimEvent)
    → let t = run_trim plugin duration longest es nothing_selected in
      is_file_of t.region t.trim_id ≡ true
unfolding IsSound
file_is_of_selection plugin documented duration longest es =
    (run-IsSound plugin documented duration longest es nothing_selected (refl, refl, refl, refl)).2
