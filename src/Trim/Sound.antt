-- ===== src/Trim/Sound.antt =====
-- app/static/js/trim.js: what stays true of the selection when it is set, moved and removed.
use fetchly.Common.{
  ℕ, zero, suc, ◌+◌, ◌-◌, ◌≤◌, ◌≡◌, refl, sym, Bool, true, false, not, ◌&&◌, ◌||◌, Option, none,
  some, eqb, ltb, leb, min, arith, Bool-cases, Option-cases, inl, inr, subst,
}
use fetchly.Common.Int.{pos}
use fetchly.Ecma.{finite}
use fetchly.Times.{clamp, normalize_time_range}
use fetchly.Times.Ranges.{range_is_proper}
use fetchly.Trim.{
  min_selection, default_selection, Range, Handle, start_handle, end_handle, body, Drag,
  TrimRequest, Trim, mark_selection_changed, on_region_created, on_region_removed, Regions,
  IsDocumented, within, apply_selection_range, drop_region, create_default_selection, second_click,
  click_from, drag_to,
}

-- At least a second long and within the track.
abbrev pub is_proper : ℕ → Range → Bool
is_proper d r = leb (r.start + min_selection) r.end && leb r.end d

abbrev pub is_proper_if_some : ℕ → Option Range → Bool
is_proper_if_some d none = true
is_proper_if_some d (some r) = is_proper d r

abbrev pub is_proper_drag : ℕ → Option Drag → Bool
is_proper_drag d none = true
is_proper_drag d (some g) = is_proper d g.from

abbrev pub is_selected : Option Range → Range → Bool
is_selected none file = false
is_selected (some r) file = eqb r.start file.start && eqb r.end file.end

abbrev pub is_file_of : Option Range → Option Range → Bool
is_file_of region none = true
is_file_of region (some file) = is_selected region file

-- A request is for the selection unless that has changed since.
abbrev pub is_asked_for : Option Range → ℕ → Option TrimRequest → Bool
is_asked_for region revision none = true
is_asked_for region revision (some q) =
    leb q.for_revision revision && (not (eqb q.for_revision revision) || is_selected region q.range)

unfoldable pub IsSound : ℕ → Trim → Type 0
IsSound d t =
    (is_proper_if_some d t.region ≡ true)
    × (is_proper_drag d t.drag ≡ true)
    × (is_file_of t.region t.trim_id ≡ true)
    × (is_asked_for t.region t.revision t.request ≡ true)

pub asked-changed :
    (region other : Option Range) (revision : ℕ) (q : Option TrimRequest)
    → is_asked_for region revision q ≡ true
    → is_asked_for other (revision + 1) q ≡ true
asked-changed region other revision none h = refl
asked-changed region other revision (some q) h = ground (arith, h)

changed-IsSound :
    (d : ℕ) (r : Option Range) (g : Option Drag) (t : Trim)
    → is_proper_if_some d r ≡ true
    → is_proper_drag d g ≡ true
    → IsSound d t
    → IsSound d (mark_selection_changed (record t { region = r; drag = g }))
unfolding IsSound mark_selection_changed
changed-IsSound d r g t proper dragged (region, drag, file, request) =
    (proper, dragged, refl, asked-changed t.region r t.revision t.request request)

second-le :
    (a b d : ℕ)
    → (let (s, e) = normalize_time_range (finite (pos a)) (finite (pos b)) (finite (pos d)) in
        e ≤ d)
unfolding normalize_time_range
second-le a b zero = omega arith
second-le a b (suc d) = (range_is_proper (finite (pos a)) (finite (pos b)) (suc d) (omega arith)).1

module _ (plugin : Regions) (documented : IsDocumented plugin) (d longest : ℕ) where
  pub add-IsSound :
      (r : Range) (t : Trim)
      → is_proper d r ≡ true
      → IsSound d t
      → IsSound d (plugin.add_region r t)
  unfolding IsDocumented on_region_created IsSound
  add-IsSound r t proper sound =
      subst (IsSound d) (sym (documented.0 r t))
        (changed-IsSound d (some r) t.drag t proper sound.1 sound)

  pub remove-IsSound : (t : Trim) → IsSound d t → IsSound d (plugin.remove_region t)
  unfolding IsDocumented on_region_removed
  remove-IsSound t sound =
      subst (IsSound d) (sym (documented.1 t)) (changed-IsSound d none none t refl refl sound)

  pub set-IsSound :
      (r : Range) (t : Trim)
      → is_proper d r ≡ true
      → IsSound d t
      → IsSound d (mark_selection_changed (plugin.set_options r t))
  unfolding IsDocumented IsSound
  set-IsSound r t proper sound =
      subst (λ u. IsSound d (mark_selection_changed u)) (sym (documented.2 r t))
        (changed-IsSound d (some r) t.drag t proper sound.1 sound)

  pub drop-IsSound : (t : Trim) → IsSound d t → IsSound d (drop_region plugin d longest t)
  unfolding IsSound IsDocumented on_region_removed mark_selection_changed
  drop-IsSound t sound = elim (Option-cases t.region) [
    | inl nothing ↦ rw nothing (
      refl,
      refl,
      subst (λ r. is_file_of r t.trim_id ≡ true) nothing sound.2,
      subst (λ r. is_asked_for r t.revision t.request ≡ true) nothing sound.3,
    )
    | inr (r, is_r) ↦ rw is_r (
        rw (documented.1 (record t { region = some r }))
          (refl, refl, refl, asked-changed t.region none t.revision t.request sound.3))
  ]

  pub apply-IsSound :
      (s e : ℕ) (t : Trim) → IsSound d t → IsSound d (apply_selection_range plugin d longest s e t)
  unfolding apply_selection_range clamp
  apply-IsSound s e t sound =
      let a = within plugin d longest 0 d s in
      let b = within plugin d longest 0 d e in
      elim (Bool-cases (ltb (b - a) min_selection)) [
        | inl short ↦ rw short sound
        | inr long ↦
            rw long (set-IsSound (record { start = a; end = b }) t (ground (arith, long)) sound)
      ]

  pub drag_to-IsSound :
      (mode : Handle) (g : Drag) (time : ℕ) (r : Range) (t : Trim)
      → IsSound d t
      → IsSound d (drag_to plugin d longest mode g time r t)
  drag_to-IsSound start_handle g time r t sound =
      apply-IsSound (within plugin d longest 0 (r.end - min_selection) time) r.end t sound
  drag_to-IsSound end_handle g time r t sound =
      apply-IsSound r.start (within plugin d longest (r.start + min_selection) d time) t sound
  drag_to-IsSound body g time r t sound =
      let length = g.from.end - g.from.start in
      let start = within plugin d longest 0 (d - length) (g.from.start + time - g.pointer_time) in
      apply-IsSound start (start + length) t sound

  pub second_click-IsSound :
      (r : ℕ × ℕ) (t : Trim) → r.1 ≤ d → IsSound d t → IsSound d (second_click plugin d longest r t)
  second_click-IsSound (s, e) t bound sound = elim (Bool-cases (ltb (e - s) min_selection)) [
    | inl short ↦ rw short (drop-IsSound t sound)
    | inr long ↦ rw long (
        add-IsSound (record { start = s; end = e }) (drop_region plugin d longest t)
          (ground (arith, long)) (drop-IsSound t sound))
  ]

  pub click-IsSound :
      (first : Option ℕ) (time : ℕ) (t : Trim)
      → IsSound d t
      → IsSound d (click_from plugin d longest first time t)
  unfolding IsSound
  click-IsSound none time t (region, drag, file, request) =
      drop-IsSound (record t { pending_start = some time; trim_id = none })
        (region, drag, refl, request)
  click-IsSound (some first) time t sound =
      second_click-IsSound
        (normalize_time_range (finite (pos first)) (finite (pos time)) (finite (pos d)))
        (record t { pending_start = none }) (second-le first time d) sound

  pub ready-IsSound :
      (t : Trim) → IsSound d t → IsSound d (create_default_selection plugin d longest t)
  unfolding create_default_selection
  ready-IsSound t sound =
      let end = min default_selection d in
      elim (Bool-cases (ltb end min_selection)) [
        | inl short ↦ rw short sound
        | inr long ↦
            rw long (add-IsSound (record { start = 0; end = end }) t (ground (arith, long)) sound)
      ]
