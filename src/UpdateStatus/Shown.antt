-- ===== src/UpdateStatus/Shown.antt =====
-- app/static/js/update-status.js: which part of a cell shows.
use fetchly.Common.{
  String, ◌≡◌, refl, Bool, true, false, not, ◌&&◌, some, ◌==◌, arith, Bool-cases, inl, inr,
  Option-cases,
}
use fetchly.Ecma.{Ecma, Value, Object, get, truthy, properties}
use fetchly.UpdateStatus.{
  UpdateLink, Badge, Cell, render_update_state, apply_update_badge, resolve_update_state, link_to,
  badge_for, view_of,
}

module _ (js : Ecma) where
  badge_for-shown : (state : String) (info : Object) → (badge_for js state info).hidden ≡ false
  unfolding badge_for
  badge_for-shown state info = elim (Option-cases (view_of state)) [
    | inl e ↦ rw (badge_for, e) refl
    | inr (v, e) ↦ rw (badge_for, e) refl
  ]

  link_to-shown : (info : Object) → (link_to js info).hidden ≡ false
  unfolding link_to
  link_to-shown info = refl

  -- The state whose link is shown.
  abbrev pub is_offered : Value → Bool
  is_offered info =
      resolve_update_state info == "available" && truthy (get "latest" (properties info))

  abbrev both : UpdateLink → Badge → Cell
  both l b = record { link = some l; badge = some b }

  offered_cell :
      (info : Value) (l : UpdateLink) (b : Badge)
      → is_offered info ≡ true
      → apply_update_badge js info (both l b)
        ≡ both (link_to js (properties info)) (record b { hidden = true })
  unfolding apply_update_badge render_update_state
  offered_cell info l b h = ground arith

  other_cell :
      (info : Value) (l : UpdateLink) (b : Badge)
      → is_offered info ≡ false
      → apply_update_badge js info (both l b)
        ≡ both
            (record l { hidden = true })
            (badge_for js (resolve_update_state info) (properties info))
  unfolding apply_update_badge render_update_state
  other_cell info l b h = ground arith

  -- Of a cell with a link and a badge, whatever they showed before, the answer of the check shows exactly
  -- one: the link if an update is available and its version known, and else the badge.
  pub one_is_shown :
      (info : Value) (l : UpdateLink) (b : Badge)
      → (let cell = apply_update_badge js info (record { link = some l; badge = some b }) in
          (new_link : UpdateLink) × (new_badge : Badge) × (cell.link ≡ some new_link)
          × (cell.badge ≡ some new_badge)
          × (new_link.hidden ≡ not (is_offered info))
          × (new_badge.hidden ≡ is_offered info))
  one_is_shown info l b = elim (Bool-cases (is_offered info)) [
    | inl offered ↦
        rw (offered_cell info l b offered, offered)
          (
            link_to js (properties info),
            record b { hidden = true },
            refl,
            refl,
            link_to-shown (properties info),
            refl,
          )
    | inr other ↦
        rw (other_cell info l b other, other)
          (
            record l { hidden = true },
            badge_for js (resolve_update_state info) (properties info),
            refl,
            refl,
            refl,
            badge_for-shown (resolve_update_state info) (properties info),
          )
  ]
