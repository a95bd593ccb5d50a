-- ===== src/UpdateStatus.antt =====
-- app/static/js/update-status.js: the update check of a component on the settings page. A cell is known
-- by its link for an available update and its badge, where it has them.
pub mod Shown
use fetchly.Common.{
  String, Bool, true, false, not, ◌&&◌, ◌||◌, Option, none, some, List, [], ◌∷◌, ◌==◌,
  if◌then◌else◌, contains,
}
use fetchly.Ecma.{
  Ecma, Value, null, undefined, bool, num, text, arr, obj, Object, get, truthy, string_of,
  properties,
}
use Prim.Native.String

-- The link of an update: where it leads, what it says, and whether it is hidden.
pub record UpdateLink : Type 0 where
  pub href : String
  pub hint : String
  pub label : String
  pub hidden : Bool

pub record Badge : Type 0 where
  pub state : String
  pub icon : String
  pub text : String
  pub title : String
  pub hidden : Bool

pub record Cell : Type 0 where
  pub link : Option UpdateLink
  pub badge : Option Badge

-- A key of `UPDATE_STATE_VIEW` with its icon and its label.
unfoldable pub view_of : String → Option (String × String)
view_of state =
    if state == "checking"
    then some ("sync", "Checking…")
    else if state == "current"
    then some ("check_circle", "Up to date")
    else if state == "available"
    then some ("upgrade", "Update available")
    else if state == "prerelease"
    then some ("science", "Pre-release")
    else if state == "unknown"
    then some ("help", "Check unavailable")
    else none

abbrev pub unknown_hint : String → String
unknown_hint reason =
    if reason == "installed_unknown"
    then "The installed version could not be determined"
    else if reason == "latest_unknown"
    then "The latest upstream version could not be determined"
    else ""

abbrev pub known_statuses : List String
known_statuses = "available" ∷ "current" ∷ "unknown" ∷ []

abbrev pub known_status : Value → Option String
known_status (text s) = if contains s known_statuses then some s else none
known_status _ = none

-- The state of an entry that has no known status.
unfoldable pub older_state : Object → String
older_state info =
    if truthy (get "update_available" info) && truthy (get "latest" info)
    then "available"
    else if truthy (get "latest" info)
    then "current"
    else "unknown"

unfoldable pub resolve_update_state : Value → String
resolve_update_state info = elim (known_status (get "status" (properties info))) [
  | none ↦ older_state (properties info)
  | some status ↦ status
]

module _ (js : Ecma) where
  -- `v || d` as text
  abbrev pub text_or : Value → String → String
  text_or v d = if truthy v then string_of js v else d

  unfoldable pub link_to : Object → UpdateLink
  link_to info =
      let hint = String.◌++◌ "Version " (
        String.◌++◌ (string_of js (get "latest" info))
          " is available — rebuild the image to update") in
      record {
        href = text_or (get "url" info) "#";
        hint = hint;
        label = String.◌++◌ (text_or (get "label" info) "Component") (String.◌++◌ ": " hint);
        hidden = false;
      }

  unfoldable pub title_of : String → Object → String
  title_of state info =
      if state == "current" && truthy (get "latest" info)
      then String.◌++◌ "Latest: " (string_of js (get "latest" info))
      else if state == "unknown"
      then unknown_hint (string_of js (get "reason" info))
      else ""

  unfoldable pub badge_for : String → Object → Badge
  badge_for state info = elim (view_of state) [
    | none ↦ record {
      state = "unknown";
      icon = "help";
      text = "Check unavailable";
      title = title_of state info;
      hidden = false;
    }
    | some (icon, label) ↦ record {
      state = state;
      icon = icon;
      text = label;
      title = title_of state info;
      hidden = false;
    }
  ]

  abbrev pub hide_link : Option UpdateLink → Option UpdateLink
  hide_link none = none
  hide_link (some l) = some (record l { hidden = true })

  abbrev pub hide_badge : Option Badge → Option Badge
  hide_badge none = none
  hide_badge (some b) = some (record b { hidden = true })

  abbrev pub write_badge : Badge → Option Badge → Option Badge
  write_badge new none = none
  write_badge new (some _) = some new

  abbrev pub has_link : Option UpdateLink → Bool
  has_link none = false
  has_link (some _) = true

  unfoldable pub render_update_state : String → Object → Cell → Cell
  render_update_state state info cell =
      if state == "available" && truthy (get "latest" info) && has_link cell.link
      then record { link = some (link_to info); badge = hide_badge cell.badge }
      else record {
        link = hide_link cell.link;
        badge = write_badge (badge_for state info) cell.badge;
      }

  unfoldable pub apply_update_badge : Value → Cell → Cell
  apply_update_badge info cell =
      render_update_state (resolve_update_state info) (properties info) cell
