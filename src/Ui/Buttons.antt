-- ===== src/Ui/Buttons.antt =====
-- app/static/js/ui.js: buttons, the entries of a menu and what stands between them.
use fetchly.Common.{String, Bool, List, [], ◌∷◌, ◌++◌, if◌then◌else◌}
use fetchly.Dom.{Dom, text_node, Attributes, el, leaf, attribute_if, icon_span}

abbrev pub icon : String → Dom
icon = icon_span "material-symbols-outlined icon-inline"

abbrev pub Dataset : Type 0
Dataset = Attributes

unfoldable pub create_button : String → String → String → String → Dataset → Dom
create_button class label icon_name title dataset =
    el "button"
      (("type", "button") ∷ ("class", class) ∷ ("aria-label", label) ∷ attribute_if "title" title
        ++ dataset)
      (icon icon_name ∷ [])

unfoldable pub create_provider_logo : Dom
create_provider_logo =
    el "img"
      (("class", "dropdown-provider-logo")
        ∷ ("src", "/static/img/lalal_ai_small.svg")
        ∷ ("alt", "Lalal.ai")
        ∷ ("width", "34")
        ∷ ("height", "10")
        ∷ [])
      []

unfoldable pub create_divider : Dom
create_divider =
    el "li" (("role", "separator") ∷ []) (el "hr" (("class", "dropdown-divider") ∷ []) [] ∷ [])

-- `appendDropdownContent`: the icon, the label and what may follow.
unfoldable pub dropdown_content : String → String → List Dom → List Dom
dropdown_content icon_name label trailing =
    icon icon_name ∷ el "span" [] (text_node label ∷ []) ∷ trailing

unfoldable pub create_dropdown_button : String → String → Dataset → List Dom → Bool → String → Dom
unfolding dropdown_content
create_dropdown_button icon_name label dataset trailing disabled title =
    let state : Attributes =
      if disabled
      then ("class", "dropdown-item disabled") ∷ ("disabled", "") ∷ ("aria-disabled", "true") ∷ []
      else ("class", "dropdown-item") ∷ [] in
    el "li" [] (
      el "button" (("type", "button") ∷ state ++ attribute_if "title" title ++ dataset)
        (dropdown_content icon_name label trailing)
      ∷ [])

unfoldable pub create_download_options_toggle : String → Dom
create_download_options_toggle class =
    el "button"
      (("type", "button")
        ∷ ("class", class)
        ∷ ("data-bs-toggle", "dropdown")
        ∷ ("aria-haspopup", "menu")
        ∷ ("aria-expanded", "false")
        ∷ ("aria-label", "More download options")
        ∷ ("title", "More download options")
        ∷ [])
      (leaf "span" "visually-hidden" "More download options" ∷ [])

abbrev pub action_data : String → String → Dataset
action_data action id = ("data-action", action) ∷ ("data-job-id", id) ∷ []
