-- ===== src/Config.antt =====
-- app/static/js/config.js: the list sizes, and the job-status contract that the server renders into
-- the page. `none` stands for the `Error` that stops the module.
use fetchly.Common.{ℕ, suc, ◌+◌, ◌*◌, String, Option, none, some, List, [], ◌∷◌}
use fetchly.Ecma.{
  Ecma, Number, number_of, Value, null, obj, arr, Items, nil, cons, Object, end, field, get, put,
  properties, unit, finite,
}
use fetchly.Common.Int.{pos}

abbrev pub max_rows : ℕ
max_rows = 120

abbrev pub page_size : ℕ
page_size = 50

abbrev pub sse_reconnect_ms : ℕ
sse_reconnect_ms = 3000

abbrev positive : Number → Option ℕ
positive (finite (pos (suc n))) = some (suc n)
positive _ = none

-- `LALAL_MAX_DURATION_SECONDS`, in millionths of a second, from the data attribute.
unfoldable pub lalal_max_duration : Ecma → Value → Option ℕ
lalal_max_duration js attribute = positive (number_of js attribute)

pub record Contract : Type 0 where
  pub downloadable : List Value
  pub cancellable : List Value
  pub retryable : List Value
  pub terminal : List Value
  pub progress : List Value
  pub meta : Object

-- A page: the language's conversions and the contract it was rendered with.
pub record Env : Type 0 where
  pub ecma : Ecma
  pub open ecma use *
  pub contract : Contract
  pub open contract use *

infixl 5 ◌>>=◌
abbrev ◌>>=◌ {ℓ κ} : {A : Type ℓ} {B : Type κ} → Option A → (A → Option B) → Option B
none >>= k = none
some a >>= k = k a

unfoldable pub list_of : Items → List Value
list_of nil = []
list_of (cons x xs) = x ∷ list_of xs

-- `raw` is what `JSON.parse` makes of the data attribute, `none` where it throws.
parse_status_contract : Option Value → Option Object
parse_status_contract (some (obj o)) = some o
parse_status_contract _ = none

group : Value → Option (List Value)
unfolding list_of
group (arr xs) = some (list_of xs)
group _ = none

status_set : Object → String → Option (List Value)
unfolding group
status_set contract key = group (get key contract)

-- `{ color: entry.color, label: entry.label }`; reading a property of `null` throws.
display_entry : Value → Option Value
display_entry null = none
display_entry Value.undefined = none
display_entry v = some (
    obj
      (field "color" (get "color" (properties v)) (field "label" (get "label" (properties v)) end)))

frozen_entries : Object → Option Object
unfolding display_entry
frozen_entries end = some end
frozen_entries (field status entry rest) = do
  shown ← display_entry entry
  others ← frozen_entries rest
  some (put status shown others)

-- `Object.entries` of an array: its indices, as texts.
indexed : Ecma → ℕ → Items → Object
indexed js i nil = end
indexed js i (cons x xs) =
    field (js.text_of_number (finite (pos (i * unit)))) x (indexed js (i + 1) xs)

status_meta : Ecma → Value → Option Object
unfolding frozen_entries indexed
status_meta js (obj o) = frozen_entries o
status_meta js (arr xs) = frozen_entries (indexed js 0 xs)
status_meta js _ = none

unfoldable pub read_contract : Ecma → Option Value → Option Contract
unfolding parse_status_contract status_set status_meta
read_contract js raw = do
  contract ← parse_status_contract raw
  downloadable ← status_set contract "downloadable"
  cancellable ← status_set contract "cancellable"
  retryable ← status_set contract "retryable"
  terminal ← status_set contract "terminal"
  progress ← status_set contract "progress"
  meta ← status_meta js (get "meta" contract)
  some (record {
    downloadable = downloadable;
    cancellable = cancellable;
    retryable = retryable;
    terminal = terminal;
    progress = progress;
    meta = meta;
  })
