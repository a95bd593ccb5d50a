-- ===== src/Times.antt =====
-- app/static/js/utils.js: time ranges, lengths of time as text, and the runs of the trim dialog. Times are
-- millionths of a second; a bound of `clamp` is never negative in these calls.
pub mod Ranges
pub mod Runs
use fetchly.Common.{
  ℕ, zero, suc, ◌+◌, ◌-◌, ◌*◌, ◌/◌, ◌%◌, String, Bool, true, false, not, ◌&&◌, ◌||◌, Option, none,
  some, ◌==◌, if◌then◌else◌, eqb, ltb, leb, min, max, Dict, lookup, delete,
}
use fetchly.Common.Int.{ℤ, pos, negsuc}
use fetchly.Common.Texts.{text_length}
use fetchly.Ecma.{
  Ecma, Number, nan, infinite, finite, Value, null, undefined, text, unit, number_of,
}
use Prim.Native.String

abbrev pub empty_value : String
empty_value = "–"

abbrev pub snap_interval : ℕ
snap_interval = 500_000

unfoldable pub clamp : Number → ℕ → ℕ → ℕ
clamp (finite (pos n)) low high = min high (max low n)
clamp (finite (negsuc n)) low high = min high low
clamp (infinite _) low high = low
clamp nan low high = low

-- `Math.round(a / b)` of two numbers that are not negative
abbrev pub round_div : ℕ → ℕ → ℕ
round_div a b = (2 * a + b) / (2 * b)

unfoldable pub snap_time : Number → ℕ → ℕ
snap_time (finite (pos n)) interval =
    let step = round_div interval 1000 in
    if eqb step 0 then n else round_div (round_div n 1000) step * step * 1000
snap_time _ interval = 0

-- The second half of `normalizeTimeRange`: from two times in order that lie within the duration.
unfoldable pub snap_range : ℕ → ℕ → ℕ → ℕ × ℕ
snap_range d low high =
    let s = clamp (finite (pos (snap_time (finite (pos low)) snap_interval))) 0 d in
    let e = clamp (finite (pos (snap_time (finite (pos high)) snap_interval))) 0 d in
    let wide = min d (s + snap_interval) in
    if not (eqb s e) then (s, e) else if eqb wide s then (s - snap_interval, wide) else (s, wide)

unfoldable pub normalize_time_range : Number → Number → Number → ℕ × ℕ
normalize_time_range start end (finite (pos d)) =
    let s = clamp start 0 d in
    let e = clamp end 0 d in
    if eqb d 0 then (0, 0) else if ltb e s then snap_range d e s else snap_range d s e
normalize_time_range start end _ = (0, 0)

-- Hours, minutes and seconds.
unfoldable pub duration_parts : ℕ → ℕ × ℕ × ℕ
duration_parts total = (total / 3600, total % 3600 / 60, total % 60)

-- `padStart(n, "0")`
unfoldable pub pad_zeros : ℕ → String → String
pad_zeros zero s = s
pad_zeros (suc n) s = String.◌++◌ "0" (pad_zeros n s)

unfoldable pub pad_start : ℕ → String → String
pad_start n s = pad_zeros (n - text_length s) s

-- `sec === null || sec === undefined || sec === ""`
abbrev pub is_missing : Value → Bool
is_missing v = elim v [ null ↦ true | undefined ↦ true | text s ↦ s == "" | _ ↦ false ]

module _ (js : Ecma) where
  abbrev pub text_of_whole : ℕ → String
  text_of_whole n = js.text_of_number (finite (pos (n * unit)))

  unfoldable pub format_parts : ℕ × ℕ × ℕ → String
  format_parts (h, m, s) =
      let mm = pad_start (if ltb 0 h then 2 else 1) (text_of_whole m) in
      let ss = pad_start 2 (text_of_whole s) in
      let short = String.◌++◌ mm (String.◌++◌ ":" ss) in
      if ltb 0 h then String.◌++◌ (text_of_whole h) (String.◌++◌ ":" short) else short

  abbrev pub format_seconds : Number → String
  format_seconds (finite (pos n)) = format_parts (duration_parts (n / unit))
  format_seconds _ = empty_value

  unfoldable pub format_duration : Value → String
  format_duration sec = if is_missing sec then empty_value else format_seconds (number_of js sec)

  abbrev pub format_balance : Number → String
  format_balance (finite (pos n)) =
      let total = round_div (n * 60) unit in
      String.◌++◌ (text_of_whole (total / 60))
        (String.◌++◌ "m " (String.◌++◌ (pad_start 2 (text_of_whole (total % 60))) "s"))
  format_balance _ = ""

  unfoldable pub format_lalal_minutes : Value → String
  format_lalal_minutes minutes =
      if is_missing minutes then "" else format_balance (number_of js minutes)

-- What the trim dialog has selected.
pub record Selection : Type 0 where
  pub session : ℕ
  pub revision : ℕ
  pub trim_id : Option String

abbrev pub same_id : Option String → Option String → Bool
same_id none none = true
same_id (some a) (some b) = a == b
same_id _ _ = false

unfoldable pub is_same_trim_selection : Selection → Selection → Bool
is_same_trim_selection frozen live =
    eqb frozen.session live.session
    && eqb frozen.revision live.revision
    && same_id frozen.trim_id live.trim_id

-- The button of a stem: its text and the two entries of its `dataset`.
pub record StemButton : Type 0 where
  pub lalal_done : Option String
  pub lalal_label : Option String
  pub text_content : String

abbrev pub is_one : Option String → Bool
is_one none = false
is_one (some s) = s == "1"

unfoldable pub reset_lalal_label : Bool → StemButton → StemButton × Bool
reset_lalal_label force btn =
    let cleared : StemButton = record btn { lalal_done = none } in
    if not (is_one btn.lalal_done) && not force then (cleared, false) else elim btn.lalal_label [
      | none ↦ (cleared, false)
      | some label ↦ (record cleared { text_content = label }, true)
    ]

-- The stems that run, each with the id of its run.
abbrev pub owns : Option ℕ → ℕ → Bool
owns none run = false
owns (some r) run = eqb r run

unfoldable pub release_lalal_run : Dict ℕ → String → ℕ → Dict ℕ × Bool
release_lalal_run runs stem run =
    if owns (lookup stem runs) run then (delete stem runs, true) else (runs, false)
