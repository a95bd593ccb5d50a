-- ===== src/Jobs/Filter.antt =====
-- app/static/js/jobs.js: `applyStoredJobTitleFilter`, which hides the rows that a search leaves out.
pub mod Rows
pub mod Search
use Prim.Native.String
use package.text.Mathlib.Text.{find?}
use fetchly.Common.{
  ℕ, zero, suc, ◌+◌, String, Bool, true, false, not, ◌&&◌, ◌||◌, Option, none, some, List, [], ◌∷◌,
  ◌==◌, if◌then◌else◌, length, contains, eqb,
}
use fetchly.Ecma.{Ecma, Value, text, Object, get, or_truthy, string_of}
use fetchly.Jobs.Update.{get_job_id}
use fetchly.Jobs.Surface.{Surface, Node, has_row, is_hidden, toggle_row}
use fetchly.Jobs.State.{State, get_list_jobs}

-- `s.includes(q)`
unfoldable pub includes : String → String → Bool
includes q s = elim (find? s q) [ none ↦ false | some _ ↦ true ]

-- A row that the filter shows or hides, by the id of its job.
pub record Change : Type 0 where
  pub id : String
  pub hide : Bool

pub record Counts : Type 0 where
  pub total_count : ℕ
  pub visible_count : ℕ

abbrev pub same_bool : Bool → Bool → Bool
same_bool true b = b
same_bool false b = not b

module _ (js : Ecma) where
  open js use {trim, lower}

  unfoldable pub get_title_text : Object → Value
  get_title_text job = or_truthy (get "video_title" job) (or_truthy (get "url" job) (text ""))

  -- `String(v || d).trim().toLowerCase()`
  abbrev pub normalized_text : Value → String → String
  normalized_text v d = lower (trim (string_of js (or_truthy v (text d))))

  unfoldable pub matches_status : String → Object → Bool
  matches_status wanted job =
      let status = lower (string_of js (or_truthy (get "status" job) (text ""))) in
      wanted == "all"
      || (wanted == "done" && (status == "done" || status == "analysis_done"))
      || (wanted == "error" && status == "error")

  unfoldable pub matches_query : String → Object → Bool
  matches_query query job =
      let searchable =
        String.◌++◌ (string_of js (get_title_text job))
          (String.◌++◌ " " (string_of js (or_truthy (get "url" job) (text "")))) in
      query == "" || includes query (lower searchable)

  unfoldable pub should_hide : String → String → Object → Bool
  should_hide query wanted job = not (matches_status wanted job && matches_query query job)

  -- `changes`, for one surface
  unfoldable pub collect_changes : (Object → Bool) → List Object → Surface → List Change
  collect_changes hides [] s = []
  collect_changes hides (job ∷ jobs) s =
      let k = get_job_id js job in
      let rest = collect_changes hides jobs s in
      if contains k s.nodes && not (same_bool (hides job) (is_hidden js k s.children))
      then record { id = k; hide = hides job } ∷ rest
      else rest

  unfoldable pub apply_changes : List Change → Surface → Surface
  apply_changes [] s = s
  apply_changes (c ∷ cs) s = apply_changes cs (toggle_row js c.id c.hide s)

  unfoldable pub count_visible : (Object → Bool) → List Object → ℕ
  count_visible hides [] = 0
  count_visible hides (job ∷ jobs) = (if hides job then 0 else 1) + count_visible hides jobs

  unfoldable pub apply_stored_job_title_filter : Value → Value → State → State × Counts
  unfolding should_hide get_list_jobs collect_changes apply_changes count_visible
  apply_stored_job_title_filter query status_filter s =
      let jobs = get_list_jobs js s in
      let hides = should_hide (normalized_text query "") (normalized_text status_filter "all") in
      if eqb (length s.desktop.nodes) 0 && eqb (length s.mobile.nodes) 0
      then (s, record { total_count = 0; visible_count = 0 })
      else (
        record s {
          desktop = apply_changes (collect_changes hides jobs s.desktop) s.desktop;
          mobile = apply_changes (collect_changes hides jobs s.mobile) s.mobile;
        },
        record { total_count = length jobs; visible_count = count_visible hides jobs },
      )
