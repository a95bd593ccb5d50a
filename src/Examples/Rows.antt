-- ===== src/Examples/Rows.antt =====
-- Rows tried on a job that is queued, then done, then shown with its length.
use fetchly.Common.{◌≡◌, refl, String, true, none, [], ◌∷◌}
use fetchly.Common.Int.{pos}
use fetchly.Ecma.{text, num, finite, Object, end, field, get}
use fetchly.Jobs.Update.{get_job_id}
use fetchly.Site.{Site}
use fetchly.Rows.Cells.{create_platform_pill}
use fetchly.Rows.Nodes.{build_desktop_job, build_mobile_job}
use fetchly.Rows.Patched.{
  patched_desktop, patched_mobile, mobile_row, desktop_shows_last, mobile_shows_last,
}
use fetchly.Examples.Sample.{sample_ecma, sample_contract}

abbrev pub site : Site
site = record {
  browser = record {
    ecma = sample_ecma;
    parse_url = λ s. none;
    parse_relative = λ s. none;
    location_origin = "";
  };
  contract = sample_contract;
  lalal_enabled = true;
  duration_guard = true;
  lalal_max = 600_000_000;
  upper = λ s. s;
  encode_uri = λ s. s;
  parse_date = λ s. none;
  format_ratio = λ digits a b. "1";
  format_date = λ at. "";
  format_time = λ at. "";
  format_mobile = λ at. "";
}

abbrev job_with : String → Object → Object
job_with status rest =
    field "id" (text "a") (field "type" (text "audio") (field "status" (text status) rest))

abbrev queued_job : Object
queued_job = job_with "queued" (field "platform" (text "tiktok") end)

abbrev done_job : Object
done_job = job_with "done" (field "platform" (text "youtube") end)

abbrev timed_job : Object
timed_job = job_with "done" (field "duration_seconds" (num (finite (pos 60_000_000))) end)

desktop_shows_last_example :
    patched_desktop site (build_desktop_job site queued_job) (done_job ∷ timed_job ∷ [])
    ≡ record (build_desktop_job site timed_job) { pill = create_platform_pill site queued_job }
unfolding get_job_id get
desktop_shows_last_example =
    desktop_shows_last site queued_job (done_job ∷ timed_job ∷ []) (refl, (refl, record {}))

mobile_shows_last_example :
    patched_mobile site (build_mobile_job site queued_job) (done_job ∷ timed_job ∷ [])
    ≡ mobile_row site timed_job
unfolding get_job_id get
mobile_shows_last_example =
    mobile_shows_last site queued_job done_job (timed_job ∷ []) (refl, record {})
