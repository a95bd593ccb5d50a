-- ===== src/Examples/Jobs.antt =====
-- The job store on small inputs.
use fetchly.Common.{
  ◌≤◌, String, ◌≡◌, refl, none, some, List, [], ◌∷◌, if◌then◌else◌, ◌==◌, arith, length,
}
use fetchly.Ecma.{text, obj, Object, end, field, get, string_of, has_own, put, spread, set_has}
use fetchly.Jobs.Surface.{
  has_row, is_hidden, build_row, prepend_to_surface, trim_rendered_nodes, trim_reversed,
  render_jobs, track, has_mounted_job, remove_row, append_to_surface, patch_row,
}
use fetchly.Jobs.Update.{
  get_job_id, normalize_job_update, normalized, copy_fields, merge_stored_job, drops_progress,
}
use fetchly.Jobs.State.{
  State, ids, find_job, get_list_jobs, trim_jobs, remove_job, replace_job, render_active_jobs,
  sync_surface_visibility, forget,
}
use fetchly.Jobs.Store.{
  store_first, prepend_rendered_job, append_rendered_jobs, update_job_store, update_id,
  show_updated, render_stored_job, prepend_job, upsert_job_snapshot, apply_job_update,
}
use fetchly.Jobs.Lookup.{upsert_stores, update_known, update_unknown, IsMerge}
use fetchly.Jobs.Filter.{apply_stored_job_title_filter}
use fetchly.Jobs.Filter.Rows.{Shows}
use fetchly.Jobs.Filter.Search.{filter_hides, hides_of}
use fetchly.Jobs.Invariant.{IsValid}
use fetchly.Jobs.Session.{Call, prepends, updates, begins_load, ends_load, step, run, run-IsValid}
use fetchly.Jobs.Session.Loads.{single_request}
use fetchly.Jobs.Paging.{page, load_more_begin, load_more_end, take_page, push_unknown, push_one}
use fetchly.Examples.Sample.{
  sample_ecma, sample_env, job_a, job_b, empty_state, empty_session, empty_surface,
}

empty_state-IsValid : IsValid sample_ecma empty_state
empty_state-IsValid = record {
  consistent = record { distinct = tt; named = refl; known_distinct = tt; known_iff = λ k. refl };
  bounded = omega arith;
}

abbrev script : List Call
script =
    prepends job_a
    ∷ begins_load
    ∷ updates (obj (field "id" (text "a") (field "status" (text "done") end)))
    ∷ begins_load
    ∷ ends_load (page (job_a ∷ job_b ∷ []))
    ∷ []

script-ids :
    (ids sample_ecma (run sample_env script empty_session).state.jobs ≡ "a" ∷ "b" ∷ [])
    × ((run sample_env script empty_session).state.next_offset ≡ 3)
    × ((run sample_env script empty_session).requests ≡ [])
unfolding run step prepend_job store_first trim_jobs remove_job get_job_id string_of get
    prepend_rendered_job prepend_to_surface trim_rendered_nodes trim_reversed get_list_jobs
    render_active_jobs render_jobs track has_mounted_job has_row is_hidden remove_row
    load_more_begin load_more_end take_page push_unknown push_one append_rendered_jobs
    append_to_surface apply_job_update normalize_job_update normalized copy_fields has_own put
    update_job_store update_id find_job replace_job merge_stored_job drops_progress spread set_has
    show_updated render_stored_job patch_row sync_surface_visibility forget
script-ids = (refl, refl, refl)

-- A store that shows one job on both surfaces.
abbrev one_job : State
one_job = record empty_state {
  jobs = job_a ∷ [];
  job_ids = "a" ∷ [];
  desktop = record empty_surface { children = build_row job_a ∷ []; nodes = "a" ∷ [] };
  mobile = record empty_surface { children = build_row job_a ∷ []; nodes = "a" ∷ [] };
}

one_job-IsValid : IsValid sample_ecma one_job
unfolding get_job_id string_of get
one_job-IsValid = record {
  consistent = record {
    distinct = (refl, tt);
    named = refl;
    known_distinct = (refl, tt);
    known_iff = λ k. refl;
  };
  bounded = omega arith;
}

run-IsValid_example : IsValid sample_ecma (run sample_env script empty_session).state
run-IsValid_example = run-IsValid sample_env script empty_session empty_state-IsValid

single_request_example : length (run sample_env script empty_session).requests ≤ 1
single_request_example = single_request sample_env script empty_session refl

abbrev done_update : Object
done_update = field "id" (text "a") (field "status" (text "done") end)

find_a : find_job sample_ecma "a" one_job.jobs ≡ some job_a
unfolding find_job get_job_id string_of get
find_a = refl

a_id : string_of sample_ecma (get "id" done_update) ≡ "a"
unfolding string_of get
a_id = refl

update_known_example :
    (m : Object) × ((apply_job_update sample_env (obj done_update) one_job).1 ≡ some m)
    × (ids sample_ecma (apply_job_update sample_env (obj done_update) one_job).0.jobs
        ≡ ids sample_ecma one_job.jobs)
    × ((j : String)
        → find_job sample_ecma j (apply_job_update sample_env (obj done_update) one_job).0.jobs ≡ (
            if string_of sample_ecma (get "id" done_update) == j
            then some m
            else find_job sample_ecma j one_job.jobs))
    × IsMerge sample_env job_a done_update m
unfolding find_job get_job_id string_of get
update_known_example = update_known sample_env (obj done_update) one_job job_a refl refl refl refl

update_unknown_example :
    apply_job_update sample_env (obj done_update) empty_state ≡ (empty_state, none)
unfolding find_job
update_unknown_example = update_unknown sample_env (obj done_update) empty_state refl

upsert_stores_example :
    (rest : List Object) × ((upsert_job_snapshot sample_ecma job_b one_job).0.jobs ≡ job_b ∷ rest)
    × ((upsert_job_snapshot sample_ecma job_b one_job).1 ≡ some job_b)
    × (find_job sample_ecma
          (get_job_id sample_ecma job_b)
          (upsert_job_snapshot sample_ecma job_b one_job).0.jobs
        ≡ some job_b)
unfolding get_job_id string_of get
upsert_stores_example = upsert_stores sample_ecma job_b one_job refl

filter_hides_example :
    Shows sample_ecma
      (hides_of sample_ecma (text "x") (text "all"))
      "a"
      job_a
      one_job.desktop
      (apply_stored_job_title_filter sample_ecma (text "x") (text "all") one_job).0.desktop
    × Shows sample_ecma
        (hides_of sample_ecma (text "x") (text "all"))
        "a"
        job_a
        one_job.mobile
        (apply_stored_job_title_filter sample_ecma (text "x") (text "all") one_job).0.mobile
unfolding get_list_jobs find_job get_job_id string_of get
filter_hides_example =
    filter_hides sample_ecma (text "x") (text "all") one_job "a" job_a one_job-IsValid refl
