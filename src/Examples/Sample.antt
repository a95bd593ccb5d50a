-- ===== src/Examples/Sample.antt =====
-- A page to try the definitions on: conversions that know a few values, and a status contract.
use fetchly.Common.{String, true, false, none, [], ◌∷◌, ◌==◌, if◌then◌else◌, eqb}
use fetchly.Common.Int.{pos, negsuc}
use fetchly.Ecma.{Ecma, Number, nan, infinite, finite, Value, text, num, Object, end, field}
use fetchly.Config.{Env, Contract}
use fetchly.Jobs.Surface.{Surface}
use fetchly.Jobs.State.{State}
use fetchly.Jobs.Session.{Session}

abbrev number_text : Number → String
number_text nan = "NaN"
number_text (infinite _) = "Infinity"
number_text (finite (pos n)) = if eqb n 7_000_000 then "7" else "0"
number_text (finite (negsuc n)) = "-1"

abbrev text_number : String → Number
text_number s = if s == "7" then finite (pos 7_000_000) else nan

abbrev pub sample_ecma : Ecma
sample_ecma = record {
  number_of_text = text_number;
  text_of_number = number_text;
  trim = λ s. s;
  lower = λ s. s;
}

abbrev pub sample_contract : Contract
sample_contract = record {
  downloadable = text "done" ∷ [];
  cancellable = text "queued" ∷ text "downloading" ∷ [];
  retryable = text "error" ∷ text "cancelled" ∷ [];
  terminal = text "done" ∷ text "error" ∷ text "cancelled" ∷ [];
  progress = text "downloading" ∷ text "transcoding" ∷ [];
  meta = end;
}

abbrev pub sample_env : Env
sample_env = record { ecma = sample_ecma; contract = sample_contract }

abbrev pub seven : Value
seven = num (finite (pos 7_000_000))

-- A job at seven per cent.
abbrev pub job_a : Object
job_a = field "id" (text "a") (field "status" (text "downloading") (field "progress" seven end))

abbrev pub job_b : Object
job_b = field "id" (text "b") (field "status" (text "queued") end)

abbrev pub empty_surface : Surface
empty_surface = record { mounted = true; children = []; nodes = [] }

abbrev pub empty_state : State
empty_state = record {
  loading = false;
  done = false;
  next_offset = 0;
  preserve_history = false;
  jobs = [];
  job_ids = [];
  desktop = empty_surface;
  mobile = empty_surface;
  mobile_view = false;
  initialized = false;
  detached_job_id = none;
  desktop_hidden = false;
  mobile_hidden = true;
}

abbrev pub empty_session : Session
empty_session = record { state = empty_state; requests = [] }
