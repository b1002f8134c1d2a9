-- ===== src/Submissions/Handler.antt =====
-- services/submission-api/internal/api/handler.go: `CreateSubmission` and `CreateRun`, with the
-- requests as they are after HTTP and JSON, and the answers that the two write.
use quant_dominater.Base.{
  ℕ, ◌+◌, ◌-◌, String, Bool, false, Option, none, some, ltb, str_eq, if◌then◌else◌,
}
use quant_dominater.Base.Int.{ℤ, pos, eqb_ℤ, ltb_ℤ}
use quant_dominater.Orchestrator.Model.{
  Time, unix, Submission, SubmissionArtifact, SandboxSpec, BenchmarkRunConfig, BenchmarkRun, queued,
}
use quant_dominater.Orchestrator.Limits.{clamp}
use quant_dominater.Orchestrator.Store.{
  Os, Error, not_found, message, Result, ok, err, File, get_submission,
}
use quant_dominater.Submissions.Store.{save_submission, put_run}

pub record CreateRunRequest : Type 0 where
  pub benchmark_seed : ℤ
  pub sandbox : SandboxSpec
  pub config : BenchmarkRunConfig

-- `DefaultRunRequest`
abbrev pub default_run_request : CreateRunRequest
default_run_request = record {
  benchmark_seed = pos 42;
  sandbox = record { cpu_limit = "1"; memory_limit = "512Mi"; network_egress = false };
  config = record {
    bot_count = pos 10;
    rate_per_bot = pos 2;
    duration_sec = pos 5;
    warmup_sec = pos 0;
    engine_endpoint = "";
  };
}

abbrev pub text_or_default : String → String → String
text_or_default fallback s = if str_eq s "" then fallback else s

-- `normalizeRunRequest`
unfoldable pub normalize_run_request : CreateRunRequest → CreateRunRequest
normalize_run_request req = record {
  benchmark_seed =
      if eqb_ℤ req.benchmark_seed (pos 0)
      then default_run_request.benchmark_seed
      else req.benchmark_seed;
  sandbox = record {
    cpu_limit = text_or_default default_run_request.sandbox.cpu_limit req.sandbox.cpu_limit;
    memory_limit =
        text_or_default default_run_request.sandbox.memory_limit req.sandbox.memory_limit;
    network_egress = false;
  };
  config = record req.config {
    bot_count = clamp 10 5000 req.config.bot_count;
    rate_per_bot = clamp 2 2000 req.config.rate_per_bot;
    duration_sec = clamp 5 300 req.config.duration_sec;
    warmup_sec = if ltb_ℤ req.config.warmup_sec (pos 0) then pos 0 else req.config.warmup_sec;
  };
}

-- An HTTP answer: a status code with a value, or with an error.
pub data Response (A : Type 0) : Type 0 where
  answers : ℕ → A → Response A
  refuses : ℕ → Error → Response A

-- `handleStoreError`
abbrev pub store_error_code : Error → ℕ
store_error_code not_found = 404
store_error_code e = 500

-- The body of a request for a run. A JSON document overwrites the fields that it has.
pub data Body : Type 0 where
  absent : Body
  invalid : Body
  decodes : (CreateRunRequest → CreateRunRequest) → Body

abbrev pub read_body : Body → Option CreateRunRequest
read_body absent = some default_run_request
read_body invalid = none
read_body (decodes f) = some (f default_run_request)

-- What one `CreateRun` is answered; `run_id` is `uniqueID("run", now)`.
pub record RunAnswers : Type 0 where
  pub run_id : String
  pub now : Time
  pub os : Os

abbrev pub queued_run : RunAnswers → Submission → CreateRunRequest → BenchmarkRun
queued_run a submission req = record {
  run_id = a.run_id;
  submission_id = submission.submission_id;
  team_id = submission.team_id;
  status = queued;
  benchmark_seed = req.benchmark_seed;
  sandbox = req.sandbox;
  config = req.config;
  artifact_dir = "";
  valid = none;
  score = 0;
  failure_stage = "";
  failure_reason = "";
  created_at_unix = unix a.now;
  updated_at_unix = unix a.now;
  finished_at_unix = pos 0;
  created_at = a.now;
  updated_at = a.now;
  finished_at = none;
}

abbrev pub reply_run : BenchmarkRun → File × Option Error → File × Response BenchmarkRun
reply_run run (file, none) = (file, answers 201 run)
reply_run run (file, some e) = (file, refuses 500 e)

-- `CreateRun` behind the read of the submission
abbrev pub create_run_of :
    RunAnswers → Body → Result Submission → File → File × Response BenchmarkRun
create_run_of a body (err e) file = (file, refuses (store_error_code e) e)
create_run_of a body (ok submission) file = elim (read_body body) [
  | none ↦ (file, refuses 400 (message "invalid json"))
  | some req ↦
      let run = queued_run a submission (normalize_run_request req) in
      reply_run run (put_run a.os run file)
]

-- `CreateRun`
unfoldable pub request_run : RunAnswers → String → Body → File → File × Response BenchmarkRun
unfolding normalize_run_request put_run
request_run a submission_id body file =
    create_run_of a body (get_submission submission_id file) file

-- A multipart form, and what one `CreateSubmission` is answered. `form_error` is that of
-- `ParseMultipartForm`, and `stored` the answer of the artifact store.
pub record Upload : Type 0 where
  pub form_error : Bool
  pub team_id : String
  pub language : String
  pub protocol : String
  pub has_artifact : Bool
  pub submission_id : String
  pub now : Time
  pub stored : Result SubmissionArtifact
  pub os : Os

pub record Api : Type 0 where
  pub file : File
  pub upload_slots : ℕ

abbrev pub max_concurrent_submissions : ℕ
max_concurrent_submissions = 8

-- `defaultString`, with `strings.TrimSpace`
abbrev pub default_string : (String → String) → String → String → String
default_string trim_space value fallback = text_or_default fallback (trim_space value)

abbrev pub reply_submission : Submission → File × Option Error → File × Response Submission
reply_submission s (file, none) = (file, answers 201 s)
reply_submission s (file, some e) = (file, refuses 500 e)

-- `CreateSubmission` with a slot
abbrev pub create_with_slot : (String → String) → Upload → File → File × Response Submission
create_with_slot trim_space u file =
    if u.form_error
    then (file, refuses 400 (message "expected multipart/form-data with artifact file"))
    else if str_eq (trim_space u.team_id) ""
    then (file, refuses 400 (message "team_id is required"))
    else if u.has_artifact
    then elim u.stored [
      | err e ↦ (file, refuses 500 e)
      | ok artifact ↦
          let s : Submission = record {
            submission_id = u.submission_id;
            team_id = trim_space u.team_id;
            language = default_string trim_space u.language "go";
            protocol = default_string trim_space u.protocol "ws-json";
            artifact = artifact;
            created_at_unix = unix u.now;
            created_at = u.now;
          } in
          reply_submission s (save_submission u.os s file)
    ]
    else (file, refuses 400 (message "artifact file is required"))

-- The deferred `<-h.uploadSlot`
abbrev pub release_slot : ℕ → File × Response Submission → Api × Response Submission
release_slot slots (file, r) = (record { file = file; upload_slots = slots - 1 }, r)

-- `CreateSubmission`
unfoldable pub create_submission : (String → String) → Upload → Api → Api × Response Submission
unfolding save_submission
create_submission trim_space u api =
    if ltb api.upload_slots max_concurrent_submissions
    then release_slot (api.upload_slots + 1) (create_with_slot trim_space u api.file)
    else (api, refuses 503 (message "too many concurrent submissions; retry shortly"))
