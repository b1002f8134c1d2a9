-- ===== src/Submissions/Tests.antt =====
-- Runs of the submission service at concrete inputs.
use quant_dominater.Base.{String, true, false, none, ◌≡◌, refl}
use quant_dominater.Base.Keys.{upsert}
use quant_dominater.Base.Int.{pos, negsuc}
use quant_dominater.Orchestrator.Model.{SubmissionArtifact}
use quant_dominater.Orchestrator.Store.{
  Os, not_found, message, ok, File, empty, scores_finite, write_locked, find_submission,
  get_submission, find_run, get_run, locked_snapshot, claim_in, claim_run,
}
use quant_dominater.Submissions.Store.{save_submission, put_run}
use quant_dominater.Submissions.Handler.{
  CreateRunRequest, normalize_run_request, refuses, absent, invalid, decodes, RunAnswers,
  request_run, Upload, Api, create_submission,
}
use quant_dominater.Submissions.Claimed.{Requested, request_run-Requested}

program : Unit {0}
unfolding upsert scores_finite write_locked find_submission get_submission find_run get_run
    locked_snapshot claim_in claim_run save_submission put_run normalize_run_request request_run
    create_submission
program = tt

abbrev quiet : Os
quiet = record {
  lock_mkdir = none;
  lock_open = none;
  flock = none;
  mkdir = none;
  write_file = none;
  rename = none;
}

abbrev an_artifact : SubmissionArtifact
an_artifact = record {
  artifact_id = "art_1";
  uri = "local://submissions/sub_1/art_1_engine.zip";
  sha256 = "";
  size_bytes = pos 10;
  filename = "engine.zip";
  content_type = "";
}

abbrev an_upload : Upload
an_upload = record {
  form_error = false;
  team_id = "red";
  language = "";
  protocol = "";
  has_artifact = true;
  submission_id = "sub_1";
  now = 100;
  stored = ok an_artifact;
  os = quiet;
}

abbrev as_it_is : String → String
as_it_is s = s

abbrev fresh : Api
fresh = record { file = empty; upload_slots = 7 }

abbrev index : File
index = (create_submission as_it_is an_upload fresh).0.file

-- A ninth upload at the same time is turned away.
turned_away :
    (create_submission as_it_is an_upload (record fresh { upload_slots = 8 })).1
    ≡ refuses 503 (message "too many concurrent submissions; retry shortly")
unfolding program
turned_away = refl

-- The request asks for network egress and for more bots than there may be.
abbrev greedy : CreateRunRequest → CreateRunRequest
greedy req = record req {
  sandbox = record req.sandbox { network_egress = true };
  config = record req.config { bot_count = pos 1000000; rate_per_bot = negsuc 3 };
}

abbrev a_request : RunAnswers
a_request = record { run_id = "run_1"; now = 200; os = quiet }

request_run-Requested_example :
    Requested a_request "sub_1" index (request_run a_request "sub_1" (decodes greedy) index)
request_run-Requested_example = request_run-Requested a_request "sub_1" (decodes greedy) index

abbrev requested : File
requested = (request_run a_request "sub_1" (decodes greedy) index).0

handed_out : (claim_run quiet 300 "run_1" requested).1.1 ≡ none
unfolding program
handed_out = refl

unknown_submission : (request_run a_request "sub_2" absent index).1 ≡ refuses 404 not_found
unfolding program
unknown_submission = refl

not_json : (request_run a_request "sub_1" invalid index).1 ≡ refuses 400 (message "invalid json")
unfolding program
not_json = refl
