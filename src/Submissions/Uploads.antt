-- ===== src/Submissions/Uploads.antt =====
-- How `CreateSubmission` of services/submission-api/internal/api/handler.go answers.
use quant_dominater.Base.{String, false, Option, none, some, ◌≡◌, str_eq}
use quant_dominater.Orchestrator.Model.{Submission}
use quant_dominater.Orchestrator.Store.{Error, ok, File, get_submission, get_run}
use quant_dominater.Submissions.Handler.{Response, answers, refuses, Upload, Api}

abbrev submission_key : Submission → String
submission_key s = s.submission_id

-- What the caller of `SaveSubmission` can rely on, by how it ended.
abbrev pub Keeps : Submission → File → File × Option Error → Type 0
Keeps s file (file', some e) = file' ≡ file
Keeps s file (file', none) =
    (get_submission s.submission_id file' ≡ ok s)
    × ((id : String)
        → str_eq s.submission_id id ≡ false
        → get_submission id file' ≡ get_submission id file)
    × ((id : String) → get_run id file' ≡ get_run id file)

-- What an answer with a slot says.
abbrev Stored : Upload → File → File × Response Submission → Type 0
Stored u file (file', refuses code e) = file' ≡ file
Stored u file (file', answers code s) =
    (code ≡ 201)
    × (s.submission_id ≡ u.submission_id)
    × (str_eq s.team_id "" ≡ false)
    × (u.stored ≡ ok s.artifact)
    × Keeps s file (file', none)

-- What an answer to an upload says of the service.
abbrev pub Uploaded : Upload → Api → Api × Response Submission → Type 0
Uploaded u api (api', r) = (api'.upload_slots ≡ api.upload_slots) × Stored u api.file (api'.file, r)
