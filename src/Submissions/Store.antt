-- ===== src/Submissions/Store.antt =====
-- services/submission-api/internal/store/json_store.go: the two saves. The lock, the load, the write
-- and the reads are the same functions as in the orchestrator's store, on the same file.
use quant_dominater.Base.{Option, some, List}
use quant_dominater.Base.Keys.{upsert}
use quant_dominater.Orchestrator.Model.{Submission, BenchmarkRun}
use quant_dominater.Orchestrator.Store.{Os, Error, File, locked_snapshot, write_locked}

-- `upsertSubmission`
abbrev pub upsert_submission : Submission → List Submission → List Submission
upsert_submission = upsert (λ (s : Submission). s.submission_id)

-- `upsertRun`
abbrev pub upsert_run : BenchmarkRun → List BenchmarkRun → List BenchmarkRun
upsert_run = upsert (λ (r : BenchmarkRun). r.run_id)

-- `SaveSubmission`
unfoldable pub save_submission : Os → Submission → File → File × Option Error
unfolding upsert
save_submission os s file =
    locked_snapshot os file (λ e. (file, some e))
      (λ snap.
        write_locked os (record snap { submissions = upsert_submission s snap.submissions }) file)

-- `SaveRun`, which has no terminal-state guard
unfoldable pub put_run : Os → BenchmarkRun → File → File × Option Error
unfolding upsert
put_run os run file =
    locked_snapshot os file (λ e. (file, some e))
      (λ snap. write_locked os (record snap { runs = upsert_run run snap.runs }) file)
