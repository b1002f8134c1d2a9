-- ===== src/Submissions.antt =====
-- services/submission-api: the service that stores submissions and the requests for runs of them, in
-- the index file that the orchestrator works on.
pub mod Store
pub mod Handler
pub mod Upserts
pub mod Claimed
pub mod Uploads
mod Tests
