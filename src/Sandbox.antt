-- ===== src/Sandbox.antt =====
-- services/sandbox-runner: the service that builds and starts submitted engines, here its handling of
-- untrusted artifacts.
pub mod Paths
pub mod Artifact
pub mod Contained
pub mod Unzip
pub mod Within
pub mod Extracted
pub mod Addresses
pub mod Dockerfile
pub mod Context
pub mod Prepared
pub mod Instructions
pub mod Screened
pub mod Joined
mod Tests
mod Trials
