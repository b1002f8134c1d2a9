-- ===== src/Engine.antt =====
-- examples/stub-engine/main.go: the matching engine that a benchmark drives.
pub mod Order
pub mod Search
pub mod Book
pub mod Ladder
pub mod Removal
pub mod Match
pub mod Matching
pub mod Ends
pub mod State
pub mod Process
pub mod Sides
pub mod Invariant
pub mod Requests
pub mod Served
pub mod Answers
pub mod Resting
pub mod Cancel
pub mod Ring
pub mod Publish
pub mod Fifo
pub mod Shard
pub mod Disruptor
pub mod Mirror
mod Tests
mod Races
