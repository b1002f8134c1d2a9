-- ===== src/Leaderboard.antt =====
-- services/leaderboard-api/internal/board and internal/redisboard: the two boards of results and their
-- subscribers.
pub mod Board
pub mod Results
pub mod Ranking
pub mod Redis
pub mod Scorecards
pub mod Polls
mod Codec
mod Tests
mod Trials
