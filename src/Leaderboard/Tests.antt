-- ===== src/Leaderboard/Tests.antt =====
-- Runs of the board at concrete inputs.
use quant_dominater.Base.{ℕ, String, true, false, none, some, List, [], ◌∷◌, ◌≡◌, refl, ◌⊎◌, str_eq}
use quant_dominater.Base.Int.{pos}
use quant_dominater.Leaderboard.Board.{
  ranks_before, Entry, Board, missing, new_board, put, offer, broadcast, completed, upsert,
  subscribe, unsubscribe,
}
use quant_dominater.Leaderboard.Ranking.{ranks_before_weak}
use quant_dominater.Leaderboard.Results.{
  get, upsert-get, Act, upserts, subscribes, unsubscribes, reads, act, act_all, BoardOk,
  act_all-BoardOk,
}

abbrev pub an_entry : String → ℕ → Entry
an_entry id score = record {
  run_id = id;
  team_id = "";
  score = score;
  valid = true;
  status = "finished";
  failure_reason = "";
  orders_sent = pos 10;
  acks_received = pos 10;
  fills_received = pos 4;
  timeouts = pos 0;
  connect_errors = pos 0;
  fills_checked = pos 4;
  p50_ms = 0;
  p90_ms = 0;
  p99_ms = 0;
  p999_ms = 0;
  tps = 0;
  peak_tps = 0;
  latency_score = 0;
  throughput_score = 0;
  stability_score = 0;
  resource_score = 0;
  correctness_gate = "passed";
  artifact_dir = "";
  updated_at = 0;
}

abbrev as_stored : List Entry → List Entry
as_stored es = es

abbrev empty_board : Board
empty_board = record { entries = []; subscribers = []; file = missing }

program : Unit {0}
unfolding new_board put offer broadcast upsert subscribe unsubscribe get act act_all
program = tt

upsert_of_one_run :
    let b = (upsert as_stored none 5 (an_entry "r1" 7) empty_board).1 in
    (get "r1" b.entries ≡ some (completed 5 (an_entry "r1" 7)))
    × ((j : String) → str_eq "r1" j ≡ false → get j b.entries ≡ get j [])
upsert_of_one_run = upsert-get as_stored none 5 (an_entry "r1" 7) empty_board refl

abbrev calls : List Act
calls =
    subscribes 3
    ∷ upserts none 5 (an_entry "r1" 7)
    ∷ reads 3
    ∷ upserts none 6 (an_entry "" 7)
    ∷ unsubscribes 3
    ∷ []

act_all-BoardOk_example : BoardOk (act_all as_stored calls empty_board)
unfolding program
act_all-BoardOk_example = act_all-BoardOk as_stored missing empty_board calls refl

-- The team of an entry that names none is its run.
team_default : (completed 5 (an_entry "r1" 7)).team_id ≡ "r1"
team_default = refl

-- 1.0 and 2.0
two_scores :
    let low = an_entry "r1" 0x3ff0_0000_0000_0000 in
    let high = an_entry "r2" 0x4000_0000_0000_0000 in
    (ranks_before high low ≡ true → ranks_before low high ≡ false)
    × (ranks_before high low ≡ true → ranks_before low low ≡ true → ranks_before high low ≡ true)
    × (ranks_before high low ≡ true
        → (ranks_before high low ≡ true) ⊎ (ranks_before low low ≡ true))
two_scores =
    ranks_before_weak (an_entry "r2" 0x4000_0000_0000_0000) (an_entry "r1" 0x3ff0_0000_0000_0000)
      (an_entry "r1" 0x3ff0_0000_0000_0000) refl refl refl

higher_score_first :
    ranks_before (an_entry "r2" 0x4000_0000_0000_0000) (an_entry "r1" 0x3ff0_0000_0000_0000) ≡ true
higher_score_first = refl
