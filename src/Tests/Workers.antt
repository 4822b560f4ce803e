-- ===== src/Tests/Workers.antt =====
-- internal/storage/walworker on a concrete log.
use shoka.Prelude.{ℕ, true, false, none, [], All, AnyOf, ◌≡◌, ltb, if◌then◌else◌}
use shoka.WalWorker.{Config, Pool, failed, committed, CommitResult, Outside, dispatch}
use shoka.WalWorker.Dispatch.{AreFree, AreApart, IsFirst, dispatch-IsFirst}
use shoka.Tests.Logs.{fine, one_log}

-- The commit fails once, and then it succeeds.
abbrev second_time : ℕ → CommitResult
second_time k = if ltb k 1 then failed else committed

abbrev outside : Outside
outside = record {
  commit = second_time;
  stops = λ k. false;
  stops_waiting = λ k. false;
  deposits = none;
  reading = fine;
  removing = fine;
}

abbrev config : Config
config = record {
  min_workers = 1;
  max_workers = 8;
  idle_timeout = 1;
  scan_interval = 1;
  backoff_initial = 100;
  backoff_max = 150;
  max_commit_attempts = 3;
}

abbrev pool : Pool
pool = record {
  log = one_log;
  commits_total = 0;
  commits_failed = 0;
  quarantined_total = 0;
  quarantine_failed = 0;
}

dispatch-IsFirst_example :
    All (λ h. AnyOf (λ row. row.1 ≡ h) one_log.pending) (dispatch (λ h. true) one_log []).0
    × AreFree [] (dispatch (λ h. true) one_log []).0
    × AreApart (dispatch (λ h. true) one_log []).0
    × All (λ h. All (λ row. IsFirst h row.1) one_log.pending) (dispatch (λ h. true) one_log []).0
dispatch-IsFirst_example = dispatch-IsFirst (λ h. true) one_log []
