-- ===== src/WalWorker.antt =====
-- internal/storage/walworker/walworker.go: the configuration, the dispatch of pending entries to
-- workers, and the commit of one entry with its retries. What the outside does, the commits, the
-- deposit in lost+found, the shutdown and the file system, is given attempt by attempt.
pub mod Process
pub mod Retries
pub mod Dispatch
use shoka.Prelude.{
  ℕ, zero, suc, ◌+◌, ◌*◌, ◌%◌, ◌^◌, ◌==◌, Bool, true, false, not, ◌&&◌, ◌||◌, Option, none, some,
  List, [], ◌∷◌, ◌++◌, ltb, leb, if◌then◌else◌,
}
use shoka.Prelude.Assoc.{lookup}
use shoka.Text.{Text, codes, text_eq}
use shoka.Wal.Seq.{u64_mod}
use shoka.Wal.Wire.{Entry, EntryHead, Codec, Result, ok, err}
use shoka.Wal.Log.{Log, Io, read_by_id, remove_entry}
use shoka.Wal.Log.Listing.{list_pending}

-- Durations in nanoseconds; a value that is not positive takes its default.
pub record Config : Type 0 where
  pub min_workers : ℕ
  pub max_workers : ℕ
  pub idle_timeout : ℕ
  pub scan_interval : ℕ
  pub backoff_initial : ℕ
  pub backoff_max : ℕ
  pub max_commit_attempts : ℕ

abbrev pub default_to : ℕ → ℕ → ℕ
default_to d x = if leb x 0 then d else x

abbrev pub millisecond : ℕ
millisecond = 1000000

unfoldable pub apply_defaults : Config → Config
apply_defaults c =
    let min = default_to 1 c.min_workers in
    let max = default_to 8 c.max_workers in
    record {
      min_workers = min;
      max_workers = if ltb max min then min else max;
      idle_timeout = default_to (30000 * millisecond) c.idle_timeout;
      scan_interval = default_to (100 * millisecond) c.scan_interval;
      backoff_initial = default_to (100 * millisecond) c.backoff_initial;
      backoff_max = default_to (30000 * millisecond) c.backoff_max;
      max_commit_attempts = default_to 10 c.max_commit_attempts;
    }

pub record Pool : Type 0 where
  pub log : Log
  pub commits_total : ℕ
  pub commits_failed : ℕ
  pub quarantined_total : ℕ
  pub quarantine_failed : ℕ

-- What a call of the commit function returns.
pub data CommitResult : Type 0 where
  committed failed failed_permanently : CommitResult

-- What happens outside while one entry is processed: each commit by its attempt, whether the pool
-- stops before an attempt or during the wait after it, and the deposit, which may not be configured.
pub record Outside : Type 0 where
  pub commit : ℕ → CommitResult
  pub stops : ℕ → Bool
  pub stops_waiting : ℕ → Bool
  pub deposits : Option Bool
  pub reading : Io
  pub removing : Io

-- How process returns.
pub data Exit : Type 0 where
  done quarantined kept shut_down unreadable out_of_fuel : Exit

abbrev pub add_one : ℕ → ℕ
add_one n = (n + 1) % u64_mod

-- x < y of two 64-bit patterns read as int64
unfoldable pub signed_ltb : ℕ → ℕ → Bool
signed_ltb x y = ltb ((x + 2 ^ 63) % u64_mod) ((y + 2 ^ 63) % u64_mod)

-- time.After does not wait for a Duration that is negative.
unfoldable pub waited : ℕ → ℕ
waited backoff = if leb (2 ^ 63) backoff then 0 else backoff

module _ (c : Codec) (cfg : Config) (out : Outside) (seq : ℕ) where
  -- `_ = p.log.Remove(...)`: an error is passed over.
  abbrev pub without_entry : Pool → Pool
  without_entry p = record p { log = (remove_entry c out.removing seq p.log).0 }

  -- runQuarantine, with whether the entry was removed.
  abbrev pub quarantine_by : Option Bool → Pool → Bool × Pool
  quarantine_by none p = (false, p)
  quarantine_by (some false) p =
      (false, record p { quarantine_failed = add_one p.quarantine_failed })
  quarantine_by (some true) p =
      (true, record (without_entry p) { quarantined_total = add_one p.quarantined_total })

  unfoldable pub run_quarantine : Pool → Bool × Pool
  run_quarantine p = quarantine_by out.deposits p

  -- backoff *= 2 on an int64 Duration, which wraps, with comparisons of int64; a configured backoff is
  -- such a Duration too.
  unfoldable pub next_backoff : ℕ → ℕ
  unfolding signed_ltb
  next_backoff backoff =
      let doubled = backoff * 2 % u64_mod in
      if signed_ltb backoff cfg.backoff_max
      then if signed_ltb cfg.backoff_max doubled then cfg.backoff_max else doubled
      else backoff

  -- The end of the loop after a failure that is final: a wait, where the entry is kept.
  abbrev pub give_up : ℕ → Bool × Pool → Exit × Pool × List ℕ
  give_up backoff (true, p) = (quarantined, p, [])
  give_up backoff (false, p) = (kept, p, waited backoff ∷ [])

  abbrev pub failed_once : Pool → Pool
  failed_once p = record p { commits_failed = add_one p.commits_failed }

  abbrev pub committed_once : Pool → Pool
  committed_once p = record (without_entry p) { commits_total = add_one p.commits_total }

  abbrev pub with_wait : ℕ → Exit × Pool × List ℕ → Exit × Pool × List ℕ
  with_wait backoff (e, p, waits) = (e, p, waited backoff ∷ waits)

  -- After an attempt; `later` is the rest of the loop.
  abbrev pub after_attempt :
      ℕ → ℕ → Pool → Exit × Pool × List ℕ → CommitResult → Exit × Pool × List ℕ
  after_attempt attempts backoff p later committed = (done, committed_once p, [])
  after_attempt attempts backoff p later failed_permanently =
      give_up backoff (run_quarantine (failed_once p))
  after_attempt attempts backoff p later failed =
      if leb cfg.max_commit_attempts (attempts + 1)
      then give_up backoff (run_quarantine (failed_once p))
      else if out.stops_waiting attempts
      then (shut_down, failed_once p, waited backoff ∷ [])
      else with_wait backoff later

  -- The loop on fuel, with the waits.
  unfoldable pub commit_loop : ℕ → ℕ → ℕ → Pool → Exit × Pool × List ℕ
  unfolding run_quarantine next_backoff
  commit_loop zero attempts backoff p = (out_of_fuel, p, [])
  commit_loop (suc fuel) attempts backoff p =
      let later = commit_loop fuel (attempts + 1) (next_backoff backoff) (failed_once p) in
      if out.stops attempts
      then (shut_down, p, [])
      else after_attempt attempts backoff p later (out.commit attempts)

  abbrev pub after_reading : Pool → Log × Result Entry → Exit × Pool × List ℕ
  after_reading p (l, err e) =
      (unreadable, record p { log = l; commits_failed = add_one p.commits_failed }, [])
  after_reading p (l, ok e) =
      commit_loop cfg.max_commit_attempts 0 cfg.backoff_initial (record p { log = l })

  unfoldable pub process : Pool → Exit × Pool × List ℕ
  unfolding commit_loop
  process p = after_reading p (read_by_id c out.reading seq p.log)

-- h.Namespace + "/" + h.Project
abbrev pub project_key : EntryHead → Text
project_key h = h.namespace ++ b'/' ∷ h.project

unfoldable pub is_in_flight : Text → List Text → Bool
is_in_flight key [] = false
is_in_flight key (k ∷ keys) =
    let rest = is_in_flight key keys in if text_eq k key then true else rest

-- The entries that are handed to workers, and the marks after; `takes` says whether a worker is free.
unfoldable pub assign_heads :
    (EntryHead → Bool) → List EntryHead → List Text → List EntryHead × List Text
unfolding is_in_flight
assign_heads takes [] in_flight = ([], in_flight)
assign_heads takes (h ∷ heads) in_flight =
    let passed = assign_heads takes heads in_flight in
    let (assigned, marks) = assign_heads takes heads (project_key h ∷ in_flight) in
    if is_in_flight (project_key h) in_flight
    then passed
    else if takes h
    then (h ∷ assigned, marks)
    else ([], in_flight)

unfoldable pub dispatch : (EntryHead → Bool) → Log → List Text → List EntryHead × List Text
unfolding assign_heads list_pending
dispatch takes l in_flight = assign_heads takes (list_pending l) in_flight
