-- ===== src/WalWorker/Process.antt =====
-- How the processing of one entry ends, and what it leaves of the log.
use shoka.Prelude.{ℕ, ◌+◌, ◌<◌, ◌≡◌, ◌≢◌, ◌⊎◌, true, none, some, List}
use shoka.Prelude.Assoc.{nat_key, lookup}
use shoka.Text.Keys.{text_key}
use shoka.Wal.Seq.{seq_name}
use shoka.Wal.Wire.{Codec, err, ReadError}
use shoka.Wal.Log.{Log, Io, read_by_id, remove_entry}
use shoka.WalWorker.{
  Config, Pool, committed, failed, failed_permanently, Outside, Exit, done, quarantined, kept,
  shut_down, unreadable,
}

-- The attempts up to the last all failed, and not for good.
abbrev pub HaveFailed : Outside → ℕ → Type 0
HaveFailed out k = (j : ℕ) → j < k → out.commit j ≡ failed

-- A failure after which there is no other attempt.
abbrev pub IsFinal : Config → Outside → ℕ → Type 0
IsFinal cfg out k =
    (out.commit k ≡ failed_permanently)
    ⊎ ((out.commit k ≡ failed) × (k + 1 ≡ cfg.max_commit_attempts))

-- What a Remove leaves of the log: without the entry, in memory and in the directory, or as it was,
-- where the file is there and cannot be deleted.
abbrev pub IsRemoved : Io → ℕ → Log → Log → Type 0
IsRemoved io seq l l' =
    ((io.remove_fails ≡ true) × (lookup (seq_name seq) l.dir ≢ none) × (l' ≡ l))
    ⊎ ((lookup seq l'.pending ≡ none) × (lookup (seq_name seq) l'.dir ≡ none))

module _ (c : Codec) (cfg : Config) (out : Outside) (seq : ℕ) where
  -- The ways in which an entry's processing ends, on a log: out of fuel is not one of them.
  pub data EndsWell (l : Log) : Exit × Pool × List ℕ → Type 0 where
    by_commit :
        {p : Pool} {waits : List ℕ} (k : ℕ)
        → k < cfg.max_commit_attempts
        → HaveFailed out k
        → out.commit k ≡ committed
        → p.log ≡ (remove_entry c out.removing seq l).0
        → IsRemoved out.removing seq l p.log
        → EndsWell l (done, p, waits)
    by_deposit :
        {p : Pool} {waits : List ℕ} (k : ℕ)
        → k < cfg.max_commit_attempts
        → HaveFailed out k
        → IsFinal cfg out k
        → out.deposits ≡ some true
        → p.log ≡ (remove_entry c out.removing seq l).0
        → IsRemoved out.removing seq l p.log
        → EndsWell l (quarantined, p, waits)
    by_keeping :
        {p : Pool} {waits : List ℕ} (k : ℕ)
        → k < cfg.max_commit_attempts
        → HaveFailed out k
        → IsFinal cfg out k
        → out.deposits ≢ some true
        → p.log ≡ l
        → EndsWell l (kept, p, waits)
    by_stopping : {p : Pool} {waits : List ℕ} → p.log ≡ l → EndsWell l (shut_down, p, waits)
    by_reading :
        {p : Pool} {waits : List ℕ} (e : ReadError)
        → (read_by_id c out.reading seq l).1 ≡ err e
        → p.log ≡ (read_by_id c out.reading seq l).0
        → EndsWell l (unreadable, p, waits)
