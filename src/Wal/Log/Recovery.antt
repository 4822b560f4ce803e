-- ===== src/Wal/Log/Recovery.antt =====
-- Opening a log on the directory that another one left.
use shoka.Prelude.{ℕ, ◌<◌, ◌≡◌, ◌∙◌, refl, sym, none, [], arith, All, inl}
use shoka.Prelude.Assoc.{nat_key, lookup, Distinct, total}
use shoka.Text.{Text}
use shoka.Text.Keys.{text_key}
use shoka.Wal.Seq.{u64_mod, seq_name}
use shoka.Wal.Wire.{Codec}
use shoka.Wal.Log.{Dir, Log, Io, scan_files, open_log}
use shoka.Wal.Log.Consistent.{disk_head, IsConsistent, IsSettled}
use shoka.Wal.Log.Scan.{IsCanonical, ReadsAll, Scanned, scan_files-Scanned}

abbrev fresh_log : Dir → Dir → Log
fresh_log dir corrupted = record {
  dir = dir;
  corrupted = corrupted;
  next_seq = 1;
  pending = [];
  pending_bytes = 0;
}

module _ (c : Codec) (io : Io) (dir corrupted : Dir) (names : Distinct dir)
    (canonical : All IsCanonical dir) (settled : (name : Text) → IsSettled io name) where
  start-Scanned : Scanned c io dir dir (fresh_log dir corrupted) 0
  unfolding lookup total
  start-Scanned = record {
    done = λ s b absent. rw absent refl;
    coming = λ s f b found. (refl, found);
    below = λ s h found. cc;
    distinct = tt;
    bytes = refl;
    room = omega arith;
    kept = λ all s b. refl;
  }

  scanned :
      Scanned c io dir []
        (scan_files c io dir (fresh_log dir corrupted, 0)).0
        (scan_files c io dir (fresh_log dir corrupted, 0)).1
  scanned =
      scan_files-Scanned c io dir dir (fresh_log dir corrupted) 0 settled names canonical
        start-Scanned

  no_file : (k : Text) → lookup k (let d : Dir = [] in d) ≡ none
  unfolding lookup
  no_file k = refl

  -- Opening a directory gives a consistent log, whatever its files hold, when the names are distinct
  -- and those that read as sequence numbers are canonical; a quarantine may fail, but not that of a
  -- file whose read failed.
  pub open_log-IsConsistent : IsConsistent c (open_log c io dir corrupted)
  unfolding open_log
  open_log-IsConsistent = record {
    on_disk = λ s b. scanned.done s b (no_file (seq_name s));
    below = λ s h found. omega (arith, scanned.below s h found, scanned.room);
    distinct = scanned.distinct;
    bytes = scanned.bytes;
  }

  -- Where no read fails, an opened log has pending every entry that passes the checks in its
  -- directory, under the number of its file name, and nothing else. The directory's names are distinct
  -- and canonical.
  pub pending-open_log :
      ReadsAll io
      → (s : ℕ) → s < u64_mod
      → lookup s (open_log c io dir corrupted).pending ≡ disk_head c dir s
  unfolding open_log
  pending-open_log all s b = scanned.done s b (no_file (seq_name s)) ∙ scanned.kept all s b

-- After a crash the log that is opened on the directory of a consistent one, by reads that do not
-- fail, has the same entries pending, under the same sequence numbers, when the directory's names are
-- distinct and canonical.
pub recovery :
    (c : Codec) (io : Io) (l : Log)
    → ReadsAll io
    → IsConsistent c l
    → Distinct l.dir
    → All IsCanonical l.dir
    → (s : ℕ) → s < u64_mod
    → lookup s (open_log c io l.dir l.corrupted).pending ≡ lookup s l.pending
recovery c io l all h names canonical s b =
    pending-open_log c io l.dir l.corrupted names canonical (λ name. inl (all name)) all s b
    ∙ sym (h.on_disk s b)
