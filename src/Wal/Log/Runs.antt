-- ===== src/Wal/Log/Runs.antt =====
-- Every sequence of operations, failures and restarts of a log.
use shoka.Prelude.{
  ℕ, ◌+◌, ◌<◌, ◌≡◌, ◌∙◌, sym, Option, none, some, [], ◌∷◌, arith, ◌&&◌, Bool-cases, inl, inr,
}
use shoka.Prelude.Assoc.{nat_key, lookup, remove}
use mathlib.Core.Path.{subst}
use shoka.Text.Keys.{text_key}
use shoka.Wal.Seq.{u64_mod, seq_name, parse_seq_name}
use shoka.Wal.Wire.{Entry, Codec, Result, ok, err}
use shoka.Wal.Log.{
  Dir, Log, Io, quarantine, drop_pending, read_file, append, after_read, read_by_id, is_there,
  remove_entry, take_entry, scan_file, scan_files, open_log,
}
use shoka.Wal.Log.Consistent.{
  IsConsistent, IsSettled, remove_entry-IsConsistent, read_by_id-IsConsistent,
}
use shoka.Wal.Log.Scan.{ReadsAll}
use shoka.Text.{Text}
use shoka.Wal.Log.Append.{append-IsConsistent}
use shoka.Wal.Log.Recovery.{open_log-IsConsistent, recovery}
use shoka.Wal.Log.Durable.{
  IsTidy, put-IsTidy, remove-IsTidy, quarantine-IsTidy, drop_pending_only, quarantine_next,
}

-- A log that was opened on a tidy directory and then worked with, restarts included. Where the read
-- of a file fails, the file is put into quarantine; the sequence numbers do not run out.
pub data Run (c : Codec) : Log → Type 0 where
  opened :
      (io : Io) (dir corrupted : Dir)
      → IsTidy dir
      → ((name : Text) → IsSettled io name)
      → Run c (open_log c io dir corrupted)
  appended :
      (io : Io) (now : ℕ) (e : Entry) {l : Log}
      → Run c l
      → l.next_seq + 1 < u64_mod
      → Run c (append c io now e l).0
  read :
      (io : Io) (seq : ℕ) {l : Log}
      → Run c l
      → seq < u64_mod
      → IsSettled io (seq_name seq)
      → Run c (read_by_id c io seq l).0
  removed :
      (io : Io) (seq : ℕ) {l : Log} → Run c l → seq < u64_mod → Run c (remove_entry c io seq l).0
  restarted :
      (io : Io) {l : Log}
      → Run c l
      → ((name : Text) → IsSettled io name)
      → Run c (open_log c io l.dir l.corrupted)

-- What every operation keeps.
pub record IsSound (c : Codec) (l : Log) : Type 0 where
  pub consistent : IsConsistent c l
  pub tidy : IsTidy l.dir
  pub room : l.next_seq < u64_mod

module _ (c : Codec) where
  abbrev AfterScan : Io → Dir → Log × ℕ → Type 0
  AfterScan io files state = IsTidy (scan_files c io files state).0.dir

  scan_files-IsTidy :
      (io : Io) (files : Dir) (l : Log) (max_seq : ℕ)
      → IsTidy l.dir
      → IsTidy (scan_files c io files (l, max_seq)).0.dir
  unfolding scan_files
  scan_files-IsTidy io [] l max_seq h = h
  scan_files-IsTidy io ((name, file) ∷ files) l max_seq h =
      named (λ k n t. scan_files-IsTidy io files k n t) (parse_seq_name name)
    where
      taken :
          ((k : Log) (n : ℕ) → IsTidy k.dir → AfterScan io files (k, n))
          → (seq : ℕ) (r : Result Entry)
          → AfterScan io files (take_entry c io name seq (l, max_seq) r)
      taken ih seq (err x) = ih _ max_seq (quarantine-IsTidy io l name h)
      taken ih seq (ok e) = ih _ _ h

      named :
          ((k : Log) (n : ℕ) → IsTidy k.dir → AfterScan io files (k, n))
          → (o : Option ℕ) → AfterScan io files (scan_file c io name file (l, max_seq) o)
      named ih none = unfold scan_file in ih l max_seq h
      named ih (some seq) =
          unfold scan_file in taken ih seq (read_file c (io.read_fails name) (some file) seq)

  open_log-IsSound :
      (io : Io) (dir corrupted : Dir)
      → IsTidy dir
      → ((name : Text) → IsSettled io name)
      → IsSound c (open_log c io dir corrupted)
  unfolding open_log
  open_log-IsSound io dir corrupted h settled = record {
    consistent = open_log-IsConsistent c io dir corrupted h.names h.canonical settled;
    tidy = scan_files-IsTidy io dir _ 0 h;
    room = omega arith;
  }

  append-IsSound :
      (io : Io) (now : ℕ) (e : Entry) (l : Log)
      → IsSound c l
      → l.next_seq + 1 < u64_mod
      → IsSound c (append c io now e l).0
  unfolding append
  append-IsSound io now e l h b = record {
    consistent = append-IsConsistent c io now e l h.consistent b;
    tidy = elim (Bool-cases io.write_fails) [
      | inl w ↦ rw w h.tidy
      | inr w ↦ rw w (elim (Bool-cases io.rename_fails) [
        | inl r ↦ rw r h.tidy
        | inr r ↦ rw r (put-IsTidy l.next_seq _ l.dir b h.tidy)
      ])
    ];
    room = elim (Bool-cases io.write_fails) [
      | inl w ↦ rw w h.room
      | inr w ↦
          rw w
            (elim (Bool-cases io.rename_fails) [ inl r ↦ rw r h.room | inr r ↦ rw r (omega arith) ])
    ];
  }

  remove_entry-IsTidy :
      (io : Io) (seq : ℕ) (l : Log)
      → IsSound c l
      → IsTidy (remove_entry c io seq l).0.dir × ((remove_entry c io seq l).0.next_seq < u64_mod)
  unfolding remove_entry
  remove_entry-IsTidy io seq l h =
      elim (Bool-cases (io.remove_fails && is_there c (lookup (seq_name seq) l.dir))) [
        | inl e ↦ rw e (h.tidy, h.room)
        | inr e ↦ rw e (
          subst IsTidy (sym only.0) (remove-IsTidy (seq_name seq) l.dir h.tidy),
          subst (λ n. n < u64_mod) (sym only.1) h.room,
        )
      ]
    where
      gone : Log
      gone = record l { dir = remove (seq_name seq) l.dir }

      only :
          ((drop_pending gone seq).dir ≡ gone.dir) × ((drop_pending gone seq).next_seq ≡ l.next_seq)
      only = drop_pending_only gone seq

  remove_entry-IsSound :
      (io : Io) (seq : ℕ) (l : Log)
      → IsSound c l
      → seq < u64_mod
      → IsSound c (remove_entry c io seq l).0
  remove_entry-IsSound io seq l h b = record {
    consistent = remove_entry-IsConsistent c io seq l h.consistent h.room b;
    tidy = (remove_entry-IsTidy io seq l h).0;
    room = (remove_entry-IsTidy io seq l h).1;
  }

  read_by_id-IsSound :
      (io : Io) (seq : ℕ) (l : Log)
      → IsSound c l
      → seq < u64_mod
      → IsSettled io (seq_name seq)
      → IsSound c (read_by_id c io seq l).0
  unfolding read_by_id
  read_by_id-IsSound io seq l h b settled = record {
    consistent = read_by_id-IsConsistent c io seq l h.consistent h.room b settled;
    tidy = (go (read_file c (io.read_fails (seq_name seq)) (lookup (seq_name seq) l.dir) seq)).0;
    room = (go (read_file c (io.read_fails (seq_name seq)) (lookup (seq_name seq) l.dir) seq)).1;
  }
    where
      go :
          (r : Result Entry)
          → IsTidy (after_read c io seq l r).0.dir
            × ((after_read c io seq l r).0.next_seq < u64_mod)
      go (ok e) = (h.tidy, h.room)
      go (err x) =
          let (same_dir, same_next) = drop_pending_only (quarantine io l (seq_name seq)) seq in
          (
            subst IsTidy (sym same_dir) (quarantine-IsTidy io l (seq_name seq) h.tidy),
            subst (λ n. n < u64_mod) (sym (same_next ∙ quarantine_next io l (seq_name seq))) h.room,
          )

  -- After any sequence of operations from the opening of a tidy directory, failed ones and restarts
  -- included, in which a file whose read fails is put into quarantine and the sequence numbers do not
  -- run out, what the log holds in memory is what its directory holds, and the directory's names are
  -- distinct and canonical.
  pub Run-IsSound : {l : Log} → Run c l → IsSound c l
  Run-IsSound (opened io dir corrupted h settled) = open_log-IsSound io dir corrupted h settled
  Run-IsSound (appended io now e r b) = append-IsSound io now e _ (Run-IsSound r) b
  Run-IsSound (read io seq r b settled) = read_by_id-IsSound io seq _ (Run-IsSound r) b settled
  Run-IsSound (removed io seq r b) = remove_entry-IsSound io seq _ (Run-IsSound r) b
  Run-IsSound (restarted io r settled) = open_log-IsSound io _ _ (Run-IsSound r).tidy settled

-- Durability: after any sequence of operations from the opening of a tidy directory, failed ones and
-- restarts included, in which a file whose read fails is put into quarantine and the sequence numbers
-- do not run out, a log that is opened on the directory by reads that do not fail has exactly the
-- entries pending that were pending before, under the same sequence numbers.
pub durability :
    (c : Codec) (io : Io) (l : Log)
    → Run c l
    → ReadsAll io
    → (s : ℕ) → s < u64_mod
    → lookup s (open_log c io l.dir l.corrupted).pending ≡ lookup s l.pending
durability c io l r all =
    let sound = Run-IsSound c r in
    recovery c io l all sound.consistent sound.tidy.names sound.tidy.canonical
