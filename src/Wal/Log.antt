-- ===== src/Wal/Log.antt =====
-- The open log: its directory, what it holds in memory, and its operations, one after the other.
-- Any call of the file system but the listing of the directory may fail, as `Io` says for one
-- operation.
pub mod Consistent
pub mod Append
pub mod Scan
pub mod Recovery
pub mod Durable
pub mod Runs
pub mod Listing
use shoka.Prelude.{
  ℕ, zero, suc, ◌+◌, ◌-◌, ◌%◌, ◌/◌, ◌^◌, Bool, true, false, not, ◌&&◌, ◌||◌, Option, none, some,
  List, [], ◌∷◌, ◌++◌, ltb, leb, ◌==◌, if◌then◌else◌, length,
}
use shoka.Prelude.Assoc.{lookup, put, remove}
use shoka.Text.{Text}
use shoka.Text.Keys.{text_key}
use shoka.Prelude.Assoc.{nat_key}
use shoka.PartialEdit.{Bytes}
use shoka.Wal.Seq.{u64_mod, seq_name, parse_seq_name}
use shoka.Wal.Wire.{
  Entry, EntryHead, Codec, ReadError, not_read, Result, ok, err, head_of, to_wire, read_entry, fill,
}

-- The regular files of a directory by their names.
abbrev pub Dir : Type 0
Dir = List (Text × Bytes)

pub record Log : Type 0 where
  pub dir : Dir
  pub corrupted : Dir
  pub next_seq : ℕ
  pub pending : List (ℕ × EntryHead)
  pub pending_bytes : ℕ

-- Which calls of the file system fail during one operation; those on a file of the log by its name,
-- where a move is the rename into quarantine.
pub record Io : Type 0 where
  pub write_fails : Bool
  pub rename_fails : Bool
  pub remove_fails : Bool
  pub read_fails : Text → Bool
  pub mkdir_fails : Text → Bool
  pub move_fails : Text → Bool

-- x -= y on an int64
abbrev pub sub64 : ℕ → ℕ → ℕ
sub64 x y = (x + u64_mod - y) % u64_mod

-- The rename of a file into the quarantine directory.
abbrev pub move_corrupt : Log → Text → Option Bytes → Log
move_corrupt l name none = l
move_corrupt l name (some file) = record l {
  dir = remove name l.dir;
  corrupted = put name file l.corrupted;
}

unfoldable pub quarantine : Io → Log → Text → Log
quarantine io l name =
    if io.mkdir_fails name
    then l
    else if io.move_fails name
    then l
    else move_corrupt l name (lookup name l.dir)

-- if h, ok := l.pending[seq]; ok { ... }
abbrev pub drop_head : Log → ℕ → Option EntryHead → Log
drop_head l seq none = l
drop_head l seq (some h) = record l {
  pending = remove seq l.pending;
  pending_bytes = sub64 l.pending_bytes h.size;
}

unfoldable pub drop_pending : Log → ℕ → Log
drop_pending l seq = drop_head l seq (lookup seq l.pending)

module _ (c : Codec) where
  -- readEntryFile, by whether the read fails and what stands in the directory.
  abbrev pub read_file : Bool → Option Bytes → ℕ → Result Entry
  read_file true file seq = err not_read
  read_file false none seq = err not_read
  read_file false (some file) seq = read_entry c file seq

  -- `none` is an error, with nothing appended.
  unfoldable pub append : Io → ℕ → Entry → Log → Log × Option ℕ
  append io now e l =
      let filled = fill c l.next_seq now e in
      if io.write_fails then (l, none) else if io.rename_fails then (l, none) else (
        record l {
          dir = put (seq_name l.next_seq) (c.marshal (to_wire c filled)) l.dir;
          next_seq = (l.next_seq + 1) % u64_mod;
          pending = put l.next_seq (head_of filled) l.pending;
          pending_bytes = (l.pending_bytes + filled.size) % u64_mod;
        },
        some l.next_seq,
      )

  abbrev pub after_read : Io → ℕ → Log → Result Entry → Log × Result Entry
  after_read io seq l (ok e) = (l, ok e)
  after_read io seq l (err e) = (drop_pending (quarantine io l (seq_name seq)) seq, err e)

  unfoldable pub read_by_id : Io → ℕ → Log → Log × Result Entry
  unfolding quarantine drop_pending
  read_by_id io seq l =
      after_read io seq l
        (read_file (io.read_fails (seq_name seq)) (lookup (seq_name seq) l.dir) seq)

  abbrev pub is_there : Option Bytes → Bool
  is_there none = false
  is_there (some file) = true

  -- Remove deletes the file; that it is gone already is no error. `false` is an error.
  unfoldable pub remove_entry : Io → ℕ → Log → Log × Bool
  unfolding drop_pending
  remove_entry io seq l =
      if io.remove_fails && is_there (lookup (seq_name seq) l.dir)
      then (l, false)
      else (drop_pending (record l { dir = remove (seq_name seq) l.dir }) seq, true)

  -- One file of scan, once its name is known to be that of an entry. The pair holds maxSeq.
  abbrev pub take_entry : Io → Text → ℕ → Log × ℕ → Result Entry → Log × ℕ
  take_entry io name seq (l, max_seq) (err e) = (quarantine io l name, max_seq)
  take_entry io name seq (l, max_seq) (ok e) = (
    record l {
      pending = put seq (head_of e) l.pending;
      pending_bytes = (l.pending_bytes + e.size) % u64_mod;
    },
    if ltb max_seq seq then seq else max_seq,
  )

  unfoldable pub scan_file : Io → Text → Bytes → Log × ℕ → Option ℕ → Log × ℕ
  unfolding quarantine
  scan_file io name file state none = state
  scan_file io name file state (some seq) =
      take_entry io name seq state (read_file (io.read_fails name) (some file) seq)

  unfoldable pub scan_files : Io → List (Text × Bytes) → Log × ℕ → Log × ℕ
  unfolding scan_file
  scan_files io [] state = state
  scan_files io ((name, file) ∷ files) state =
      scan_files io files (scan_file io name file state (parse_seq_name name))

  -- Open on a directory whose files are listed in this order; reading the directory succeeds.
  unfoldable pub open_log : Io → Dir → Dir → Log
  unfolding scan_files
  open_log io dir corrupted =
      let (l, max_seq) = scan_files io dir (
        record { dir = dir; corrupted = corrupted; next_seq = 1; pending = []; pending_bytes = 0 },
        0,
      ) in
      record l { next_seq = (max_seq + 1) % u64_mod }
