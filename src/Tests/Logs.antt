-- ===== src/Tests/Logs.antt =====
-- internal/storage/wal with a concrete codec, on concrete directories.
pub mod Codecs
use shoka.Prelude.{
  ℕ, ◌+◌, ◌<◌, ◌≡◌, refl, ap, Bool, true, false, Option, none, some, List, [], ◌∷◌, All, arith, ◌%◌,
  inl,
}
use shoka.Prelude.Assoc.{nat_key, Distinct, lookup, put}
use shoka.Text.{Text, codes, text_eq, strip_suffix, trim_suffix, has_suffix, strip_prefix}
use shoka.Text.Keys.{text_key}
use shoka.PartialEdit.{Bytes}
use shoka.Wal.Seq.{
  u64_mod, seq_name, seq_hex, hex_digits, hex_digit, parse_seq_name, parse_seq_name-seq_name,
}
use shoka.Wal.Wire.{AuxFile, Entry, EntryHead, Codec, Result, ok, to_wire, read_entry, fill}
use shoka.Wal.Integrity.{IsIntact, fill-IsIntact, read_entry-to_wire, read_entry_sound}
use shoka.Wal.Log.{Dir, Log, Io, append, read_by_id, remove_entry, open_log}
use shoka.Wal.Log.Consistent.{
  disk_head, IsConsistent, read_by_id-IsConsistent, remove_entry-IsConsistent,
}
use shoka.Wal.Log.Append.{append-IsConsistent, append-read}
use shoka.Wal.Log.Scan.{IsCanonical}
use shoka.Wal.Log.Recovery.{open_log-IsConsistent, pending-open_log, recovery}
use shoka.Wal.Log.Durable.{IsTidy, canonical_name}
use shoka.Wal.Log.Runs.{Run, opened, appended, removed, restarted, IsSound, Run-IsSound, durability}
use shoka.Tests.Logs.Codecs.{codec}

-- Every call succeeds.
abbrev pub fine : Io
fine = record {
  write_fails = false;
  rename_fails = false;
  remove_fails = false;
  read_fails = λ name. false;
  mkdir_fails = λ name. false;
  move_fails = λ name. false;
}

abbrev note : Entry
note = record {
  seq = 0;
  ts = 0;
  namespace = codes "docs";
  project = codes "guide";
  path = codes "a.md";
  op = codes "write";
  version = [];
  size = 0;
  content = codes "hello";
  move_from = [];
  aux = record { path = codes "b.md"; content = codes "linked"; size = 0; version = [] } ∷ [];
  user_name = codes "ann";
  user_email = [];
  agent_name = [];
  worker_id = [];
  author_is_user = true;
}

abbrev filled_note : Entry
filled_note = fill codec 1 77 note

-- A log on an empty directory, and with one entry appended.
abbrev empty_log : Log
empty_log = open_log codec fine [] []

abbrev pub one_log : Log
one_log = (append codec fine 77 note empty_log).0

parse_seq_name-seq_name_example : parse_seq_name (seq_name 4096) ≡ some 4096
parse_seq_name-seq_name_example = parse_seq_name-seq_name 4096 (omega arith)

filled_seq : filled_note.seq < u64_mod
unfolding fill
filled_seq = omega arith

read_entry-to_wire_example :
    read_entry codec (codec.marshal (to_wire codec filled_note)) filled_note.seq ≡ ok filled_note
read_entry-to_wire_example =
    read_entry-to_wire codec filled_note filled_seq (fill-IsIntact codec 1 77 note)

read_entry_sound_example : (filled_note.seq ≡ filled_note.seq) × IsIntact codec filled_note
read_entry_sound_example =
    read_entry_sound codec (codec.marshal (to_wire codec filled_note)) filled_note.seq filled_note
      read_entry-to_wire_example

empty-IsConsistent : IsConsistent codec empty_log
empty-IsConsistent = open_log-IsConsistent codec fine [] [] tt tt (λ name. inl refl)

empty_next : empty_log.next_seq ≡ 1
unfolding open_log
empty_next = refl

append-IsConsistent_example : IsConsistent codec one_log
append-IsConsistent_example =
    append-IsConsistent codec fine 77 note empty_log empty-IsConsistent (omega (arith, empty_next))

append-read_example :
    ((append codec fine 77 note empty_log).1 ≡ some empty_log.next_seq)
    × (read_by_id codec fine empty_log.next_seq one_log
        ≡ (one_log, ok (fill codec empty_log.next_seq 77 note)))
append-read_example =
    append-read codec fine fine 77 note empty_log refl refl refl (omega (arith, empty_next))

foreign_name : parse_seq_name (codes "readme") ≡ none
unfolding parse_seq_name has_suffix strip_suffix text_eq
foreign_name = refl

-- The entry is appended, the process restarts, and an entry that is not there is removed.
empty-Run : Run codec empty_log
empty-Run = opened fine [] [] (record { names = tt; canonical = tt }) (λ name. inl refl)

one-Run : Run codec one_log
one-Run = appended fine 77 note empty-Run (omega (arith, empty_next))

abbrev later_log : Log
later_log = (remove_entry codec fine 9 (open_log codec fine one_log.dir one_log.corrupted)).0

later-Run : Run codec later_log
later-Run = removed fine 9 (restarted fine one-Run (λ name. inl refl)) (omega arith)

Run-IsSound_example : IsSound codec later_log
Run-IsSound_example = Run-IsSound codec later-Run

durability_example :
    lookup 1 (open_log codec fine later_log.dir later_log.corrupted).pending
    ≡ lookup 1 later_log.pending
durability_example = durability codec fine later_log later-Run (λ name. refl) 1 (omega arith)
