-- ===== src/Wal/Log/Append.antt =====
-- Append, and reading what it appended.
use shoka.Prelude.{
  ℕ, ◌+◌, ◌%◌, ◌<◌, ◌≡◌, ◌∙◌, refl, sym, false, Option, none, some, arith, ◌==◌, Bool-cases, inl,
  inr, ==_iff,
}
use shoka.Prelude.Assoc.{nat_key, lookup, put, lookup-put, Distinct-put, total-put_fresh}
use shoka.Text.Keys.{text_key}
use shoka.Text.Laws.{text_eq_refl}
use shoka.PartialEdit.{Bytes}
use shoka.Wal.Seq.{u64_mod, seq_name}
use shoka.Wal.Wire.{Entry, EntryHead, Codec, ok, head_of, to_wire, read_entry, fill}
use shoka.Wal.Integrity.{fill-IsIntact, read_entry-to_wire}
use shoka.Wal.Log.{Dir, Log, Io, read_file, append, read_by_id}
use shoka.Wal.Log.Consistent.{disk_head, seq_name_eq, IsConsistent}

module _ (c : Codec) where
  read_filled :
      (seq now : ℕ) (e : Entry)
      → seq < u64_mod
      → read_entry c (c.marshal (to_wire c (fill c seq now e))) seq ≡ ok (fill c seq now e)
  unfolding fill
  read_filled seq now e b = read_entry-to_wire c (fill c seq now e) b (fill-IsIntact c seq now e)

  seq_fill : (seq now : ℕ) (e : Entry) → (head_of (fill c seq now e)).size ≡ (fill c seq now e).size
  unfolding head_of
  seq_fill seq now e = refl

  put_here :
      (dir : Dir) (seq now : ℕ) (e : Entry)
      → seq < u64_mod
      → read_file c false
          (lookup
            (seq_name seq)
            (put (seq_name seq) (c.marshal (to_wire c (fill c seq now e))) dir))
          seq
        ≡ ok (fill c seq now e)
  put_here dir seq now e b =
      rw (lookup-put (seq_name seq) (seq_name seq) (c.marshal (to_wire c (fill c seq now e))) dir)
        (rw (text_eq_refl (seq_name seq)) (read_filled seq now e b))

  put_elsewhere :
      (dir : Dir) (file : Bytes) (seq s : ℕ)
      → seq < u64_mod
      → s < u64_mod
      → (seq == s) ≡ false
      → disk_head c (put (seq_name seq) file dir) s ≡ disk_head c dir s
  put_elsewhere dir file seq s b bs n =
      rw (lookup-put (seq_name seq) (seq_name s) file dir) (rw (seq_name_eq seq s b bs) (rw n refl))

  -- Append keeps the log consistent, whether it writes the entry or fails, as long as the sequence
  -- numbers do not wrap.
  pub append-IsConsistent :
      (io : Io) (now : ℕ) (e : Entry) (l : Log)
      → IsConsistent c l
      → l.next_seq + 1 < u64_mod
      → IsConsistent c (append c io now e l).0
  unfolding append
  append-IsConsistent io now e l h small = elim (Bool-cases io.write_fails) [
    | inl w ↦ rw w h
    | inr w ↦ rw w (elim (Bool-cases io.rename_fails) [ inl r ↦ rw r h | inr r ↦ rw r written ])
  ]
    where
      n : ℕ
      n = l.next_seq

      filled : Entry
      filled = fill c n now e

      absent : (o : Option EntryHead) → lookup n l.pending ≡ o → o ≡ none
      absent none f = refl
      absent (some x) f = absurd (omega (arith, h.below n x f))

      at :
          (s : ℕ)
          → s < u64_mod
          → lookup s (put n (head_of filled) l.pending)
            ≡ disk_head c (put (seq_name n) (c.marshal (to_wire c filled)) l.dir) s
      at s b = lookup-put n s (head_of filled) l.pending ∙ elim (Bool-cases (n == s)) [
        | inl same ↦
            let is : n ≡ s = (==_iff n s).0 same in
            rw same (rw (← is) (rw (put_here l.dir n now e (omega arith)) refl))
        | inr other ↦
            rw other (h.on_disk s b ∙ sym (put_elsewhere l.dir _ n s (omega arith) b other))
      ]

      next : (n + 1) % u64_mod ≡ n + 1
      next = omega arith

      written : IsConsistent c (record l {
        dir = put (seq_name n) (c.marshal (to_wire c filled)) l.dir;
        next_seq = (n + 1) % u64_mod;
        pending = put n (head_of filled) l.pending;
        pending_bytes = (l.pending_bytes + filled.size) % u64_mod;
      })
      written = record {
        on_disk = at;
        below = λ s x found. elim (Bool-cases (n == s)) [
          | inl same ↦ rw next (omega (arith, (==_iff n s).0 same))
          | inr other ↦
              let old : lookup s l.pending ≡ some x =
                ground (arith, lookup-put n s (head_of filled) l.pending, found) in
              rw next (omega (arith, h.below s x old))
        ];
        distinct = Distinct-put n (head_of filled) l.pending h.distinct;
        bytes = omega (
          arith,
          h.bytes,
          total-put_fresh (λ x. x.size) n (head_of filled) l.pending (absent _ refl),
          seq_fill n now e,
        );
      }

  -- After an Append whose calls succeed, the entry reads back under the number returned, where that
  -- read does not fail, with the number, the time, the size and the hashes that Append filled in and
  -- all else as it was given.
  pub append-read :
      (io io' : Io) (now : ℕ) (e : Entry) (l : Log)
      → io.write_fails ≡ false
      → io.rename_fails ≡ false
      → io'.read_fails (seq_name l.next_seq) ≡ false
      → l.next_seq < u64_mod
      → ((append c io now e l).1 ≡ some l.next_seq)
        × (read_by_id c io' l.next_seq (append c io now e l).0
            ≡ ((append c io now e l).0, ok (fill c l.next_seq now e)))
  unfolding append read_by_id
  append-read io io' now e l w r reads b =
      rw (w, r) (refl, rw reads (rw (put_here l.dir l.next_seq now e b) refl))
