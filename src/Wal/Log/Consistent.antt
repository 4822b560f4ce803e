-- ===== src/Wal/Log/Consistent.antt =====
-- How the log in memory agrees with its directory, with ReadByID and Remove.
use shoka.Prelude.{
  ℕ, ◌+◌, ◌%◌, ◌<◌, ◌≡◌, ◌≢◌, ◌∙◌, refl, ap, sym, Bool, true, false, Option, none, some, arith,
  ◌==◌, Bool-cases, inl, inr, ==_iff, ◌&&◌, ◌||◌, ◌⊎◌,
}
use shoka.Prelude.Assoc.{
  nat_key, lookup, put, remove, lookup-remove, Distinct, Distinct-remove, total, total-remove,
}
use shoka.Text.{Text, text_eq}
use shoka.Text.Keys.{text_key}
use shoka.Text.Laws.{text_eq_iff, text_eq_refl}
use shoka.PartialEdit.{Bytes}
use shoka.Wal.Seq.{u64_mod, seq_name, parse_seq_name, parse_seq_name-seq_name}
use shoka.Wal.Wire.{Entry, EntryHead, Codec, ReadError, Result, ok, err, head_of, read_entry}
use shoka.Wal.Integrity.{read_entry_sound}
use shoka.Wal.Log.{
  Dir, Log, Io, sub64, move_corrupt, drop_head, drop_pending, read_file, after_read, read_by_id,
  is_there, remove_entry,
}

abbrev pub head_result : Result Entry → Option EntryHead
head_result (ok e) = some (head_of e)
head_result (err e) = none

-- The head of the entry that a directory holds under a sequence number, if its file passes the checks.
abbrev pub disk_head : Codec → Dir → ℕ → Option EntryHead
disk_head c dir seq = head_result (read_file c false (lookup (seq_name seq) dir) seq)

-- The read of a file does not fail, or its quarantine does not.
abbrev pub IsSettled : Io → Text → Type 0
IsSettled io name =
    (io.read_fails name ≡ false) ⊎ ((io.mkdir_fails name ≡ false) × (io.move_fails name ≡ false))

pub seq_name_eq :
    (a b : ℕ) → a < u64_mod → b < u64_mod → text_eq (seq_name a) (seq_name b) ≡ (a == b)
seq_name_eq a b ha hb = elim (Bool-cases (a == b)) [
  | inl e ↦ rw e (rw ((==_iff a b).0 e) (text_eq_refl (seq_name b)))
  | inr e ↦ rw e (differ (text_eq (seq_name a) (seq_name b)) refl e)
]
  where
    same : text_eq (seq_name a) (seq_name b) ≡ true → some a ≡ some b
    same t =
        sym (parse_seq_name-seq_name a ha)
        ∙ ap parse_seq_name ((text_eq_iff _ _).0 t)
        ∙ parse_seq_name-seq_name b hb

    differ : (t : Bool) → text_eq (seq_name a) (seq_name b) ≡ t → (a == b) ≡ false → t ≡ false
    differ true t e = absurd (ground (arith, same t))
    differ false t e = refl

-- In memory stand exactly the entries that the directory holds, each once, all below the next
-- sequence number, and the byte count is their sum.
pub record IsConsistent (c : Codec) (l : Log) : Type 0 where
  pub on_disk : (s : ℕ) → s < u64_mod → lookup s l.pending ≡ disk_head c l.dir s
  pub below : (s : ℕ) (h : EntryHead) → lookup s l.pending ≡ some h → s < l.next_seq
  pub distinct : Distinct l.pending
  pub bytes : l.pending_bytes ≡ total (λ h. h.size) l.pending % u64_mod

module _ (c : Codec) where
  size_fits :
      (o : Option Bytes) (seq : ℕ) (h : EntryHead)
      → head_result (read_file c false o seq) ≡ some h
      → h.size < u64_mod
  unfolding head_of
  size_fits none seq h e = cc
  size_fits (some file) seq h e = go (read_entry c file seq) refl e
    where
      go :
          (r : Result Entry) → read_entry c file seq ≡ r → head_result r ≡ some h → h.size < u64_mod
      go (ok entry) er eh =
          let intact = (read_entry_sound c file seq entry er).1 in
          let same : entry.size ≡ h.size = ground (arith, eh) in omega (arith, intact.size, same)
      go (err x) er eh = cc

  sub64_total : (t size : ℕ) → size < u64_mod → sub64 ((t + size) % u64_mod) size ≡ t % u64_mod
  sub64_total t size b = omega arith

  -- Dropping the head of an entry that can no longer be read from the directory.
  drop-IsConsistent :
      (l : Log) (dir' : Dir) (corrupted' : Dir) (seq : ℕ)
      → IsConsistent c l
      → l.next_seq < u64_mod
      → disk_head c dir' seq ≡ none
      → ((s : ℕ) → s < u64_mod → s ≢ seq → disk_head c dir' s ≡ disk_head c l.dir s)
      → IsConsistent c (drop_pending (record l { dir = dir'; corrupted = corrupted' }) seq)
  unfolding drop_pending
  drop-IsConsistent l dir' corrupted' seq h small gone others = go (lookup seq l.pending) refl
    where
      go :
          (o : Option EntryHead)
          → lookup seq l.pending ≡ o
          → IsConsistent c (drop_head (record l { dir = dir'; corrupted = corrupted' }) seq o)
      go none e = record {
        on_disk = λ s b. elim (Bool-cases (s == seq)) [
          | inl same ↦ let is : s ≡ seq = (==_iff s seq).0 same in rw is (e ∙ sym gone)
          | inr other ↦ h.on_disk s b ∙ sym (others s b (λ is. ground (arith, other, is)))
        ];
        below = h.below;
        distinct = h.distinct;
        bytes = h.bytes;
      }
      go (some head) e = record {
        on_disk = λ s b. lookup-remove seq s l.pending ∙ elim (Bool-cases (seq == s)) [
          | inl same ↦ let is : seq ≡ s = (==_iff seq s).0 same in rw same (rw (← is) (sym gone))
          | inr other ↦
              rw other (h.on_disk s b ∙ sym (others s b (λ is. ground (arith, other, is))))
        ];
        below = λ s x found. h.below s x (ground (arith, lookup-remove seq s l.pending, found));
        distinct = Distinct-remove seq l.pending h.distinct;
        bytes =
            let b : seq < u64_mod = omega (arith, h.below seq head e) in
            let fits : head.size < u64_mod =
              size_fits (lookup (seq_name seq) l.dir) seq head (sym (h.on_disk seq b) ∙ e) in
            let sum = total-remove (λ x. x.size) seq head l.pending h.distinct e in
            rw h.bytes (rw (← sum) (sub64_total _ head.size fits));
      }

  removed_here : (dir : Dir) (seq : ℕ) → disk_head c (remove (seq_name seq) dir) seq ≡ none
  removed_here dir seq =
      rw (lookup-remove (seq_name seq) (seq_name seq) dir) (rw (text_eq_refl (seq_name seq)) refl)

  removed_elsewhere :
      (dir : Dir) (seq s : ℕ)
      → seq < u64_mod
      → s < u64_mod
      → s ≢ seq
      → disk_head c (remove (seq_name seq) dir) s ≡ disk_head c dir s
  removed_elsewhere dir seq s b bs n =
      rw (lookup-remove (seq_name seq) (seq_name s) dir)
        (rw (seq_name_eq seq s b bs) (ground (arith, n)))

  drop_removed-IsConsistent :
      (l : Log) (corrupted' : Dir) (seq : ℕ)
      → IsConsistent c l
      → l.next_seq < u64_mod
      → seq < u64_mod
      → IsConsistent c (
          drop_pending (record l { dir = remove (seq_name seq) l.dir; corrupted = corrupted' }) seq)
  drop_removed-IsConsistent l corrupted' seq h small b =
      drop-IsConsistent l (remove (seq_name seq) l.dir) corrupted' seq h small
        (removed_here l.dir seq) (λ s bs n. removed_elsewhere l.dir seq s b bs n)

  -- Remove keeps the log consistent, whether it deletes the file, finds it gone or fails.
  pub remove_entry-IsConsistent :
      (io : Io) (seq : ℕ) (l : Log)
      → IsConsistent c l
      → l.next_seq < u64_mod
      → seq < u64_mod
      → IsConsistent c (remove_entry c io seq l).0
  unfolding remove_entry
  remove_entry-IsConsistent io seq l h small b =
      elim (Bool-cases (io.remove_fails && is_there c (lookup (seq_name seq) l.dir))) [
        | inl e ↦ rw e h
        | inr e ↦ rw e (drop_removed-IsConsistent l l.corrupted seq h small b)
      ]

  -- ReadByID keeps the log consistent: an entry that cannot be read is no longer pending. Where the
  -- read itself fails, its file must have been put into quarantine.
  pub read_by_id-IsConsistent :
      (io : Io) (seq : ℕ) (l : Log)
      → IsConsistent c l
      → l.next_seq < u64_mod
      → seq < u64_mod
      → IsSettled io (seq_name seq)
      → IsConsistent c (read_by_id c io seq l).0
  unfolding read_by_id
  read_by_id-IsConsistent io seq l h small b settled =
      read (read_file c (io.read_fails (seq_name seq)) (lookup (seq_name seq) l.dir) seq) refl
    where
      kept : disk_head c l.dir seq ≡ none → IsConsistent c (drop_pending l seq)
      kept gone = drop-IsConsistent l l.dir l.corrupted seq h small gone (λ s bs n. refl)

      moved :
          (o : Option Bytes)
          → lookup (seq_name seq) l.dir ≡ o
          → IsConsistent c (drop_pending (move_corrupt l (seq_name seq) o) seq)
      moved none e = kept (rw e refl)
      moved (some file) e =
          drop_removed-IsConsistent l (put (seq_name seq) file l.corrupted) seq h small b

      unread :
          (x : ReadError)
          → read_file c (io.read_fails (seq_name seq)) (lookup (seq_name seq) l.dir) seq ≡ err x
          → (io.mkdir_fails (seq_name seq) || io.move_fails (seq_name seq)) ≡ true
          → disk_head c l.dir seq ≡ none
      unread x e f = elim settled [
        | inl reads ↦
            let passed : read_file c false (lookup (seq_name seq) l.dir) seq ≡ err x =
              rw reads at e in
            ap head_result passed
        | inr (m, r) ↦ (let bad : false ≡ true = sym (rw m r) ∙ f in cc bad)
      ]

      read :
          (r : Result Entry)
          → read_file c (io.read_fails (seq_name seq)) (lookup (seq_name seq) l.dir) seq ≡ r
          → IsConsistent c (after_read c io seq l r).0
      read (ok e) er = h
      read (err x) er = elim (Bool-cases (io.mkdir_fails (seq_name seq))) [
        | inl e ↦ rw e (kept (unread x er (rw e refl)))
        | inr e ↦ rw e (elim (Bool-cases (io.move_fails (seq_name seq))) [
          | inl f ↦ rw f (kept (unread x er (rw (e, f) refl)))
          | inr f ↦ rw f (moved (lookup (seq_name seq) l.dir) refl)
        ])
      ]
