-- ===== src/Wal/Log/Scan.antt =====
-- The scan of a directory, file by file.
use shoka.Prelude.{
  ℕ, ◌+◌, ◌%◌, ◌<◌, ◌≤◌, ◌≡◌, ◌∙◌, refl, ap, sym, Bool, true, false, ◌||◌, Option, none, some, [],
  ◌∷◌, arith, ltb, ◌==◌, if◌then◌else◌, Bool-cases, inl, inr, ==_iff, All,
}
use shoka.Prelude.Assoc.{
  nat_key, lookup, put, remove, lookup-put, lookup-remove, Distinct, Distinct-put, total,
  total-put_fresh,
}
use shoka.Text.{Text, text_eq}
use shoka.Text.Keys.{text_key}
use shoka.Text.Laws.{text_eq_iff, text_eq_refl}
use shoka.PartialEdit.{Bytes}
use shoka.Wal.Seq.{u64_mod, seq_name, parse_seq_name, parse_seq_name-seq_name}
use shoka.Wal.Wire.{Entry, EntryHead, Codec, ReadError, Result, ok, err, head_of, read_entry}
use shoka.Wal.Log.{
  Dir, Log, Io, read_file, move_corrupt, quarantine, take_entry, scan_file, scan_files,
}
use shoka.Wal.Log.Consistent.{head_result, disk_head, IsSettled, seq_name_eq}

-- A file that is named like an entry has the name that the log gives to a number below the last.
abbrev pub IsCanonical : Text × Bytes → Type 0
IsCanonical (name, file) =
    (q : ℕ) → parse_seq_name name ≡ some q → (name ≡ seq_name q) × (q + 1 < u64_mod)

-- No read of a file fails.
abbrev pub ReadsAll : Io → Type 0
ReadsAll io = (name : Text) → io.read_fails name ≡ false

module _ (c : Codec) (io : Io) (start : Dir) where
  -- The state of the scan, with `files` still to come.
  pub record Scanned (files : Dir) (l : Log) (max_seq : ℕ) : Type 0 where
    pub done :
        (s : ℕ)
        → s < u64_mod
        → lookup (seq_name s) files ≡ none
        → lookup s l.pending ≡ disk_head c l.dir s
    pub coming :
        (s : ℕ) (file : Bytes)
        → s < u64_mod
        → lookup (seq_name s) files ≡ some file
        → (lookup s l.pending ≡ none) × (lookup (seq_name s) l.dir ≡ some file)
    pub below : (s : ℕ) (h : EntryHead) → lookup s l.pending ≡ some h → s ≤ max_seq
    pub distinct : Distinct l.pending
    pub bytes : l.pending_bytes ≡ total (λ h. h.size) l.pending % u64_mod
    pub room : max_seq + 1 < u64_mod
    pub kept : ReadsAll io → (s : ℕ) → s < u64_mod → disk_head c l.dir s ≡ disk_head c start s

  size_head : (e : Entry) → (head_of e).size ≡ e.size
  unfolding head_of
  size_head e = refl

  lookup_cons :
      (k name : Text) (file : Bytes) (files : Dir)
      → lookup k ((name, file) ∷ files) ≡ (if text_eq name k then some file else lookup k files)
  unfolding lookup
  lookup_cons k name file files = refl

  -- A file that is no entry is passed over.
  skip-Scanned :
      (name : Text) (file : Bytes) (files : Dir) (l : Log) (max_seq : ℕ)
      → parse_seq_name name ≡ none
      → Scanned ((name, file) ∷ files) l max_seq
      → Scanned files l max_seq
  skip-Scanned name file files l max_seq foreign h = record {
    done =
        λ s b absent. h.done s b (lookup_cons (seq_name s) name file files ∙ rw (other s b) absent);
    coming = λ s f b found.
        h.coming s f b (lookup_cons (seq_name s) name file files ∙ rw (other s b) found);
    below = h.below;
    distinct = h.distinct;
    bytes = h.bytes;
    room = h.room;
    kept = h.kept;
  }
    where
      other : (s : ℕ) → s < u64_mod → text_eq name (seq_name s) ≡ false
      other s b = elim (Bool-cases (text_eq name (seq_name s))) [
        | inr e ↦ e
        | inl e ↦ absurd (
            ground (
              arith,
              foreign,
              parse_seq_name-seq_name s b,
              ap parse_seq_name ((text_eq_iff name (seq_name s)).0 e),
            ))
      ]

  -- The entry `q` is taken from its file, and the directory changed only there.
  module _ (q : ℕ) (file : Bytes) (files : Dir) (l : Log) (max_seq : ℕ)
      (h : Scanned ((seq_name q, file) ∷ files) l max_seq) (fits : q + 1 < u64_mod)
      (fresh : lookup (seq_name q) files ≡ none) where
    now_here : (lookup q l.pending ≡ none) × (lookup (seq_name q) l.dir ≡ some file)
    now_here =
        h.coming q file (omega arith)
          (lookup_cons (seq_name q) (seq_name q) file files ∙ rw (text_eq_refl (seq_name q)) refl)

    elsewhere :
        (s : ℕ)
        → s < u64_mod
        → (q == s) ≡ false
        → lookup (seq_name s) ((seq_name q, file) ∷ files) ≡ lookup (seq_name s) files
    elsewhere s b n =
        lookup_cons (seq_name s) (seq_name q) file files
        ∙ rw (seq_name_eq q s (omega arith) b) (rw n refl)

    failed-Scanned :
        (dir' corrupted' : Dir)
        → disk_head c dir' q ≡ none
        → (ReadsAll io → disk_head c l.dir q ≡ none)
        → ((s : ℕ)
            → s < u64_mod
            → (q == s) ≡ false
            → lookup (seq_name s) dir' ≡ lookup (seq_name s) l.dir)
        → Scanned files (record l { dir = dir'; corrupted = corrupted' }) max_seq
    failed-Scanned dir' corrupted' gone unread others = record {
      done = λ s b absent. elim (Bool-cases (q == s)) [
        | inl same ↦ let is : s ≡ q = sym ((==_iff q s).0 same) in rw is (now_here.0 ∙ sym gone)
        | inr n ↦ rw (others s b n) (h.done s b (elsewhere s b n ∙ absent))
      ];
      coming = λ s f b found. elim (Bool-cases (q == s)) [
        | inl same ↦
            let is : s ≡ q = sym ((==_iff q s).0 same) in absurd (cc (fresh, rw is at found))
        | inr n ↦ rw (others s b n) (h.coming s f b (elsewhere s b n ∙ found))
      ];
      below = h.below;
      distinct = h.distinct;
      bytes = h.bytes;
      room = h.room;
      kept = λ all s b. elim (Bool-cases (q == s)) [
        | inl same ↦
            let is : s ≡ q = sym ((==_iff q s).0 same) in
            rw is (gone ∙ sym (unread all) ∙ h.kept all q (omega arith))
        | inr n ↦ rw (others s b n) (h.kept all s b)
      ];
    }

    unreadable :
        (x : ReadError)
        → read_file c (io.read_fails (seq_name q)) (some file) q ≡ err x
        → io.read_fails (seq_name q) ≡ false
        → disk_head c l.dir q ≡ none
    unreadable x e f =
        let fails : read_file c false (some file) q ≡ err x = rw f at e in
        rw (now_here.1) (ap head_result fails)

    keep-Scanned :
        (x : ReadError)
        → read_file c (io.read_fails (seq_name q)) (some file) q ≡ err x
        → io.read_fails (seq_name q) ≡ false
        → Scanned files l max_seq
    keep-Scanned x e f =
        failed-Scanned l.dir l.corrupted (unreadable x e f) (λ all. unreadable x e f)
          (λ s b n. refl)

    move-Scanned :
        (x : ReadError) (corrupted' : Dir)
        → read_file c (io.read_fails (seq_name q)) (some file) q ≡ err x
        → Scanned files
            (record l { dir = remove (seq_name q) l.dir; corrupted = corrupted' })
            max_seq
    move-Scanned x corrupted' e =
        failed-Scanned (remove (seq_name q) l.dir) corrupted'
          (rw (lookup-remove (seq_name q) (seq_name q) l.dir) (rw (text_eq_refl (seq_name q)) refl))
          (λ all. unreadable x e (all (seq_name q)))
          (λ s b n.
            lookup-remove (seq_name q) (seq_name s) l.dir
            ∙ rw (seq_name_eq q s (omega arith) b) (rw n refl))

    take-Scanned :
        (entry : Entry)
        → read_entry c file q ≡ ok entry
        → Scanned files
            (record l {
              pending = put q (head_of entry) l.pending;
              pending_bytes = (l.pending_bytes + entry.size) % u64_mod;
            })
            (if ltb max_seq q then q else max_seq)
    take-Scanned entry e = record {
      done = λ s b absent. lookup-put q s (head_of entry) l.pending ∙ elim (Bool-cases (q == s)) [
        | inl same ↦
            let is : s ≡ q = sym ((==_iff q s).0 same) in
            rw same (rw is (rw (now_here.1) (rw e refl)))
        | inr n ↦ rw n (h.done s b (elsewhere s b n ∙ absent))
      ];
      coming = λ s f b found. elim (Bool-cases (q == s)) [
        | inl same ↦
            let is : s ≡ q = sym ((==_iff q s).0 same) in absurd (cc (fresh, rw is at found))
        | inr n ↦
            let (absent, there) = h.coming s f b (elsewhere s b n ∙ found) in
            (lookup-put q s (head_of entry) l.pending ∙ rw n absent, there)
      ];
      below = λ s x found. elim (Bool-cases (q == s)) [
        | inl same ↦ ground (arith, (==_iff q s).0 same)
        | inr n ↦
            let old : lookup s l.pending ≡ some x =
              ground (arith, lookup-put q s (head_of entry) l.pending, found) in
            ground (arith, h.below s x old)
      ];
      distinct = Distinct-put q (head_of entry) l.pending h.distinct;
      bytes = omega (
        arith,
        h.bytes,
        total-put_fresh (λ x. x.size) q (head_of entry) l.pending now_here.0,
        size_head entry,
      );
      room = ground (arith, h.room);
      kept = h.kept;
    }

  quarantine_result :
      (l : Log) (name : Text)
      → quarantine io l name ≡ (
          if io.mkdir_fails name || io.move_fails name
          then l
          else move_corrupt l name (lookup name l.dir))
  unfolding quarantine
  quarantine_result l name = elim (Bool-cases (io.mkdir_fails name)) [
    | inl m ↦ rw m refl
    | inr m ↦ rw m refl
  ]

  settled_read :
      (name : Text)
      → IsSettled io name
      → (io.mkdir_fails name || io.move_fails name) ≡ true
      → io.read_fails name ≡ false
  settled_read name (inl reads) f = reads
  settled_read name (inr (m, r)) f = let bad : false ≡ true = sym (rw m r) ∙ f in cc bad

  quarantine-Scanned :
      (q : ℕ) (file : Bytes) (files : Dir) (l : Log) (max_seq : ℕ) (x : ReadError)
      → IsSettled io (seq_name q)
      → Scanned ((seq_name q, file) ∷ files) l max_seq
      → q + 1 < u64_mod
      → lookup (seq_name q) files ≡ none
      → read_file c (io.read_fails (seq_name q)) (some file) q ≡ err x
      → Scanned files (quarantine io l (seq_name q)) max_seq
  quarantine-Scanned q file files l max_seq x settled h fits fresh e =
      rw (quarantine_result l (seq_name q)) (
        by (io.mkdir_fails (seq_name q) || io.move_fails (seq_name q))
          (settled_read (seq_name q) settled))
    where
      by :
          (fails : Bool)
          → (fails ≡ true → io.read_fails (seq_name q) ≡ false)
          → Scanned files
              (if fails then l else move_corrupt l (seq_name q) (lookup (seq_name q) l.dir))
              max_seq
      by true read = keep-Scanned q file files l max_seq h fits fresh x e (read refl)
      by false read =
          rw ((now_here q file files l max_seq h fits fresh).1) (
            move-Scanned q file files l max_seq h fits fresh x (put (seq_name q) file l.corrupted)
              e)

  read_ok :
      (fails : Bool) (file : Bytes) (q : ℕ) (entry : Entry)
      → read_file c fails (some file) q ≡ ok entry
      → read_entry c file q ≡ ok entry
  read_ok true file q entry e = cc e
  read_ok false file q entry e = e

  pub scan_files-Scanned :
      (files : Dir) (l : Log) (max_seq : ℕ)
      → ((name : Text) → IsSettled io name)
      → Distinct files
      → All IsCanonical files
      → Scanned files l max_seq
      → Scanned [] (scan_files c io files (l, max_seq)).0 (scan_files c io files (l, max_seq)).1
  unfolding scan_files
  scan_files-Scanned [] l max_seq settled d k h = h
  scan_files-Scanned ((name, file) ∷ files) l max_seq settled d k h =
      let state = scan_file c io name file (l, max_seq) (parse_seq_name name) in
      scan_files-Scanned files state.0 state.1 settled d.1 k.1 (named (parse_seq_name name) refl)
    where
      read :
          (q : ℕ)
          → Scanned ((seq_name q, file) ∷ files) l max_seq
          → q + 1 < u64_mod
          → lookup (seq_name q) files ≡ none
          → (r : Result Entry) → read_file c (io.read_fails (seq_name q)) (some file) q ≡ r
          → Scanned files
              (take_entry c io (seq_name q) q (l, max_seq) r).0
              (take_entry c io (seq_name q) q (l, max_seq) r).1
      read q here fits fresh (ok entry) er =
          take-Scanned q file files l max_seq here fits fresh entry
            (read_ok (io.read_fails (seq_name q)) file q entry er)
      read q here fits fresh (err x) er =
          quarantine-Scanned q file files l max_seq x (settled (seq_name q)) here fits fresh er

      named :
          (o : Option ℕ)
          → parse_seq_name name ≡ o
          → Scanned files
              (scan_file c io name file (l, max_seq) o).0
              (scan_file c io name file (l, max_seq) o).1
      named none e = unfold scan_file in skip-Scanned name file files l max_seq e h
      named (some q) e =
          let (canonical, fits) = k.0 q e in
          let here : Scanned ((seq_name q, file) ∷ files) l max_seq = rw canonical at h in
          let fresh : lookup (seq_name q) files ≡ none = rw canonical at d.0 in
          rw canonical (
            unfold scan_file in
            read q here fits fresh (read_file c (io.read_fails (seq_name q)) (some file) q) refl)
