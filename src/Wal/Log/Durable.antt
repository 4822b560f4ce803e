-- ===== src/Wal/Log/Durable.antt =====
-- The names of the log's directory, through each change of it.
use shoka.Prelude.{
  ℕ, ◌+◌, ◌<◌, ◌≡◌, refl, ap, Option, none, some, [], ◌∷◌, arith, Bool-cases, inl, inr, All,
}
use shoka.Prelude.Assoc.{nat_key, lookup, put, remove, Distinct, Distinct-put, Distinct-remove}
use shoka.Text.{Text, text_eq}
use shoka.Text.Keys.{text_key}
use shoka.PartialEdit.{Bytes}
use shoka.Wal.Seq.{u64_mod, seq_name, parse_seq_name, parse_seq_name-seq_name}
use shoka.Wal.Wire.{EntryHead}
use shoka.Wal.Log.{Dir, Log, Io, move_corrupt, quarantine, drop_head, drop_pending}
use shoka.Wal.Log.Scan.{IsCanonical}

-- The names of a directory stand once each, and those that read as sequence numbers are canonical.
pub record IsTidy (dir : Dir) : Type 0 where
  pub names : Distinct dir
  pub canonical : All IsCanonical dir

pub canonical_name :
    (n : ℕ)
    → n + 1 < u64_mod
    → (q : ℕ) → parse_seq_name (seq_name n) ≡ some q
    → (seq_name n ≡ seq_name q) × (q + 1 < u64_mod)
canonical_name n b q e =
    let same : n ≡ q = cc (parse_seq_name-seq_name n (omega arith), e) in
    (ap seq_name same, omega (arith, same))

All-put :
    (n : ℕ) (file : Bytes) (dir : Dir)
    → n + 1 < u64_mod
    → All IsCanonical dir
    → All IsCanonical (put (seq_name n) file dir)
unfolding put
All-put n file [] b a = (canonical_name n b, tt)
All-put n file ((name, old) ∷ dir) b a = elim (Bool-cases (text_eq name (seq_name n))) [
  | inl e ↦ rw e (canonical_name n b, a.1)
  | inr e ↦ rw e (a.0, All-put n file dir b a.1)
]

All-remove : (k : Text) (dir : Dir) → All IsCanonical dir → All IsCanonical (remove k dir)
unfolding remove
All-remove k [] a = tt
All-remove k ((name, old) ∷ dir) a = elim (Bool-cases (text_eq name k)) [
  | inl e ↦ rw e (All-remove k dir a.1)
  | inr e ↦ rw e (a.0, All-remove k dir a.1)
]

pub put-IsTidy :
    (n : ℕ) (file : Bytes) (dir : Dir)
    → n + 1 < u64_mod
    → IsTidy dir
    → IsTidy (put (seq_name n) file dir)
put-IsTidy n file dir b h = record {
  names = Distinct-put (seq_name n) file dir h.names;
  canonical = All-put n file dir b h.canonical;
}

pub remove-IsTidy : (k : Text) (dir : Dir) → IsTidy dir → IsTidy (remove k dir)
remove-IsTidy k dir h = record {
  names = Distinct-remove k dir h.names;
  canonical = All-remove k dir h.canonical;
}

pub quarantine-IsTidy :
    (io : Io) (l : Log) (name : Text) → IsTidy l.dir → IsTidy (quarantine io l name).dir
unfolding quarantine
quarantine-IsTidy io l name h = elim (Bool-cases (io.mkdir_fails name)) [
  | inl e ↦ rw e h
  | inr e ↦ rw e (elim (Bool-cases (io.move_fails name)) [
    | inl f ↦ rw f h
    | inr f ↦ rw f (moved (lookup name l.dir))
  ])
]
  where
    moved : (o : Option Bytes) → IsTidy (move_corrupt l name o).dir
    moved none = h
    moved (some file) = remove-IsTidy name l.dir h

-- Dropping an entry from memory leaves the directory and the next number as they were.
pub drop_pending_only :
    (l : Log) (seq : ℕ)
    → ((drop_pending l seq).dir ≡ l.dir) × ((drop_pending l seq).next_seq ≡ l.next_seq)
unfolding drop_pending
drop_pending_only l seq = go (lookup seq l.pending)
  where
    go :
        (o : Option EntryHead)
        → ((drop_head l seq o).dir ≡ l.dir) × ((drop_head l seq o).next_seq ≡ l.next_seq)
    go none = (refl, refl)
    go (some h) = (refl, refl)

pub quarantine_next :
    (io : Io) (l : Log) (name : Text) → (quarantine io l name).next_seq ≡ l.next_seq
unfolding quarantine
quarantine_next io l name = elim (Bool-cases (io.mkdir_fails name)) [
  | inl e ↦ rw e refl
  | inr e ↦ rw e (elim (Bool-cases (io.move_fails name)) [
    | inl f ↦ rw f refl
    | inr f ↦ rw f (moved (lookup name l.dir))
  ])
]
  where
    moved : (o : Option Bytes) → (move_corrupt l name o).next_seq ≡ l.next_seq
    moved none = refl
    moved (some file) = refl
