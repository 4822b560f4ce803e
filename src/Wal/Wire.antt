-- ===== src/Wal/Wire.antt =====
-- The entries of the log, their form on disk, and the check that every read makes.
-- An int64 or uint64 is the number of its bit pattern. Time is in nanoseconds, in UTC.
use shoka.Prelude.{
  ℕ, ◌+◌, ◌%◌, ◌≡◌, Bool, Option, none, some, List, [], ◌∷◌, map, ◌==◌, if◌then◌else◌, length,
}
use shoka.Text.{Text, text_eq, trim_space}
use shoka.PartialEdit.{Bytes}
use shoka.Wal.Seq.{u64_mod, seq_hex, parse_uint}

pub record AuxFile : Type 0 where
  pub path : Text
  pub content : Bytes
  pub size : ℕ
  pub version : Text

pub record Entry : Type 0 where
  pub seq : ℕ
  pub ts : ℕ
  pub namespace : Text
  pub project : Text
  pub path : Text
  pub op : Text
  pub version : Text
  pub size : ℕ
  pub content : Bytes
  pub move_from : Text
  pub aux : List AuxFile
  pub user_name : Text
  pub user_email : Text
  pub agent_name : Text
  pub worker_id : Text
  pub author_is_user : Bool

pub record EntryHead : Type 0 where
  pub seq : ℕ
  pub size : ℕ
  pub ts : ℕ
  pub namespace : Text
  pub project : Text
  pub path : Text
  pub op : Text
  pub version : Text

pub record WireAux : Type 0 where
  pub path : Text
  pub content_b64 : Text
  pub size : ℕ
  pub version : Text

pub record WireEntry : Type 0 where
  pub seq : Text
  pub ts : Text
  pub namespace : Text
  pub project : Text
  pub path : Text
  pub op : Text
  pub version : Text
  pub size : ℕ
  pub content_b64 : Text
  pub user_name : Text
  pub user_email : Text
  pub agent_name : Text
  pub worker_id : Text
  pub author_is_user : Bool
  pub move_from : Text
  pub aux : List WireAux

-- What the log uses of crypto/sha256, encoding/base64, time and encoding/json, with what their
-- documentation says of reading back what was written.
pub record Codec : Type 0 where
  pub sha256_hex : Bytes → Text
  pub b64_encode : Bytes → Text
  pub b64_decode : Text → Option Bytes
  pub decode-encode : (b : Bytes) → b64_decode (b64_encode b) ≡ some b
  pub format_time : ℕ → Text
  pub parse_time : Text → Option ℕ
  pub parse-format : (t : ℕ) → parse_time (format_time t) ≡ some t
  pub marshal : WireEntry → Bytes
  pub unmarshal : Bytes → Option WireEntry
  pub unmarshal-marshal : (w : WireEntry) → unmarshal (marshal w) ≡ some w

pub data ReadError : Type 0 where
  not_read parse bad_seq seq_mismatch bad_base64 size_mismatch hash_mismatch bad_ts : ReadError
  bad_aux_base64 aux_size_mismatch aux_hash_mismatch : ℕ → ReadError

-- What a read gives.
pub data Result {ℓ} (T : Type ℓ) : Type ℓ where
  err : ReadError → Result T
  ok : T → Result T

infixl 5 ◌>>=◌
abbrev pub ◌>>=◌ {ℓ κ} : {T : Type ℓ} → {U : Type κ} → Result T → (T → Result U) → Result U
err cause >>= next = err cause
ok found >>= next = next found

infixl 5 ◌>>◌
abbrev pub ◌>>◌ {κ} : {U : Type κ} → Result (Unit {0}) → Result U → Result U
checked >> next = checked >>= λ _. next

-- An early return with an error.
abbrev pub guard : Bool → ReadError → Result (Unit {0})
guard c e = if c then ok tt else err e

-- The value of a call that can fail, or the error.
abbrev pub value_or {ℓ} : {A : Type ℓ} → Option A → ReadError → Result A
value_or none e = err e
value_or (some a) e = ok a

-- int64(len(b))
abbrev pub len64 : Bytes → ℕ
len64 b = length b % u64_mod

unfoldable pub head_of : Entry → EntryHead
head_of e = record {
  seq = e.seq;
  size = e.size;
  ts = e.ts;
  namespace = e.namespace;
  project = e.project;
  path = e.path;
  op = e.op;
  version = e.version;
}

module _ (c : Codec) where
  unfoldable pub to_wire_aux : AuxFile → WireAux
  to_wire_aux a = record {
    path = a.path;
    content_b64 = c.b64_encode a.content;
    size = a.size;
    version = a.version;
  }

  unfoldable pub to_wire : Entry → WireEntry
  to_wire e = record {
    seq = seq_hex e.seq;
    ts = c.format_time e.ts;
    namespace = e.namespace;
    project = e.project;
    path = e.path;
    op = e.op;
    version = e.version;
    size = e.size;
    content_b64 = c.b64_encode e.content;
    user_name = e.user_name;
    user_email = e.user_email;
    agent_name = e.agent_name;
    worker_id = e.worker_id;
    author_is_user = e.author_is_user;
    move_from = e.move_from;
    aux = map to_wire_aux e.aux;
  }

  -- One round of the loop over the aux payloads.
  unfoldable pub read_aux : ℕ → WireAux → Result AuxFile
  read_aux i wa = do
    ac ← value_or (c.b64_decode wa.content_b64) (bad_aux_base64 i)
    guard (len64 ac == wa.size) (aux_size_mismatch i)
    guard (text_eq (c.sha256_hex ac) wa.version) (aux_hash_mismatch i)
    ok (record { path = wa.path; content = ac; size = wa.size; version = wa.version })

  unfoldable pub read_auxes : ℕ → List WireAux → Result (List AuxFile)
  unfolding read_aux
  read_auxes i [] = ok []
  read_auxes i (wa ∷ was) = do a ← read_aux i wa; rest ← read_auxes (i + 1) was; ok (a ∷ rest)

  -- readEntryFile on the data of a file that was read.
  unfoldable pub read_entry : Bytes → ℕ → Result Entry
  unfolding read_auxes
  read_entry file want_seq = do
    w ← value_or (c.unmarshal file) parse
    seq ← value_or (parse_uint (trim_space w.seq)) bad_seq
    guard (seq == want_seq) seq_mismatch
    content ← value_or (c.b64_decode w.content_b64) bad_base64
    guard (len64 content == w.size) size_mismatch
    guard (text_eq (c.sha256_hex content) w.version) hash_mismatch
    ts ← value_or (c.parse_time w.ts) bad_ts
    aux ← read_auxes 0 w.aux
    ok (record {
      seq = seq;
      ts = ts;
      namespace = w.namespace;
      project = w.project;
      path = w.path;
      op = w.op;
      version = w.version;
      size = w.size;
      content = content;
      move_from = w.move_from;
      aux = aux;
      user_name = w.user_name;
      user_email = w.user_email;
      agent_name = w.agent_name;
      worker_id = w.worker_id;
      author_is_user = w.author_is_user;
    })

  -- The fields that Append computes from the content.
  unfoldable pub fill_aux : AuxFile → AuxFile
  fill_aux a = record a { size = len64 a.content; version = c.sha256_hex a.content }

  unfoldable pub fill : ℕ → ℕ → Entry → Entry
  unfolding fill_aux
  fill seq now e = record e {
    seq = seq;
    ts = now;
    size = len64 e.content;
    version = c.sha256_hex e.content;
    aux = map fill_aux e.aux;
  }
