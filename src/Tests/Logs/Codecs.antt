-- ===== src/Tests/Logs/Codecs.antt =====
-- A codec that keeps the laws: texts are written one behind the other, each with an end mark.
use shoka.Prelude.{
  ℕ, zero, suc, ◌≡◌, refl, Bool, true, false, Option, none, some, List, [], ◌∷◌, length, drop, ap,
  ◌∙◌,
}
use shoka.Text.{Text}
use shoka.PartialEdit.{Bytes}
use shoka.Wal.Wire.{WireAux, WireEntry, Codec}

mark : Text → Bytes → Bytes
mark [] rest = 0 ∷ rest
mark (c ∷ t) rest = suc c ∷ mark t rest

pack : List Text → Bytes
unfolding mark
pack [] = []
pack (t ∷ ts) = mark t (pack ts)

push : ℕ → List Text → List Text
push c [] = (c ∷ []) ∷ []
push c (t ∷ ts) = (c ∷ t) ∷ ts

unpack : Bytes → List Text
unfolding push
unpack [] = []
unpack (zero ∷ s) = [] ∷ unpack s
unpack (suc c ∷ s) = push c (unpack s)

unpack-mark : (t : Text) (s : Bytes) → unpack (mark t s) ≡ t ∷ unpack s
unfolding unpack mark push
unpack-mark [] s = refl
unpack-mark (c ∷ t) s = rw (unpack-mark t s) refl

unpack-pack : (ts : List Text) → unpack (pack ts) ≡ ts
unfolding pack unpack
unpack-pack [] = refl
unpack-pack (t ∷ ts) = rw (unpack-mark t (pack ts)) (rw (unpack-pack ts) refl)

aux_texts : List WireAux → List Text
aux_texts [] = []
aux_texts (a ∷ l) = a.path ∷ a.content_b64 ∷ (a.size ∷ []) ∷ a.version ∷ aux_texts l

-- The first number of a text of one.
number : Text → ℕ
number [] = 0
number (n ∷ t) = n

cons_aux : Text → Text → Text → Text → List WireAux → List WireAux
cons_aux path content_b64 size version l =
    record { path = path; content_b64 = content_b64; size = number size; version = version } ∷ l

texts_aux : List Text → List WireAux
unfolding cons_aux
texts_aux (path ∷ content_b64 ∷ size ∷ version ∷ ts) =
    cons_aux path content_b64 size version (texts_aux ts)
texts_aux _ = []

texts_aux-aux_texts : (l : List WireAux) → texts_aux (aux_texts l) ≡ l
unfolding aux_texts texts_aux cons_aux number
texts_aux-aux_texts [] = refl
texts_aux-aux_texts (a ∷ l) = rw (texts_aux-aux_texts l) refl

flag : Bool → ℕ
flag true = 1
flag false = 0

is_set : ℕ → Bool
is_set zero = false
is_set (suc n) = true

is_set-flag : (b : Bool) → is_set (flag b) ≡ b
unfolding is_set flag
is_set-flag true = refl
is_set-flag false = refl

field : ℕ → List Text → Text
field i [] = []
field zero (t ∷ ts) = t
field (suc i) (t ∷ ts) = field i ts

wire_texts : WireEntry → List Text
unfolding flag aux_texts
wire_texts w =
    w.seq
    ∷ w.ts
    ∷ w.namespace
    ∷ w.project
    ∷ w.path
    ∷ w.op
    ∷ w.version
    ∷ (w.size ∷ [])
    ∷ w.content_b64
    ∷ w.user_name
    ∷ w.user_email
    ∷ w.agent_name
    ∷ w.worker_id
    ∷ (flag w.author_is_user ∷ [])
    ∷ w.move_from
    ∷ aux_texts w.aux

texts_wire : List Text → WireEntry
unfolding field number is_set texts_aux
texts_wire ts = record {
  seq = field 0 ts;
  ts = field 1 ts;
  namespace = field 2 ts;
  project = field 3 ts;
  path = field 4 ts;
  op = field 5 ts;
  version = field 6 ts;
  size = number (field 7 ts);
  content_b64 = field 8 ts;
  user_name = field 9 ts;
  user_email = field 10 ts;
  agent_name = field 11 ts;
  worker_id = field 12 ts;
  author_is_user = is_set (number (field 13 ts));
  move_from = field 14 ts;
  aux = texts_aux (drop 15 ts);
}

texts_wire-wire_texts : (w : WireEntry) → texts_wire (wire_texts w) ≡ w
unfolding texts_wire wire_texts field number
texts_wire-wire_texts w = rw (is_set-flag w.author_is_user, texts_aux-aux_texts w.aux) refl

-- A file without fields is no entry.
unmarshal : Bytes → Option WireEntry
unfolding unpack texts_wire
unmarshal [] = none
unmarshal (c ∷ s) = some (texts_wire (unpack (c ∷ s)))

unmarshal-marks :
    (t : Text) (s : Bytes) → unmarshal (mark t s) ≡ some (texts_wire (unpack (mark t s)))
unfolding mark unmarshal
unmarshal-marks [] s = refl
unmarshal-marks (c ∷ t) s = refl

marshal : WireEntry → Bytes
unfolding pack wire_texts
marshal w = pack (wire_texts w)

unmarshal-marshal : (w : WireEntry) → unmarshal (marshal w) ≡ some w
unfolding marshal
unmarshal-marshal w =
    unmarshal-marks w.seq _
    ∙ ap some (ap texts_wire (unpack-pack (wire_texts w)) ∙ texts_wire-wire_texts w)

parse_time : Text → Option ℕ
parse_time [] = none
parse_time (t ∷ s) = some t

parse-format : (t : ℕ) → parse_time (t ∷ []) ≡ some t
unfolding parse_time
parse-format t = refl

pub codec : Codec
codec = record {
  sha256_hex = λ b. length b ∷ b;
  b64_encode = λ b. b;
  b64_decode = some;
  decode-encode = λ b. refl;
  format_time = λ t. t ∷ [];
  parse_time = parse_time;
  parse-format = parse-format;
  marshal = marshal;
  unmarshal = unmarshal;
  unmarshal-marshal = unmarshal-marshal;
}
