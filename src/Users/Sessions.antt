-- ===== src/Users/Sessions.antt =====
-- pkg/userstore/userstore.go: sessions.
use shoka.Prelude.{ℕ, ◌+◌, Bool, not, Option, none, some, List, [], ◌∷◌, length, ltb, if◌then◌else◌}
use shoka.Prelude.Assoc.{lookup, put, remove}
use shoka.Text.{Text}
use shoka.Text.Keys.{text_key}
use shoka.Users.{
  SessionRecord, Bucket, Store, UserError, not_found, expired, undecodable, key_required,
  no_entropy, Result, err, ok, Done, Calls, normalize_email, bucket_put,
}

module _ (c : Calls) where
  abbrev pub put_session_in :
      SessionRecord → Store → Option (Bucket SessionRecord) → Done SessionRecord
  put_session_in rec s none = (err key_required, s)
  put_session_in rec s (some b) = (ok rec, record s { sessions = b })

  abbrev pub create_session_with : Text → ℕ → ℕ → Store → Option Text → Done SessionRecord
  create_session_with email now ttl s none = (err no_entropy, s)
  create_session_with email now ttl s (some id) =
      let rec : SessionRecord = record {
        id = id;
        email = normalize_email c email;
        issued_at = now;
        expiry = now + ttl;
      } in
      put_session_in rec s (bucket_put id (some rec) s.sessions)

  unfoldable pub create_session : Option Text → Text → ℕ → ℕ → Store → Done SessionRecord
  unfolding normalize_email bucket_put
  create_session handle email now ttl s = create_session_with email now ttl s handle

-- A session past its expiry is deleted when it is looked up.
abbrev pub session_found : Text → ℕ → Store → Option (Option SessionRecord) → Done SessionRecord
session_found id now s none = (err not_found, s)
session_found id now s (some none) = (err undecodable, s)
session_found id now s (some (some rec)) =
    if ltb rec.expiry now
    then (err expired, record s { sessions = remove id s.sessions })
    else (ok rec, s)

unfoldable pub lookup_session : Text → ℕ → Store → Done SessionRecord
lookup_session id now s = session_found id now s (lookup id s.sessions)

abbrev pub touched : Text → ℕ → Store → Option (Option SessionRecord) → Store
touched id until s none = s
touched id until s (some none) = s
touched id until s (some (some rec)) =
    if not (ltb rec.expiry until)
    then s
    else record s { sessions = put id (some (record rec { expiry = until })) s.sessions }

unfoldable pub touch_session : Text → ℕ → ℕ → Store → Store
touch_session id now ttl s = touched id (now + ttl) s (lookup id s.sessions)

unfoldable pub delete_session : Text → Store → Store
delete_session id s = record s { sessions = remove id s.sessions }

abbrev pub cons_dead : Bool → Text → Result UserError (List Text) → Result UserError (List Text)
cons_dead late k (err e) = err e
cons_dead late k (ok dead) = ok (if late then k ∷ dead else dead)

-- The keys of the sessions past their expiry; a row that does not decode ends the scan.
unfoldable pub expired_keys : ℕ → Bucket SessionRecord → Result UserError (List Text)
expired_keys now [] = ok []
expired_keys now ((k, none) ∷ rows) = err undecodable
expired_keys now ((k, some rec) ∷ rows) = cons_dead (ltb rec.expiry now) k (expired_keys now rows)

abbrev pub remove_all : {V : Type 0} → List Text → List (Text × V) → List (Text × V)
remove_all [] b = b
remove_all (k ∷ dead) b = remove_all dead (remove k b)

abbrev pub expired_swept : Store → Result UserError (List Text) → Done ℕ
expired_swept s (err e) = (err e, s)
expired_swept s (ok dead) = (ok (length dead), record s { sessions = remove_all dead s.sessions })

unfoldable pub delete_expired_sessions : ℕ → Store → Done ℕ
unfolding expired_keys
delete_expired_sessions now s = expired_swept s (expired_keys now s.sessions)
