-- ===== src/Oauth/Series.antt =====
-- pkg/oauthstore/oauthstore.go: authorization codes and token series.
use shoka.Prelude.{ℕ, ◌+◌, not, ◌&&◌, Option, none, some, [], ltb, if◌then◌else◌}
use shoka.Prelude.Assoc.{lookup, remove}
use shoka.Text.{Text, text_eq}
use shoka.Text.Keys.{text_key}
use shoka.Oauth.{
  Principal, CodeRecord, SeriesRecord, Bucket, Pointers, Store, not_found, expired, undecodable,
  key_required, no_entropy, Outcome, err, ok, Calls, bucket_put,
}

module _ (c : Calls) where
  unfoldable pub hash_handle : Text → Text
  hash_handle handle = if text_eq handle [] then [] else c.digest handle

  abbrev pub put_code_in : Store → Option (Bucket CodeRecord) → Outcome (Unit {0}) × Store
  put_code_in s none = (err key_required, s)
  put_code_in s (some b) = (ok tt, record s { codes = b })

  unfoldable pub put_code : Text → CodeRecord → Store → Outcome (Unit {0}) × Store
  unfolding hash_handle
  put_code code rec s = put_code_in s (bucket_put (hash_handle code) (some rec) s.codes)

  -- The code goes also where it has expired, so that it cannot be replayed.
  abbrev pub take_found : Text → ℕ → Store → Option (Option CodeRecord) → Outcome CodeRecord × Store
  take_found key now s none = (err not_found, s)
  take_found key now s (some none) = (err undecodable, s)
  take_found key now s (some (some rec)) =
      (if ltb rec.expiry now then err expired else ok rec, record s { codes = remove key s.codes })

  unfoldable pub take_code : Text → ℕ → Store → Outcome CodeRecord × Store
  unfolding hash_handle
  take_code code now s = take_found (hash_handle code) now s (lookup (hash_handle code) s.codes)

-- The fields that JSON leaves out.
unfoldable pub at_rest : SeriesRecord → SeriesRecord
at_rest rec = record rec { access_token = []; refresh_token = [] }

-- if old != "" && old != new { b.Delete(old) }
unfoldable pub drop_old : Text → Text → Pointers → Pointers
drop_old old new b = if not (text_eq old []) && not (text_eq old new) then remove old b else b

abbrev pub put_pointers :
    SeriesRecord → Store → Bucket SeriesRecord → Option Pointers → Option Pointers → Option Store
put_pointers rec s rows (some access) (some refresh) =
    some (record s { series = rows; access = access; refresh = refresh })
put_pointers rec s rows _ _ = none

abbrev pub put_row :
    SeriesRecord → Text → Text → Store → Option (Bucket SeriesRecord) → Option Store
put_row rec old_access old_refresh s none = none
put_row rec old_access old_refresh s (some rows) =
    put_pointers rec s rows
      (bucket_put rec.access_token_hash rec.series_id
        (drop_old old_access rec.access_token_hash s.access))
      (bucket_put rec.refresh_token_hash rec.series_id
        (drop_old old_refresh rec.refresh_token_hash s.refresh))

-- putSeriesTx: `none` is the error of an empty key.
unfoldable pub put_series : SeriesRecord → Text → Text → Store → Option Store
unfolding at_rest drop_old bucket_put
put_series rec old_access old_refresh s =
    put_row rec old_access old_refresh s (bucket_put rec.series_id (some (at_rest rec)) s.series)

unfoldable pub delete_series : SeriesRecord → Store → Store
delete_series rec s = record s {
  series = remove rec.series_id s.series;
  access = remove rec.access_token_hash s.access;
  refresh = remove rec.refresh_token_hash s.refresh;
}

-- The series that a pointer leads to, if its own hash is the key.
abbrev pub resolve_row :
    Text → (SeriesRecord → Text) → Option (Option SeriesRecord) → Outcome SeriesRecord
resolve_row key field none = err not_found
resolve_row key field (some none) = err undecodable
resolve_row key field (some (some rec)) =
    if not (text_eq (field rec) key) then err not_found else ok rec

abbrev pub resolve_in :
    Bucket SeriesRecord → Text → (SeriesRecord → Text) → Option Text → Outcome SeriesRecord
resolve_in rows key field none = err not_found
resolve_in rows key field (some sid) = resolve_row key field (lookup sid rows)

unfoldable pub resolve :
    Bucket SeriesRecord → Pointers → Text → (SeriesRecord → Text) → Outcome SeriesRecord
resolve rows pointers key field = resolve_in rows key field (lookup key pointers)

module _ (c : Calls) where
  abbrev pub issued : Store → SeriesRecord → Option Store → Outcome SeriesRecord × Store
  issued s rec none = (err key_required, s)
  issued s rec (some t) = (ok rec, record t { tokens_issued = t.tokens_issued + 1 })

  abbrev pub new_record :
      Text → Text → Text → Text → Principal → Text → Text → Text → ℕ → ℕ → ℕ → Text → SeriesRecord
  new_record series_id access refresh client_id p resource scope name now access_ttl refresh_ttl
        ep =
      record {
        series_id = series_id;
        name = name;
        access_token = access;
        refresh_token = refresh;
        access_token_hash = hash_handle c access;
        refresh_token_hash = hash_handle c refresh;
        client_id = client_id;
        principal = p;
        resource = resource;
        issued_at = now;
        access_expiry = now + access_ttl;
        refresh_expiry = now + refresh_ttl;
        scope = scope;
        extra_permissions = ep;
      }

  -- The three handles are what the calls of NewHandle return; `none` is an error of the random source.
  unfoldable pub new_series :
      Option Text
      → Option Text
      → Option Text
      → Text
      → Principal
      → Text
      → Text
      → Text
      → ℕ
      → ℕ
      → ℕ
      → Text
      → Store
      → Outcome SeriesRecord × Store
  unfolding hash_handle put_series
  new_series (some sid) (some a) (some r) client_id p resource scope name now access_ttl refresh_ttl
        ep s =
      let rec = new_record sid a r client_id p resource scope name now access_ttl refresh_ttl ep in
      issued s rec (put_series rec [] [] s)
  new_series _ _ _ client_id p resource scope name now access_ttl refresh_ttl ep s =
      (err no_entropy, s)

  abbrev pub renewed : SeriesRecord → Text → Text → ℕ → ℕ → ℕ → SeriesRecord
  renewed rec access refresh now access_ttl refresh_ttl = record rec {
    access_token = access;
    refresh_token = refresh;
    access_token_hash = hash_handle c access;
    refresh_token_hash = hash_handle c refresh;
    access_expiry = now + access_ttl;
    refresh_expiry = now + refresh_ttl;
  }

  abbrev pub rotated : Store → SeriesRecord → Option Store → Outcome SeriesRecord × Store
  rotated s rec none = (err key_required, s)
  rotated s rec (some t) = (ok rec, t)

  abbrev pub rotate_with :
      SeriesRecord
      → Text
      → Option Text
      → Option Text
      → ℕ
      → ℕ
      → ℕ
      → Store
      → Outcome SeriesRecord × Store
  rotate_with rec old (some a) (some r) now access_ttl refresh_ttl s =
      let new = renewed rec a r now access_ttl refresh_ttl in
      rotated s new (put_series new rec.access_token_hash old s)
  rotate_with rec old _ _ now access_ttl refresh_ttl s = (err no_entropy, s)

  -- An expired refresh token takes its whole series with it.
  abbrev pub rotate_found :
      Text
      → Option Text
      → Option Text
      → ℕ
      → ℕ
      → ℕ
      → Store
      → Outcome SeriesRecord
      → Outcome SeriesRecord × Store
  rotate_found old access refresh now access_ttl refresh_ttl s (err e) = (err e, s)
  rotate_found old access refresh now access_ttl refresh_ttl s (ok rec) =
      if ltb rec.refresh_expiry now
      then (err expired, delete_series rec s)
      else rotate_with rec old access refresh now access_ttl refresh_ttl s

  unfoldable pub rotate :
      Text → Option Text → Option Text → ℕ → ℕ → ℕ → Store → Outcome SeriesRecord × Store
  unfolding hash_handle resolve put_series delete_series
  rotate old_refresh access refresh now access_ttl refresh_ttl s =
      rotate_found (hash_handle c old_refresh) access refresh now access_ttl refresh_ttl s
        (resolve s.series s.refresh (hash_handle c old_refresh) (λ rec. rec.refresh_token_hash))

  abbrev pub if_alive : ℕ → Outcome SeriesRecord → Outcome SeriesRecord
  if_alive now (err e) = err e
  if_alive now (ok rec) = if ltb rec.access_expiry now then err expired else ok rec

  -- Lookup
  unfoldable pub lookup_token : Text → ℕ → Store → Outcome SeriesRecord
  unfolding hash_handle resolve
  lookup_token token now s =
      if_alive now (resolve s.series s.access (hash_handle c token) (λ rec. rec.access_token_hash))

  abbrev pub client_of : Outcome SeriesRecord → Option Text
  client_of (err e) = none
  client_of (ok rec) = some rec.client_id

  unfoldable pub refresh_client_id : Text → Store → Option Text
  unfolding hash_handle resolve
  refresh_client_id token s =
      client_of (resolve s.series s.refresh (hash_handle c token) (λ rec. rec.refresh_token_hash))
