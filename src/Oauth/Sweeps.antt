-- ===== src/Oauth/Sweeps.antt =====
-- pkg/oauthstore: revocation and the other operations that run over a whole bucket.
use shoka.Prelude.{ℕ, ◌+◌, Bool, Option, none, some, List, [], ◌∷◌, length, ltb, if◌then◌else◌}
use shoka.Prelude.Assoc.{lookup, remove}
use shoka.Text.{Text, codes, text_eq, trim_space}
use shoka.Text.Keys.{text_key}
use shoka.Oauth.{
  Principal, CodeRecord, SeriesRecord, SeriesInfo, RegisteredClient, Bucket, Store, not_found,
  undecodable, key_required, Outcome, err, ok, Calls, bucket_put, drop_rows,
}
use shoka.Oauth.Series.{at_rest, delete_series}

abbrev pub cons_if : Bool → SeriesRecord → Outcome (List SeriesRecord) → Outcome (List SeriesRecord)
cons_if test rec (err e) = err e
cons_if test rec (ok l) = ok (if test then rec ∷ l else l)

-- The scan that collects the records that pass the test; a row that does not decode ends it.
unfoldable pub collect : (SeriesRecord → Bool) → Bucket SeriesRecord → Outcome (List SeriesRecord)
collect test [] = ok []
collect test ((sid, none) ∷ rows) = err undecodable
collect test ((sid, some rec) ∷ rows) = cons_if (test rec) rec (collect test rows)

unfoldable pub delete_all : List SeriesRecord → Store → Store
unfolding delete_series
delete_all [] s = s
delete_all (rec ∷ dead) s = delete_all dead (delete_series rec s)

-- The sweep of DeleteDeadSeries, RevokeByDomain and RevokeByClientID.
abbrev pub swept : Store → Outcome (List SeriesRecord) → Outcome ℕ × Store
swept s (err e) = (err e, s)
swept s (ok dead) = (ok (length dead), delete_all dead s)

abbrev pub count_revoked : Outcome ℕ × Store → Outcome ℕ × Store
count_revoked (err e, s) = (err e, s)
count_revoked (ok n, s) = (ok n, record s { revocations = s.revocations + n })

unfoldable pub delete_dead_series : ℕ → Store → Outcome ℕ × Store
unfolding collect delete_all
delete_dead_series now s = swept s (collect (λ rec. ltb rec.refresh_expiry now) s.series)

abbrev pub revoke_row : Text → Store → Option (Option SeriesRecord) → Store
revoke_row sid s none = s
revoke_row sid s (some none) = record s {
  series = remove sid s.series;
  revocations = s.revocations + 1;
}
revoke_row sid s (some (some rec)) =
    let t = delete_series rec s in record t { revocations = t.revocations + 1 }

-- Revoke of one series: an id that is not there is no error.
unfoldable pub revoke : Text → Store → Store
unfolding delete_series
revoke sid s = revoke_row sid s (lookup sid s.series)

module _ (c : Calls) where
  -- strings.EqualFold(strings.TrimSpace(p.Email), target)
  unfoldable pub is_bound_to : Text → Principal → Bool
  is_bound_to target p = c.equal_fold (trim_space p.email) target

  -- A code that does not decode is skipped.
  unfoldable pub drop_codes : Text → Bucket CodeRecord → Bucket CodeRecord
  unfolding is_bound_to drop_rows
  drop_codes target codes = drop_rows (λ rec. is_bound_to target rec.principal) codes

  abbrev pub email_swept : Text → Outcome ℕ × Store → Outcome ℕ × Store
  email_swept target (err e, s) = (err e, s)
  email_swept target (ok n, s) = (ok n, record s { codes = drop_codes target s.codes })

  unfoldable pub revoke_by_principal_email : Text → Store → Outcome ℕ × Store
  unfolding collect delete_all is_bound_to drop_codes
  revoke_by_principal_email email s =
      let target = c.to_lower (trim_space email) in
      if text_eq target []
      then (ok 0, s)
      else count_revoked (
          email_swept target (swept s (collect (λ rec. is_bound_to target rec.principal) s.series)))

  unfoldable pub revoke_by_client_id : Text → Store → Outcome ℕ × Store
  unfolding collect delete_all
  revoke_by_client_id client_id s =
      let id = trim_space client_id in
      if text_eq id []
      then (ok 0, s)
      else count_revoked (swept s (collect (λ rec. text_eq rec.client_id id) s.series))

abbrev pub cons_row :
    (SeriesRecord → Bool)
    → Text
    → SeriesRecord
    → SeriesRecord
    → Outcome (Bucket SeriesRecord × ℕ)
    → Outcome (Bucket SeriesRecord × ℕ)
cons_row same sid old new (err e) = err e
cons_row same sid old new (ok (rows, n)) =
    if same old
    then ok ((sid, some old) ∷ rows, n)
    else ok ((sid, some (at_rest new)) ∷ rows, n + 1)

-- The rows with the new scopes, and how many changed. A row stays under its key.
unfoldable pub rewrite_rows :
    (Text → Text) → Bucket SeriesRecord → Outcome (Bucket SeriesRecord × ℕ)
unfolding at_rest
rewrite_rows f [] = ok ([], 0)
rewrite_rows f ((sid, none) ∷ rows) = err undecodable
rewrite_rows f ((sid, some rec) ∷ rows) =
    cons_row (λ r. text_eq (f r.scope) r.scope) sid rec (record rec { scope = f rec.scope })
      (rewrite_rows f rows)

abbrev pub rewritten_store : Store → Outcome (Bucket SeriesRecord × ℕ) → Outcome ℕ × Store
rewritten_store s (err e) = (err e, s)
rewritten_store s (ok (rows, n)) = (ok n, record s { series = rows })

unfoldable pub rewrite_scopes : (Text → Text) → Store → Outcome ℕ × Store
unfolding rewrite_rows
rewrite_scopes f s = rewritten_store s (rewrite_rows f s.series)

unfoldable pub info_of : SeriesRecord → SeriesInfo
info_of rec = record {
  series_id = rec.series_id;
  name = rec.name;
  client_id = rec.client_id;
  principal = rec.principal;
  resource = rec.resource;
  issued_at = rec.issued_at;
  access_expiry = rec.access_expiry;
  scope = rec.scope;
}

abbrev pub cons_info : SeriesRecord → Outcome (List SeriesInfo) → Outcome (List SeriesInfo)
cons_info rec (err e) = err e
cons_info rec (ok l) = ok (info_of rec ∷ l)

-- List, on the rows.
unfoldable pub list_series : Bucket SeriesRecord → Outcome (List SeriesInfo)
unfolding info_of
list_series [] = ok []
list_series ((sid, none) ∷ rows) = err undecodable
list_series ((sid, some rec) ∷ rows) = cons_info rec (list_series rows)

abbrev pub put_client_in : Store → Option (Bucket RegisteredClient) → Outcome (Unit {0}) × Store
put_client_in s none = (err key_required, s)
put_client_in s (some b) = (ok tt, record s { clients = b })

unfoldable pub put_client : RegisteredClient → Store → Outcome (Unit {0}) × Store
put_client rec s = put_client_in s (bucket_put rec.client_id (some rec) s.clients)

abbrev pub found_row : {A : Type 0} → Option (Option A) → Outcome A
found_row none = err not_found
found_row (some none) = err undecodable
found_row (some (some rec)) = ok rec

unfoldable pub get_client : Text → Store → Outcome RegisteredClient
get_client id s = found_row (lookup id s.clients)
