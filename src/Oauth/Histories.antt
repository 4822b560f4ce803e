-- ===== src/Oauth/Histories.antt =====
-- pkg/oauthstore: the stores that the operations reach from an empty one.
use mathlib.Core.Path.{subst}
use shoka.Prelude.{ℕ, ◌≡◌, refl, ap, Bool, true, false, Option, none, some, [], ltb, if◌then◌else◌}
use shoka.Prelude.Assoc.{lookup}
use shoka.Text.{Text, text_eq, trim_space}
use shoka.Text.Keys.{text_key}
use shoka.Oauth.{
  Principal, CodeRecord, SeriesRecord, RegisteredClient, Bucket, Store, Outcome, err, ok, Calls,
  bucket_put,
}
use shoka.Oauth.Index.{IsIndex}
use shoka.Oauth.Linked.{access_hash, refresh_hash, IsLinked}
use shoka.Oauth.Series.{
  put_code_in, put_code, take_found, take_code, new_series, rotate, hash_handle,
}
use shoka.Oauth.Lifecycle.{
  IsFresh, relink, new_series-IsLinked, rotate-IsLinked_step, revoke-IsLinked, swept-IsLinked,
}
use shoka.Oauth.Rescope.{rewrite_scopes_lem}
use shoka.Oauth.Sweeps.{
  count_revoked, email_swept, is_bound_to, delete_dead_series, revoke, revoke_by_principal_email,
  revoke_by_client_id, rewrite_rows, rewritten_store, rewrite_scopes, put_client_in, put_client,
}
use shoka.Oauth.Domains.{is_of_domain, revoke_by_domain}

-- Open on a file that is not there.
abbrev pub new_store : Store
new_store = record {
  codes = [];
  series = [];
  access = [];
  refresh = [];
  clients = [];
  registrations = [];
  seeded = false;
  tokens_issued = 0;
  revocations = 0;
}

-- One call of an operation that writes series, codes or clients, with new handles where the code
-- draws them.
pub data StoreStep (c : Calls) : Store → Store → Type 0 where
  code_put : {s : Store} (code : Text) (rec : CodeRecord) → StoreStep c s (put_code c code rec s).1
  code_taken : {s : Store} (code : Text) (now : ℕ) → StoreStep c s (take_code c code now s).1
  pair_issued :
      {s : Store} (sid a r : Option Text) (client_id : Text) (p : Principal)
      (resource scope name : Text) (now access_ttl refresh_ttl : ℕ) (ep : Text)
      → ((h : Text) → sid ≡ some h → lookup h s.series ≡ none)
      → IsFresh c s.access a
      → IsFresh c s.refresh r
      → StoreStep c s
          (new_series c sid a r client_id p resource scope name now access_ttl refresh_ttl ep s).1
  pair_rotated :
      {s : Store} (old : Text) (a r : Option Text) (now access_ttl refresh_ttl : ℕ)
      → IsFresh c s.access a
      → IsFresh c s.refresh r
      → StoreStep c s (rotate c old a r now access_ttl refresh_ttl s).1
  series_revoked : {s : Store} (sid : Text) → StoreStep c s (revoke sid s)
  email_revoked : {s : Store} (email : Text) → StoreStep c s (revoke_by_principal_email c email s).1
  client_revoked :
      {s : Store} (client_id : Text) → StoreStep c s (revoke_by_client_id c client_id s).1
  domain_revoked : {s : Store} (domain : Text) → StoreStep c s (revoke_by_domain c domain s).1
  dead_deleted : {s : Store} (now : ℕ) → StoreStep c s (delete_dead_series now s).1
  scopes_rewritten : {s : Store} (f : Text → Text) → StoreStep c s (rewrite_scopes f s).1
  client_put : {s : Store} (rec : RegisteredClient) → StoreStep c s (put_client rec s).1

pub data StoreReach (c : Calls) : Store → Type 0 where
  start : StoreReach c new_store
  next : {s t : Store} → StoreReach c s → StoreStep c s t → StoreReach c t

empty-IsIndex : (field : SeriesRecord → Text) → IsIndex field [] []
unfolding lookup
empty-IsIndex field = record {
  leads = λ k sid e. cc e;
  points = λ sid rec e. cc e;
  no_empty = refl;
}

new_store-IsLinked : IsLinked new_store
unfolding lookup
new_store-IsLinked = record {
  access = empty-IsIndex access_hash;
  refresh = empty-IsIndex refresh_hash;
  own_id = λ sid rec e. cc e;
  rows = tt;
}

put_code-IsLinked :
    (c : Calls) (code : Text) (rec : CodeRecord) (s : Store)
    → IsLinked s
    → IsLinked (put_code c code rec s).1
unfolding put_code
put_code-IsLinked c code rec s h = go (bucket_put (hash_handle c code) (some rec) s.codes)
  where
    go : (o : Option (Bucket CodeRecord)) → IsLinked (put_code_in c s o).1
    go none = h
    go (some b) = relink s _ h refl refl refl

take_code-IsLinked :
    (c : Calls) (code : Text) (now : ℕ) (s : Store)
    → IsLinked s
    → IsLinked (take_code c code now s).1
unfolding take_code
take_code-IsLinked c code now s h = go (lookup (hash_handle c code) s.codes)
  where
    go : (o : Option (Option CodeRecord)) → IsLinked (take_found c (hash_handle c code) now s o).1
    go none = h
    go (some none) = h
    go (some (some rec)) = relink s _ h refl refl refl

put_client-IsLinked :
    (rec : RegisteredClient) (s : Store) → IsLinked s → IsLinked (put_client rec s).1
unfolding put_client
put_client-IsLinked rec s h = go (bucket_put rec.client_id (some rec) s.clients)
  where
    go : (o : Option (Bucket RegisteredClient)) → IsLinked (put_client_in s o).1
    go none = h
    go (some b) = relink s _ h refl refl refl

count_revoked-IsLinked : (r : Outcome ℕ × Store) → IsLinked r.1 → IsLinked (count_revoked r).1
count_revoked-IsLinked (err x, s) h = h
count_revoked-IsLinked (ok n, s) h = relink s _ h refl refl refl

email_swept-IsLinked :
    (c : Calls) (target : Text) (r : Outcome ℕ × Store)
    → IsLinked r.1
    → IsLinked (email_swept c target r).1
email_swept-IsLinked c target (err x, s) h = h
email_swept-IsLinked c target (ok n, s) h = relink s _ h refl refl refl

rewrite_scopes-IsLinked :
    (f : Text → Text) (s : Store) → IsLinked s → IsLinked (rewrite_scopes f s).1
unfolding rewrite_scopes
rewrite_scopes-IsLinked f s h = go (rewrite_rows f s.series) refl
  where
    go :
        (o : Outcome (Bucket SeriesRecord × ℕ))
        → rewrite_rows f s.series ≡ o
        → IsLinked (rewritten_store s o).1
    go (err x) e = h
    go (ok (rows, n)) e =
        let done = (rewrite_scopes_lem f s n h (ap (λ o. (rewritten_store s o).0) e)).0 in
        subst (λ o. IsLinked (rewritten_store s o).1) e done

-- A sweep that an empty target skips.
guarded-IsLinked :
    (test : Bool) (s : Store) (r : Outcome ℕ × Store)
    → IsLinked s
    → IsLinked r.1
    → IsLinked (if test then (ok 0, s) else r).1
guarded-IsLinked true s r h k = h
guarded-IsLinked false s r h k = k

StoreStep-IsLinked : {c : Calls} {s t : Store} → StoreStep c s t → IsLinked s → IsLinked t
unfolding revoke_by_principal_email revoke_by_client_id revoke_by_domain delete_dead_series
StoreStep-IsLinked {c = c} {s = s} (code_put code rec) h = put_code-IsLinked c code rec s h
StoreStep-IsLinked {c = c} {s = s} (code_taken code now) h = take_code-IsLinked c code now s h
StoreStep-IsLinked {c = c} {s = s}
      (pair_issued sid a r id p resource scope name now at rt ep fs fa fr) h =
    new_series-IsLinked c sid a r id p resource scope name now at rt ep s h fs fa fr
StoreStep-IsLinked {c = c} {s = s} (pair_rotated old a r now at rt fa fr) h =
    rotate-IsLinked_step c old a r now at rt s h fa fr
StoreStep-IsLinked {s = s} (series_revoked sid) h = revoke-IsLinked sid s h
StoreStep-IsLinked {c = c} {s = s} (email_revoked email) h =
    let target = c.to_lower (trim_space email) in
    guarded-IsLinked (text_eq target []) s _ h (
      count_revoked-IsLinked _ (
        email_swept-IsLinked c target _
          (swept-IsLinked (λ rec. is_bound_to c target rec.principal) s h)))
StoreStep-IsLinked {s = s} (client_revoked client_id) h =
    guarded-IsLinked (text_eq (trim_space client_id) []) s _ h (
      count_revoked-IsLinked _
        (swept-IsLinked (λ rec. text_eq rec.client_id (trim_space client_id)) s h))
StoreStep-IsLinked {c = c} {s = s} (domain_revoked domain) h =
    let target = c.to_lower (trim_space domain) in
    guarded-IsLinked (text_eq target []) s _ h
      (count_revoked-IsLinked _ (swept-IsLinked (is_of_domain c target s) s h))
StoreStep-IsLinked {s = s} (dead_deleted now) h =
    swept-IsLinked (λ rec. ltb rec.refresh_expiry now) s h
StoreStep-IsLinked {s = s} (scopes_rewritten f) h = rewrite_scopes-IsLinked f s h
StoreStep-IsLinked {s = s} (client_put rec) h = put_client-IsLinked rec s h

-- In every store that the operations on codes, token series and clients reach from an empty one,
-- with new handles wherever the code draws them, the series and the two pointer buckets agree: each
-- pointer leads to the series that holds its hash, each series has both pointers, and stands under
-- its own id.
pub StoreReach-IsLinked : {c : Calls} {s : Store} → StoreReach c s → IsLinked s
StoreReach-IsLinked start = new_store-IsLinked
StoreReach-IsLinked (next r x) = StoreStep-IsLinked x (StoreReach-IsLinked r)
