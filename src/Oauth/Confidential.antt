-- ===== src/Oauth/Confidential.antt =====
-- pkg/oauthstore/registrations.go: confidential clients and their secrets.
use shoka.Prelude.{ℕ, ◌+◌, Bool, ◌&&◌, Option, none, some, [], ◌∷◌, leb, if◌then◌else◌}
use shoka.Text.{Text, text_eq, trim_space}
use shoka.Text.Keys.{text_key}
use shoka.Oauth.{
  RegistrationEntry, Bucket, Store, no_entropy, not_positive, Outcome, err, Calls, bucket_put,
}
use shoka.Oauth.Series.{hash_handle}
use shoka.Oauth.Registrations.{mode_confidential, matches_stored, stored_entry}

-- The last entry of the scan that fits; a row that does not decode is passed over.
unfoldable pub find_confidential :
    Text → Option RegistrationEntry → Bucket RegistrationEntry → Option RegistrationEntry
find_confidential id found [] = found
find_confidential id found ((k, none) ∷ rows) = find_confidential id found rows
find_confidential id found ((k, some e) ∷ rows) =
    find_confidential id
      (if text_eq e.registration_mode mode_confidential && text_eq e.identifier id
        then some e
        else found)
      rows

unfoldable pub confidential_client : Text → Store → Option RegistrationEntry
unfolding find_confidential
confidential_client client_id s =
    let id = trim_space client_id in
    if text_eq id [] then none else find_confidential id none s.registrations

module _ (c : Calls) where
  unfoldable pub set_secret : Text → RegistrationEntry → RegistrationEntry
  unfolding hash_handle
  set_secret secret e =
      if text_eq secret []
      then record e { secret = none }
      else record e { secret = some (hash_handle c secret) }

  unfoldable pub verify_secret : Text → RegistrationEntry → Bool
  unfolding hash_handle
  verify_secret presented e = matches_stored presented (hash_handle c presented) e.secret

  unfoldable pub confidential_entry : Text → Text → Text → Text → Text → ℕ → ℕ → RegistrationEntry
  unfolding set_secret
  confidential_entry id client_id secret scope name validity now = set_secret secret (record {
    id = id;
    registration_mode = mode_confidential;
    identifier = client_id;
    name = trim_space name;
    created_at = now;
    ttl = none;
    consent = none;
    secret = none;
    scope = trim_space scope;
    expires_at = some (now + validity);
  })

  -- The entry and the raw secret. A validity is a duration of at least 0 here.
  unfoldable pub issue_confidential_client :
      Option Text
      → Option Text
      → Option Text
      → Text
      → Text
      → ℕ
      → ℕ
      → Store
      → Outcome (RegistrationEntry × Text) × Store
  unfolding confidential_entry
  issue_confidential_client (some id) (some client_id) (some secret) scope name validity now s =
      if leb validity 0
      then (err not_positive, s)
      else let e = confidential_entry id client_id secret scope name validity now in
        stored_entry (e, secret) s (bucket_put id (some e) s.registrations)
  issue_confidential_client _ _ _ scope name validity now s =
      if leb validity 0 then (err not_positive, s) else (err no_entropy, s)
