-- ===== src/Oauth/Domains.antt =====
-- pkg/oauthstore/domain.go: the domain of a client, and the entry that covers it. Hosts and identifiers
-- are ASCII, so that the code points of a text are its bytes.
use shoka.Prelude.{
  ℕ, Bool, true, false, not, ◌&&◌, ◌||◌, Option, none, some, List, [], ◌∷◌, length, ltb,
  if◌then◌else◌,
}
use shoka.Prelude.Assoc.{lookup}
use shoka.Text.{Text, codes, text_eq, trim_space, has_suffix}
use shoka.Text.Keys.{text_key}
use shoka.Oauth.{
  SeriesRecord, RegisteredClient, RegistrationEntry, Store, Outcome, err, ok, Url, Calls,
}
use shoka.Oauth.Sweeps.{collect, delete_all, swept, count_revoked, get_client}
use shoka.Oauth.Registrations.{mode_domain, list_registrations}

abbrev pub self_issued_client_id : Text
self_issued_client_id = codes "shoka-cli"

-- host == d || strings.HasSuffix(host, "."+d)
unfoldable pub is_within : Text → Text → Bool
is_within host d = text_eq host d || has_suffix host (b'.' ∷ d)

module _ (c : Calls) where
  abbrev pub https_host : Option Url → Text
  https_host none = []
  https_host (some u) =
      if not (text_eq u.scheme (codes "https")) || text_eq u.host []
      then []
      else c.to_lower u.hostname

  unfoldable pub cimd_host : Text → Text
  cimd_host client_id = https_host (c.parse_url client_id)

  abbrev pub redirect_host : Option Url → Text
  redirect_host none = []
  redirect_host (some u) = if text_eq u.host [] then [] else c.to_lower u.hostname

  -- The loop over the redirect URIs, with the host so far.
  unfoldable pub shared_host : Text → List Text → Text
  shared_host host [] = host
  shared_host host (ru ∷ uris) =
      let h = redirect_host (c.parse_url (trim_space ru)) in
      let unread = shared_host host uris in
      let first = shared_host h uris in
      if text_eq h []
      then unread
      else if text_eq host []
      then first
      else if not (text_eq h host)
      then []
      else unread

  unfoldable pub domain_from_redirect_uris : List Text → Text
  unfolding shared_host
  domain_from_redirect_uris uris = shared_host [] uris

  unfoldable pub recorded_domain : RegisteredClient → Text
  unfolding domain_from_redirect_uris
  recorded_domain client =
      if text_eq client.domain []
      then domain_from_redirect_uris client.redirect_uris
      else client.domain

  abbrev pub dcr_domain : Outcome RegisteredClient → Option (Text × Text)
  dcr_domain (err e) = none
  dcr_domain (ok client) =
      let d = recorded_domain client in if text_eq d [] then none else some (d, codes "dcr")

  -- The domain and the procedure; `none` where the client has no domain.
  unfoldable pub client_domain : Text → Store → Option (Text × Text)
  unfolding cimd_host recorded_domain get_client
  client_domain client_id s =
      if text_eq client_id self_issued_client_id
      then none
      else if not (text_eq (cimd_host client_id) [])
      then some (cimd_host client_id, codes "cimd")
      else dcr_domain (get_client client_id s)

  abbrev pub row_domain : Option (Option RegisteredClient) → Text
  row_domain none = []
  row_domain (some none) = []
  row_domain (some (some client)) = c.to_lower (recorded_domain client)

  unfoldable pub client_domain_tx : Text → Store → Text
  unfolding cimd_host recorded_domain
  client_domain_tx client_id s =
      if text_eq client_id self_issued_client_id
      then []
      else if not (text_eq (cimd_host client_id) [])
      then cimd_host client_id
      else row_domain (lookup client_id s.clients)

  -- Whether an entry covers the host, and with which domain.
  unfoldable pub covers : Text → RegistrationEntry → Bool
  unfolding is_within
  covers host e =
      text_eq e.registration_mode mode_domain
      && not (text_eq (c.to_lower (trim_space e.identifier)) [])
      && is_within host (c.to_lower (trim_space e.identifier))

  -- !found || len(d) > len(best.Identifier)
  abbrev pub beats : RegistrationEntry → Option RegistrationEntry → Bool
  beats e none = true
  beats e (some best) = ltb (length best.identifier) (length (c.to_lower (trim_space e.identifier)))

  unfoldable pub best_entry :
      Text → Option RegistrationEntry → List RegistrationEntry → Option RegistrationEntry
  unfolding covers
  best_entry host best [] = best
  best_entry host best (e ∷ entries) =
      best_entry host (if covers host e && beats e best then some e else best) entries

  abbrev pub best_of : Text → Outcome (List RegistrationEntry) → Option RegistrationEntry
  best_of host (err x) = none
  best_of host (ok entries) = best_entry host none entries

  unfoldable pub domain_entry_for_host : Text → Store → Option RegistrationEntry
  unfolding best_entry list_registrations
  domain_entry_for_host raw s =
      let host = c.to_lower (trim_space raw) in
      if text_eq host [] then none else best_of host (list_registrations s.registrations)

  abbrev pub is_found : Option RegistrationEntry → Bool
  is_found none = false
  is_found (some e) = true

  unfoldable pub trusted_domain : Text → Store → Bool
  unfolding domain_entry_for_host
  trusted_domain host s = is_found (domain_entry_for_host host s)

  abbrev pub entry_for : Option (Text × Text) → Store → Option RegistrationEntry
  entry_for none s = none
  entry_for (some (domain, procedure)) s = domain_entry_for_host domain s

  unfoldable pub domain_entry_for_client : Text → Store → Option RegistrationEntry
  unfolding client_domain domain_entry_for_host
  domain_entry_for_client client_id s = entry_for (client_domain client_id s) s

  unfoldable pub is_of_domain : Text → Store → SeriesRecord → Bool
  unfolding client_domain_tx is_within
  is_of_domain domain s rec =
      let d = client_domain_tx rec.client_id s in not (text_eq d []) && is_within d domain

  unfoldable pub revoke_by_domain : Text → Store → Outcome ℕ × Store
  unfolding is_of_domain collect delete_all
  revoke_by_domain raw s =
      let domain = c.to_lower (trim_space raw) in
      if text_eq domain []
      then (ok 0, s)
      else count_revoked (swept s (collect (is_of_domain domain s) s.series))
