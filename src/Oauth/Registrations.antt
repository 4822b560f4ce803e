-- ===== src/Oauth/Registrations.antt =====
-- pkg/oauthstore/registrations.go: the entries that an operator registers.
use shoka.Prelude.{
  ℕ, ◌*◌, ◌%◌, ◌^◌, Bool, true, false, not, ◌&&◌, ◌||◌, Option, none, some, List, [], ◌∷◌, ltb,
  if◌then◌else◌,
}
use shoka.Prelude.Assoc.{lookup, remove}
use shoka.Text.{Text, codes, text_eq, trim_space}
use shoka.Text.Keys.{text_key}
use shoka.Oauth.{
  EntryTtl, RegistrationEntry, Bucket, Store, not_found, undecodable, key_required, no_entropy,
  invalid_mode, identifier_required, not_domain, Outcome, err, ok, bucket_put,
}
use shoka.Oauth.Sweeps.{found_row}

abbrev pub mode_domain : Text
mode_domain = codes "domain"

abbrev pub mode_confidential : Text
mode_confidential = codes "confidential"

-- time.Second in nanoseconds
abbrev pub second : ℕ
second = 1000000000

-- A positive duration of the entry wins over the default: on an int64, by its 64 bits.
unfoldable pub positive_or : ℕ → ℕ → ℕ
positive_or default seconds =
    let d = seconds * second % 2 ^ 64 in if ltb 0 d && ltb d (2 ^ 63) then d else default

abbrev pub ttl_or : ℕ → ℕ → Option EntryTtl → ℕ × ℕ
ttl_or access refresh none = (access, refresh)
ttl_or access refresh (some t) =
    (positive_or access t.access_seconds, positive_or refresh t.refresh_seconds)

unfoldable pub effective_ttl : RegistrationEntry → ℕ → ℕ → ℕ × ℕ
unfolding positive_or
effective_ttl e default_access default_refresh = ttl_or default_access default_refresh e.ttl

unfoldable pub set_consent : Text → RegistrationEntry → RegistrationEntry
set_consent value e =
    if text_eq value [] then record e { consent = none } else record e { consent = some value }

unfoldable pub consent_value : RegistrationEntry → Text
consent_value e = elim e.consent [ none ↦ [] | some value ↦ value ]

abbrev pub matches_stored : Text → Text → Option Text → Bool
matches_stored presented shown none = false
matches_stored presented shown (some stored) =
    if text_eq stored [] || text_eq presented [] then false else text_eq shown stored

unfoldable pub verify_consent : Text → RegistrationEntry → Bool
verify_consent presented e = matches_stored presented presented e.consent

abbrev pub not_before : ℕ → Option ℕ → Bool
not_before now none = true
not_before now (some t) = not (ltb now t)

-- No expiry counts as expired.
unfoldable pub credential_expired : ℕ → RegistrationEntry → Bool
credential_expired now e = not_before now e.expires_at

unfoldable pub valid_registration_mode : Text → Bool
valid_registration_mode m = text_eq m mode_domain || text_eq m mode_confidential

abbrev pub stored_entry :
    {A : Type 0} → A → Store → Option (Bucket RegistrationEntry) → Outcome A × Store
stored_entry a s none = (err key_required, s)
stored_entry a s (some b) = (ok a, record s { registrations = b })

-- An entry of one mode, with nothing else set.
unfoldable pub plain_entry : Text → Text → Text → ℕ → RegistrationEntry
plain_entry id mode identifier now = record {
  id = id;
  registration_mode = mode;
  identifier = identifier;
  name = [];
  created_at = now;
  ttl = none;
  consent = none;
  secret = none;
  scope = [];
  expires_at = none;
}

abbrev pub create_with : Text → Text → ℕ → Store → Option Text → Outcome RegistrationEntry × Store
create_with mode identifier now s none = (err no_entropy, s)
create_with mode identifier now s (some id) =
    let e = plain_entry id mode identifier now in
    stored_entry e s (bucket_put id (some e) s.registrations)

unfoldable pub create_registration :
    Option Text → Text → Text → ℕ → Store → Outcome RegistrationEntry × Store
unfolding valid_registration_mode plain_entry
create_registration handle mode identifier now s =
    if not (valid_registration_mode mode)
    then (err invalid_mode, s)
    else if text_eq (trim_space identifier) []
    then (err identifier_required, s)
    else create_with mode (trim_space identifier) now s handle

unfoldable pub get_registration : Text → Store → Outcome RegistrationEntry
get_registration id s = found_row (lookup id s.registrations)

abbrev pub overwritten :
    RegistrationEntry → Store → Option (Option RegistrationEntry) → Outcome (Unit {0}) × Store
overwritten e s none = (err not_found, s)
overwritten e s (some old) = stored_entry tt s (bucket_put e.id (some e) s.registrations)

unfoldable pub update_registration : RegistrationEntry → Store → Outcome (Unit {0}) × Store
unfolding valid_registration_mode
update_registration e s =
    if not (valid_registration_mode e.registration_mode)
    then (err invalid_mode, s)
    else if text_eq (trim_space e.identifier) []
    then (err identifier_required, s)
    else overwritten e s (lookup e.id s.registrations)

abbrev pub consent_stored : Text → Outcome (Unit {0}) × Store → Outcome Text × Store
consent_stored value (err e, s) = (err e, s)
consent_stored value (ok u, s) = (ok value, s)

abbrev pub consent_with : Store → RegistrationEntry → Option Text → Outcome Text × Store
consent_with s e none = (err no_entropy, s)
consent_with s e (some value) = consent_stored value (update_registration (set_consent value e) s)

abbrev pub consent_for : Option Text → Store → Outcome RegistrationEntry → Outcome Text × Store
consent_for handle s (err x) = (err x, s)
consent_for handle s (ok e) =
    if not (text_eq e.registration_mode mode_domain)
    then (err not_domain, s)
    else consent_with s e handle

unfoldable pub generate_domain_consent : Option Text → Text → Store → Outcome Text × Store
unfolding get_registration set_consent update_registration
generate_domain_consent handle id s = consent_for handle s (get_registration id s)

unfoldable pub delete_registration : Text → Store → Store
delete_registration id s = record s { registrations = remove id s.registrations }

abbrev pub cons_entry :
    RegistrationEntry → Outcome (List RegistrationEntry) → Outcome (List RegistrationEntry)
cons_entry e (err x) = err x
cons_entry e (ok l) = ok (e ∷ l)

-- ListRegistrations, on the rows.
unfoldable pub list_registrations : Bucket RegistrationEntry → Outcome (List RegistrationEntry)
list_registrations [] = ok []
list_registrations ((id, none) ∷ rows) = err undecodable
list_registrations ((id, some e) ∷ rows) = cons_entry e (list_registrations rows)
