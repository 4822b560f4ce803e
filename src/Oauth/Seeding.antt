-- ===== src/Oauth/Seeding.antt =====
-- pkg/oauthstore/registrations.go: the entries that are made once of the configured domains.
use shoka.Prelude.{ℕ, ◌/◌, true, ◌||◌, Option, none, some, List, [], ◌∷◌, ltb, if◌then◌else◌}
use shoka.Text.{Text, text_eq, trim_space}
use shoka.Text.Keys.{text_key}
use shoka.Oauth.{
  RegistrationEntry, Bucket, Store, key_required, no_entropy, Outcome, err, ok, bucket_put,
}
use shoka.Oauth.Registrations.{mode_domain, second, set_consent, plain_entry}

-- The entry that a seeded domain gets. Durations are cut to whole seconds.
unfoldable pub seeded_entry : Text → Text → Text → ℕ → ℕ → ℕ → RegistrationEntry
unfolding set_consent plain_entry
seeded_entry id domain consent access_ttl refresh_ttl now =
    let e = set_consent consent (plain_entry id mode_domain domain now) in
    if ltb 0 access_ttl || ltb 0 refresh_ttl
    then record e {
      ttl =
          some (record {
            access_seconds = access_ttl / second;
            refresh_seconds = refresh_ttl / second;
          });
    }
    else e

abbrev pub put_or_refuse : Option (Bucket RegistrationEntry) → Outcome (Bucket RegistrationEntry)
put_or_refuse none = err key_required
put_or_refuse (some rows) = ok rows

-- One configured domain, with what its call of NewHandle returns.
abbrev pub seed_one :
    Text
    → ℕ
    → ℕ
    → ℕ
    → Text
    → Option Text
    → Bucket RegistrationEntry
    → Outcome (Bucket RegistrationEntry)
seed_one consent access_ttl refresh_ttl now d none rows =
    if text_eq d [] then ok rows else err no_entropy
seed_one consent access_ttl refresh_ttl now d (some id) rows =
    if text_eq d []
    then ok rows
    else put_or_refuse
        (bucket_put id (some (seeded_entry id d consent access_ttl refresh_ttl now)) rows)

abbrev pub and_then : {A B : Type 0} → Outcome A → (A → Outcome B) → Outcome B
and_then (err e) next = err e
and_then (ok a) next = next a

unfoldable pub seed_rows :
    Text
    → ℕ
    → ℕ
    → ℕ
    → List (Text × Option Text)
    → Bucket RegistrationEntry
    → Outcome (Bucket RegistrationEntry)
unfolding seeded_entry bucket_put
seed_rows consent access_ttl refresh_ttl now [] rows = ok rows
seed_rows consent access_ttl refresh_ttl now ((domain, handle) ∷ domains) rows =
    and_then (seed_one consent access_ttl refresh_ttl now (trim_space domain) handle rows)
      (λ next. seed_rows consent access_ttl refresh_ttl now domains next)

abbrev pub seeded_store : Store → Outcome (Bucket RegistrationEntry) → Outcome (Unit {0}) × Store
seeded_store s (err e) = (err e, s)
seeded_store s (ok rows) = (ok tt, record s { registrations = rows; seeded = true })

-- SeedDomainRegistrationsFromDomains: done once.
unfoldable pub seed_domains :
    List (Text × Option Text) → Text → ℕ → ℕ → ℕ → Store → Outcome (Unit {0}) × Store
unfolding seed_rows
seed_domains domains consent access_ttl refresh_ttl now s =
    if s.seeded
    then (ok tt, s)
    else seeded_store s (seed_rows consent access_ttl refresh_ttl now domains s.registrations)
