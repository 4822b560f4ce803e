-- ===== src/Oauth.antt =====
-- pkg/oauthstore: the records of the OAuth store, its buckets and its errors.
pub mod Series
pub mod Index
pub mod Linked
pub mod Swept
pub mod Issue
pub mod Lifecycle
pub mod Rescope
pub mod Tokens
pub mod Rotation
pub mod Revocation
pub mod Errors
pub mod Histories
pub mod Sweeps
pub mod Registrations
pub mod Confidential
pub mod Seeding
pub mod Domains
pub use shoka.Prelude.{Result, err, ok}
unfoldable pub use shoka.Text.Buckets.{Bucket, bucket_put, drop_rows}
use shoka.Prelude.{ℕ, Bool, true, false, Option, none, some, List, [], ◌∷◌, ◌==◌, if◌then◌else◌}
use shoka.Prelude.Assoc.{lookup, put, remove}
use shoka.Text.{Text, text_eq}
use shoka.Text.Keys.{text_key}

pub record Principal : Type 0 where
  pub name : Text
  pub email : Text

pub record CodeRecord : Type 0 where
  pub client_id : Text
  pub redirect_uri : Text
  pub code_challenge : Text
  pub code_challenge_method : Text
  pub resource : Text
  pub principal : Principal
  pub expiry : ℕ

-- The extra permissions are opaque: their JSON text.
pub record SeriesRecord : Type 0 where
  pub series_id : Text
  pub name : Text
  pub access_token : Text
  pub refresh_token : Text
  pub access_token_hash : Text
  pub refresh_token_hash : Text
  pub client_id : Text
  pub principal : Principal
  pub resource : Text
  pub issued_at : ℕ
  pub access_expiry : ℕ
  pub refresh_expiry : ℕ
  pub scope : Text
  pub extra_permissions : Text

pub record RegisteredClient : Type 0 where
  pub client_id : Text
  pub redirect_uris : List Text
  pub token_endpoint_auth_method : Text
  pub client_name : Text
  pub grant_types : List Text
  pub response_types : List Text
  pub client_id_issued_at : ℕ
  pub domain : Text

pub record SeriesInfo : Type 0 where
  pub series_id : Text
  pub name : Text
  pub client_id : Text
  pub principal : Principal
  pub resource : Text
  pub issued_at : ℕ
  pub access_expiry : ℕ
  pub scope : Text

pub record EntryTtl : Type 0 where
  pub access_seconds : ℕ
  pub refresh_seconds : ℕ

-- A consent is its value, a secret its hash; an expiry that is absent is the zero time.
pub record RegistrationEntry : Type 0 where
  pub id : Text
  pub registration_mode : Text
  pub identifier : Text
  pub name : Text
  pub created_at : ℕ
  pub ttl : Option EntryTtl
  pub consent : Option Text
  pub secret : Option Text
  pub scope : Text
  pub expires_at : Option ℕ

abbrev pub Pointers : Type 0
Pointers = List (Text × Text)

pub record Store : Type 0 where
  pub codes : Bucket CodeRecord
  pub series : Bucket SeriesRecord
  pub access : Pointers
  pub refresh : Pointers
  pub clients : Bucket RegisteredClient
  pub registrations : Bucket RegistrationEntry
  pub seeded : Bool
  pub tokens_issued : ℕ
  pub revocations : ℕ

pub data StoreError : Type 0 where
  not_found expired undecodable key_required no_entropy : StoreError
  invalid_mode identifier_required not_positive not_domain : StoreError

abbrev pub Outcome : Type 0 → Type 0
Outcome A = Result StoreError A

-- What the store calls: SHA-256 in hexadecimal, strings.ToLower, strings.EqualFold, url.Parse.
pub record Url : Type 0 where
  pub scheme : Text
  pub host : Text
  pub hostname : Text

pub record Calls : Type 0 where
  pub digest : Text → Text
  pub to_lower : Text → Text
  pub equal_fold : Text → Text → Bool
  pub parse_url : Text → Option Url
