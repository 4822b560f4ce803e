-- ===== src/Users.antt =====
-- pkg/userstore/userstore.go: the records of the user store, and the accounts.
pub use shoka.Prelude.{Result, err, ok}
unfoldable pub use shoka.Text.Buckets.{Bucket, bucket_put, drop_rows}
pub mod Sessions
pub mod Admin
pub mod Invites
pub mod Lockout
pub mod Accounts
pub mod Redemption
pub mod Scopes
use shoka.Prelude.{
  ℕ, ◌+◌, ◌==◌, Bool, true, false, not, ◌&&◌, ◌||◌, Option, none, some, List, [], ◌∷◌, length, ltb,
  if◌then◌else◌,
}
use shoka.Prelude.Assoc.{lookup, put, remove}
use shoka.Text.{Text, codes, text_eq, trim_space, split}
use shoka.Text.Keys.{text_key}

abbrev pub admin_scope : Text
admin_scope = codes "*:admin"

-- The passkeys are opaque: their JSON text. A time is 0 where it is Go's zero time.
pub record UserRecord : Type 0 where
  pub email : Text
  pub display_name : Text
  pub handle : Text
  pub password_hash : Text
  pub totp_secret_enc : Text
  pub credentials : Text
  pub scope : Text
  pub disabled : Bool
  pub created_at : ℕ
  pub updated_at : ℕ

pub record SessionRecord : Type 0 where
  pub id : Text
  pub email : Text
  pub issued_at : ℕ
  pub expiry : ℕ

pub record InviteRecord : Type 0 where
  pub code_hash : Text
  pub email : Text
  pub scope : Text
  pub expiry : ℕ
  pub used : Bool
  pub created_by : Text
  pub created_at : ℕ

pub record Store : Type 0 where
  pub users : Bucket UserRecord
  pub sessions : Bucket SessionRecord
  pub invites : Bucket InviteRecord

pub data UserError : Type 0 where
  not_found exists users_exist expired invalid_invite : UserError
  email_required undecodable key_required no_entropy : UserError

-- What the store calls: strings.ToLower, SHA-256 in hexadecimal.
pub record Calls : Type 0 where
  pub to_lower : Text → Text
  pub digest : Text → Text

-- The outcome of an update transaction, with the store after it.
abbrev pub Done : Type 0 → Type 0
Done A = Result UserError A × Store

-- IsAdmin
abbrev pub has_admin_grant : List Text → Bool
has_admin_grant [] = false
has_admin_grant (raw ∷ raws) =
    let rest = has_admin_grant raws in if text_eq (trim_space raw) admin_scope then true else rest

unfoldable pub is_admin : UserRecord → Bool
is_admin u = has_admin_grant (split b',' u.scope)

-- Whether a cursor finds no first key.
abbrev pub no_rows : {A : Type 0} → Bucket A → Bool
no_rows [] = true
no_rows (row ∷ rows) = false

unfoldable pub is_empty : Store → Bool
is_empty s = no_rows s.users

abbrev pub found_row : {A : Type 0} → Option (Option A) → Result UserError A
found_row none = err not_found
found_row (some none) = err undecodable
found_row (some (some rec)) = ok rec

-- The handle the record has, or a new one of 32 random bytes; `none` is an error of the random source.
abbrev pub with_handle : Option Text → UserRecord → Option UserRecord
with_handle none rec = if text_eq rec.handle [] then none else some rec
with_handle (some h) rec = some (if text_eq rec.handle [] then record rec { handle = h } else rec)

unfoldable pub stamped : ℕ → UserRecord → UserRecord
stamped now rec = record rec {
  created_at = if rec.created_at == 0 then now else rec.created_at;
  updated_at = now;
}

abbrev pub put_user_in : UserRecord → Store → Option (Bucket UserRecord) → Done UserRecord
put_user_in rec s none = (err key_required, s)
put_user_in rec s (some b) = (ok rec, record s { users = b })

abbrev pub guarded_put : UserRecord → Store → Option UserError → Done UserRecord
guarded_put rec s (some e) = (err e, s)
guarded_put rec s none = put_user_in rec s (bucket_put rec.email (some rec) s.users)

abbrev pub create_stamped :
    (UserRecord → Option UserError) → ℕ → Store → Option UserRecord → Done UserRecord
create_stamped guard now s none = (err no_entropy, s)
create_stamped guard now s (some rec) = guarded_put (stamped now rec) s (guard rec)

-- createWithGuard; the value is the record as it fills it.
unfoldable pub create_with_guard :
    (UserRecord → Option UserError) → Option Text → ℕ → UserRecord → Store → Done UserRecord
unfolding stamped bucket_put
create_with_guard guard handle now rec s = create_stamped guard now s (with_handle handle rec)

module _ (c : Calls) where
  unfoldable pub normalize_email : Text → Text
  normalize_email email = c.to_lower (trim_space email)

  unfoldable pub get_user : Text → Store → Result UserError UserRecord
  unfolding normalize_email
  get_user email s = found_row (lookup (normalize_email email) s.users)

  unfoldable pub create_first_admin : Option Text → ℕ → UserRecord → Store → Done UserRecord
  unfolding normalize_email create_with_guard is_empty
  create_first_admin handle now rec s =
      if text_eq rec.email []
      then (err email_required, s)
      else create_with_guard (λ r. if is_empty s then none else some users_exist) handle now
          (record rec { email = normalize_email rec.email; scope = admin_scope }) s

  abbrev pub absent_or : {A : Type 0} → UserError → Option A → Option UserError
  absent_or e none = none
  absent_or e (some row) = some e

  unfoldable pub create_user : Option Text → ℕ → UserRecord → Store → Done UserRecord
  unfolding normalize_email create_with_guard
  create_user handle now rec s =
      if text_eq rec.email []
      then (err email_required, s)
      else create_with_guard (λ r. absent_or exists (lookup r.email s.users)) handle now
          (record rec { email = normalize_email rec.email }) s

  unfoldable pub put_user : ℕ → UserRecord → Store → Done UserRecord
  unfolding normalize_email bucket_put
  put_user now rec s =
      let new = record rec { email = normalize_email rec.email; updated_at = now } in
      put_user_in new s (bucket_put new.email (some new) s.users)
