-- ===== src/Users/Admin.antt =====
-- pkg/userstore/admin.go: the management of accounts, and the rewriting of all scopes.
use shoka.Prelude.{ℕ, ◌+◌, Bool, true, false, Option, none, some, List, [], ◌∷◌, if◌then◌else◌}
use shoka.Prelude.Assoc.{lookup, remove}
use shoka.Text.{Text, text_eq}
use shoka.Text.Keys.{text_key}
use shoka.Users.{
  UserRecord, SessionRecord, InviteRecord, Bucket, Store, UserError, not_found, undecodable,
  key_required, Result, err, ok, Done, Calls, normalize_email, drop_rows, bucket_put,
}
use shoka.ScopeOps.{text_le}

pub record UserInfo : Type 0 where
  pub email : Text
  pub display_name : Text
  pub scope : Text
  pub disabled : Bool

abbrev pub info_of : UserRecord → UserInfo
info_of rec = record {
  email = rec.email;
  display_name = rec.display_name;
  scope = rec.scope;
  disabled = rec.disabled;
}

-- sort.Slice by e-mail address, which no two users share.
abbrev pub insert_info : UserInfo → List UserInfo → List UserInfo
insert_info u [] = u ∷ []
insert_info u (v ∷ l) =
    let rest = insert_info u l in if text_le u.email v.email then u ∷ v ∷ l else v ∷ rest

abbrev pub insert_ok :
    UserInfo → Result UserError (List UserInfo) → Result UserError (List UserInfo)
insert_ok u (err e) = err e
insert_ok u (ok l) = ok (insert_info u l)

-- ListUsers, on the rows.
unfoldable pub list_users : Bucket UserRecord → Result UserError (List UserInfo)
unfolding text_le
list_users [] = ok []
list_users ((k, none) ∷ rows) = err undecodable
list_users ((k, some rec) ∷ rows) = insert_ok (info_of rec) (list_users rows)

-- dropSessionsTx
unfoldable pub drop_sessions : Text → Store → Store
unfolding drop_rows
drop_sessions key s = record s {
  sessions = drop_rows (λ (sess : SessionRecord). text_eq sess.email key) s.sessions;
}

abbrev pub dropped_if : Bool → Text → Store → Store
dropped_if drop key s = if drop then drop_sessions key s else s

abbrev pub edited_in : Bool → Text → Store → Option (Bucket UserRecord) → Done (Unit {0})
edited_in drop key s none = (err key_required, s)
edited_in drop key s (some b) = (ok tt, dropped_if drop key (record s { users = b }))

abbrev pub edited :
    (UserRecord → UserRecord) → Bool → Text → Store → Option (Option UserRecord) → Done (Unit {0})
edited f drop key s none = (err not_found, s)
edited f drop key s (some none) = (err undecodable, s)
edited f drop key s (some (some rec)) = edited_in drop key s (bucket_put key (some (f rec)) s.users)

-- The transaction that the edits of an account share: read, change, write, and drop the sessions.
unfoldable pub edit_user : (UserRecord → UserRecord) → Bool → Text → Store → Done (Unit {0})
unfolding drop_sessions bucket_put
edit_user f drop key s = edited f drop key s (lookup key s.users)

module _ (c : Calls) where
  unfoldable pub update_user_scope : Text → Text → ℕ → Store → Done (Unit {0})
  unfolding edit_user normalize_email
  update_user_scope email scope now s =
      edit_user (λ rec. record rec { scope = scope; updated_at = now }) false
        (normalize_email c email) s

  abbrev pub removed : Text → Store → Option (Option UserRecord) → Done (Unit {0})
  removed key s none = (err not_found, s)
  removed key s (some row) = (ok tt, drop_sessions key (record s { users = remove key s.users }))

  unfoldable pub remove_user : Text → Store → Done (Unit {0})
  unfolding drop_sessions normalize_email
  remove_user email s =
      removed (normalize_email c email) s (lookup (normalize_email c email) s.users)

  unfoldable pub set_user_disabled : Text → Bool → ℕ → Store → Done (Unit {0})
  unfolding edit_user normalize_email
  set_user_disabled email disabled now s =
      edit_user (λ rec. record rec { disabled = disabled; updated_at = now }) disabled
        (normalize_email c email) s

  unfoldable pub set_user_password : Text → Text → ℕ → Store → Done (Unit {0})
  unfolding edit_user normalize_email
  set_user_password email password_hash now s =
      edit_user (λ rec. record rec { password_hash = password_hash; updated_at = now }) true
        (normalize_email c email) s

  unfoldable pub clear_totp : Text → ℕ → Store → Done (Unit {0})
  unfolding edit_user normalize_email
  clear_totp email now s =
      edit_user (λ rec. record rec { totp_secret_enc = []; updated_at = now }) true
        (normalize_email c email) s

abbrev pub cons_rewritten :
    {A : Type 0}
    → Bool
    → Text
    → A
    → A
    → Result UserError (Bucket A × ℕ)
    → Result UserError (Bucket A × ℕ)
cons_rewritten same k old new (err e) = err e
cons_rewritten same k old new (ok (rows, n)) =
    if same then ok ((k, some old) ∷ rows, n) else ok ((k, some new) ∷ rows, n + 1)

-- The rows of a bucket with the new scopes, and how many changed.
unfoldable pub rewrite_bucket :
    {A : Type 0}
    → (A → Text)
    → (Text → A → A)
    → (Text → Text)
    → Bucket A
    → Result UserError (Bucket A × ℕ)
rewrite_bucket scope_of with_scope fn [] = ok ([], 0)
rewrite_bucket scope_of with_scope fn ((k, none) ∷ rows) = err undecodable
rewrite_bucket scope_of with_scope fn ((k, some rec) ∷ rows) =
    cons_rewritten (text_eq (fn (scope_of rec)) (scope_of rec)) k rec
      (with_scope (fn (scope_of rec)) rec) (rewrite_bucket scope_of with_scope fn rows)

abbrev pub user_with_scope : ℕ → Text → UserRecord → UserRecord
user_with_scope now scope rec = record rec { scope = scope; updated_at = now }

abbrev pub invite_with_scope : Text → InviteRecord → InviteRecord
invite_with_scope scope rec = record rec { scope = scope }

abbrev pub rewritten_both :
    Store
    → Result UserError (Bucket UserRecord × ℕ)
    → Result UserError (Bucket InviteRecord × ℕ)
    → Done ℕ
rewritten_both s (err e) invites = (err e, s)
rewritten_both s (ok users) (err e) = (err e, s)
rewritten_both s (ok (users, n)) (ok (invites, m)) =
    (ok (n + m), record s { users = users; invites = invites })

-- RewriteScopes: one transaction over the users and the pending invites.
unfoldable pub rewrite_user_scopes : (Text → Text) → ℕ → Store → Done ℕ
unfolding rewrite_bucket
rewrite_user_scopes fn now s =
    rewritten_both s
      (rewrite_bucket (λ (rec : UserRecord). rec.scope) (user_with_scope now) fn s.users)
      (rewrite_bucket (λ (rec : InviteRecord). rec.scope) invite_with_scope fn s.invites)
