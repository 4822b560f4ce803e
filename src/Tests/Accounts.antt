-- ===== src/Tests/Accounts.antt =====
-- pkg/userstore and internal/scopeclean on concrete stores.
use shoka.Prelude.{◌≡◌, ◌↔◌, refl, true, false, none, some, [], ◌∷◌, ok, err}
use shoka.Prelude.Assoc.{lookup, put, Distinct}
use shoka.Text.{
  codes, text_eq, trim_space, trim_right, trim_left, is_space, split, index, has_suffix,
  strip_suffix, has_prefix, strip_prefix, cut, trim_prefix, trim_suffix,
}
use shoka.Text.Keys.{text_key}
use shoka.Authz.{parse_grant}
use shoka.ScopeOps.{is_super_user, of_namespace, prune_namespace_grants}
use shoka.Users.{
  admin_scope, UserRecord, SessionRecord, InviteRecord, Store, users_exist, invalid_invite, Calls,
  normalize_email, stamped, is_admin, is_empty, create_with_guard, create_first_admin, drop_rows,
  bucket_put,
}
use shoka.Users.Sessions.{lookup_session}
use shoka.Users.Admin.{
  drop_sessions, edit_user, set_user_disabled, rewrite_bucket, rewrite_user_scopes,
}
use shoka.Users.Invites.{is_spent, redeem_invite}
use shoka.Users.Lockout.{by_disabling, LogsOut-lookup_session}
use shoka.Users.Accounts.{create_first_admin-create_first_admin}
use shoka.Users.Redemption.{redeem_invite-redeem_invite}
use shoka.ScopeClean.{Cleaner, rewrite_stores, purge_namespace}
use shoka.ScopeClean.Places.{account}
use shoka.ScopeClean.Cascade.{IsPruned, purge_namespace-effective_level}

abbrev calls : Calls
calls = record { to_lower = λ t. t; digest = λ t. b'#' ∷ t }

abbrev ann : UserRecord
ann = record {
  email = codes "ann";
  display_name = codes "Ann";
  handle = codes "h";
  password_hash = codes "p";
  totp_secret_enc = [];
  credentials = [];
  scope = codes "namespace:x";
  disabled = false;
  created_at = 1;
  updated_at = 1;
}

abbrev session : SessionRecord
session = record { id = codes "s"; email = codes "ann"; issued_at = 1; expiry = 9 }

abbrev invite : InviteRecord
invite = record {
  code_hash = codes "#c";
  email = codes "bob";
  scope = codes "namespace:y:r";
  expiry = 9;
  used = false;
  created_by = codes "ann";
  created_at = 1;
}

abbrev empty_store : Store
empty_store = record { users = []; sessions = []; invites = [] }

abbrev filled_store : Store
filled_store = record {
  users = (codes "ann", some ann) ∷ [];
  sessions = (codes "s", some session) ∷ [];
  invites = (codes "#c", some invite) ∷ [];
}

disabled_ok : (set_user_disabled calls (codes "ann") true 5 filled_store).0 ≡ ok tt
unfolding set_user_disabled edit_user drop_sessions drop_rows bucket_put lookup put normalize_email
    text_eq trim_space trim_right trim_left is_space
disabled_ok = refl

sessions_Distinct : Distinct filled_store.sessions
unfolding lookup
sessions_Distinct = (refl, tt)

LogsOut-lookup_session_example :
    ((lookup_session (codes "s") 5 (set_user_disabled calls (codes "ann") true 5 filled_store).1).0
      ≡ ok session)
    ↔ (((lookup_session (codes "s") 5 filled_store).0 ≡ ok session)
        × (text_eq session.email (normalize_email calls (codes "ann")) ≡ false))
LogsOut-lookup_session_example =
    LogsOut-lookup_session {c = calls} {email = codes "ann"} {s = filled_store} (by_disabling 5)
      disabled_ok sessions_Distinct (codes "s") 5 session

abbrev first : UserRecord
first = stamped 5 (record ann { scope = admin_scope })

first_ok : (create_first_admin calls none 5 ann empty_store).0 ≡ ok first
unfolding create_first_admin create_with_guard is_empty stamped bucket_put put normalize_email
    text_eq trim_space trim_right trim_left is_space
first_ok = refl

ann_named : text_eq ann.email [] ≡ false
unfolding text_eq
ann_named = refl

create_first_admin-create_first_admin_example :
    (is_empty empty_store ≡ true)
    × (is_admin first ≡ true)
    × (is_super_user first.scope ≡ true)
    × (lookup first.email (create_first_admin calls none 5 ann empty_store).1.users
        ≡ some (some first))
    × (create_first_admin calls
          (some (codes "g"))
          6
          ann
          (create_first_admin calls none 5 ann empty_store).1
        ≡ (err users_exist, (create_first_admin calls none 5 ann empty_store).1))
create_first_admin-create_first_admin_example =
    create_first_admin-create_first_admin calls none 5 ann first empty_store (codes "g") 6 ann
      first_ok ann_named

abbrev bob : UserRecord
bob = stamped 5 (record ann { email = codes "bob"; scope = codes "namespace:y:r" })

redeem_ok : (redeem_invite calls (codes "c") 5 none ann filled_store).0 ≡ ok bob
unfolding redeem_invite is_spent stamped bucket_put lookup put text_eq
redeem_ok = refl

redeem_invite-redeem_invite_example :
    ((inv : InviteRecord) × (lookup (codes "#c") filled_store.invites ≡ some (some inv))
      × (is_spent 5 inv ≡ false)
      × (lookup inv.email filled_store.users ≡ none)
      × (bob.email ≡ inv.email)
      × (bob.scope ≡ inv.scope))
    × (lookup bob.email (redeem_invite calls (codes "c") 5 none ann filled_store).1.users
        ≡ some (some bob))
    × (redeem_invite calls
          (codes "c")
          6
          (some (codes "g"))
          ann
          (redeem_invite calls (codes "c") 5 none ann filled_store).1
        ≡ (err invalid_invite, (redeem_invite calls (codes "c") 5 none ann filled_store).1))
redeem_invite-redeem_invite_example =
    redeem_invite-redeem_invite calls (codes "c") 5 none ann bob filled_store 6 (codes "g") ann
      redeem_ok

abbrev cleaner : Cleaner
cleaner = record { users = some filled_store; tokens = none }

abbrev purged : Cleaner
purged = (purge_namespace (codes "x") 5 cleaner).1

purge_ok : (purge_namespace (codes "x") 5 cleaner).0 ≡ ok tt
unfolding purge_namespace rewrite_stores rewrite_user_scopes rewrite_bucket text_eq
    prune_namespace_grants split trim_space trim_right trim_left is_space parse_grant index
    has_suffix strip_suffix has_prefix strip_prefix cut trim_prefix trim_suffix
purge_ok = refl

purge_namespace-effective_level_example :
    IsPruned (of_namespace (codes "x")) cleaner purged (account (codes "ann"))
purge_namespace-effective_level_example =
    purge_namespace-effective_level (codes "x") 5 cleaner (account (codes "ann")) purge_ok
