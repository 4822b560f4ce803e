-- ===== src/ScopeClean.antt =====
-- internal/scopeclean/scopeclean.go: the cascade over the scopes of the user store and of the OAuth
-- store. Each of them may be absent.
pub mod Places
pub mod Cascade
use shoka.Prelude.{ℕ, Option, none, some}
use shoka.Text.{Text}
use shoka.ScopeOps.{
  prune_namespace_grants, prune_project_grants, rewrite_project_grants, rewrite_namespace_grants,
}
use shoka.Users
use shoka.Users.Admin.{rewrite_user_scopes}
use shoka.Oauth
use shoka.Oauth.Sweeps.{rewrite_scopes}
use shoka.Prelude.{Result, err, ok}

pub record Cleaner : Type 0 where
  pub users : Option Users.Store
  pub tokens : Option Oauth.Store

pub data CleanError : Type 0 where
  of_users : Users.UserError → CleanError
  of_tokens : Oauth.StoreError → CleanError

abbrev pub tokens_rewritten :
    Cleaner → Oauth.Outcome ℕ × Oauth.Store → Result CleanError (Unit {0}) × Cleaner
tokens_rewritten c (err e, s) = (err (of_tokens e), record c { tokens = some s })
tokens_rewritten c (ok n, s) = (ok tt, record c { tokens = some s })

abbrev pub rewrite_tokens_of :
    (Text → Text) → Cleaner → Option Oauth.Store → Result CleanError (Unit {0}) × Cleaner
rewrite_tokens_of fn c none = (ok tt, c)
rewrite_tokens_of fn c (some s) = tokens_rewritten c (rewrite_scopes fn s)

-- The users' store comes first; where it fails, the tokens are left.
abbrev pub users_rewritten :
    (Text → Text) → Cleaner → Users.Done ℕ → Result CleanError (Unit {0}) × Cleaner
users_rewritten fn c (err e, s) = (err (of_users e), record c { users = some s })
users_rewritten fn c (ok n, s) = rewrite_tokens_of fn (record c { users = some s }) c.tokens

abbrev pub rewrite_users_of :
    (Text → Text) → ℕ → Cleaner → Option Users.Store → Result CleanError (Unit {0}) × Cleaner
rewrite_users_of fn now c none = rewrite_tokens_of fn c c.tokens
rewrite_users_of fn now c (some s) = users_rewritten fn c (rewrite_user_scopes fn now s)

unfoldable pub rewrite_stores : (Text → Text) → ℕ → Cleaner → Result CleanError (Unit {0}) × Cleaner
rewrite_stores fn now c = rewrite_users_of fn now c c.users

unfoldable pub purge_namespace : Text → ℕ → Cleaner → Result CleanError (Unit {0}) × Cleaner
unfolding rewrite_stores
purge_namespace ns now c = rewrite_stores (λ scope. (prune_namespace_grants scope ns).0) now c

unfoldable pub purge_project : Text → Text → ℕ → Cleaner → Result CleanError (Unit {0}) × Cleaner
unfolding rewrite_stores
purge_project ns proj now c = rewrite_stores (λ scope. (prune_project_grants scope ns proj).0) now c

unfoldable pub rewrite_project :
    Text → Text → Text → Text → ℕ → Cleaner → Result CleanError (Unit {0}) × Cleaner
unfolding rewrite_stores
rewrite_project old_ns old_proj new_ns new_proj now c =
    rewrite_stores (λ scope. (rewrite_project_grants scope old_ns old_proj new_ns new_proj).0) now c

unfoldable pub rewrite_namespace :
    Text → Text → ℕ → Cleaner → Result CleanError (Unit {0}) × Cleaner
unfolding rewrite_stores
rewrite_namespace old new now c =
    rewrite_stores (λ scope. (rewrite_namespace_grants scope old new).0) now c
