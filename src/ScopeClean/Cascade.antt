-- ===== src/ScopeClean/Cascade.antt =====
-- What the cascade leaves: of every scope that is stored afterwards, where it comes from.
use shoka.Prelude.{ℕ, ◌≡◌, ◌∙◌, ◌⊎◌, inl, inr, Bool, refl, sym, ap, Option, none, some, err, ok}
use shoka.Prelude.Assoc.{lookup}
use shoka.Text.{Text}
use shoka.Text.Keys.{text_key}
use shoka.Authz.{Grant, parse_scope, effective_level}
use shoka.ScopeOps.{of_namespace, of_project, prune_namespace_grants, prune_project_grants}
use shoka.ScopeOps.Prune.{kept, prune_namespace_grants-kept, prune_project_grants-kept}
use shoka.Users
use shoka.Users.Admin.{rewrite_user_scopes}
use shoka.Users.Scopes.{rewrite_user_scopes_lem, rewrite_user_scopes_kept}
use shoka.Oauth
use shoka.Oauth.Sweeps.{rewrite_scopes}
use shoka.Oauth.Rescope.{rewrite_scopes_found, rewrite_scopes_kept}
use shoka.ScopeClean.Places.{Place, account, invitation, token, Stores, IsUsed, IsUsed-or_not}
use shoka.ScopeClean.{
  Cleaner, tokens_rewritten, rewrite_tokens_of, users_rewritten, rewrite_users_of, rewrite_stores,
  purge_namespace, purge_project,
}

module _ (fn : Text → Text) (now : ℕ) where
  -- A store of tokens after the cascade is a rewritten one.
  abbrev TokensRewritten : Option Oauth.Store → Option Oauth.Store → Type 0
  TokensRewritten before after =
      (t : Oauth.Store)
      → after ≡ some t
      → (s : Oauth.Store) × (n : ℕ) × (before ≡ some s)
        × ((rewrite_scopes fn s).0 ≡ ok n)
        × ((rewrite_scopes fn s).1 ≡ t)

  abbrev UsersRewritten : Option Users.Store → Option Users.Store → Type 0
  UsersRewritten before after =
      (t : Users.Store)
      → after ≡ some t
      → (s : Users.Store) × (n : ℕ) × (before ≡ some s)
        × ((rewrite_user_scopes fn now s).0 ≡ ok n)
        × ((rewrite_user_scopes fn now s).1 ≡ t)

  tokens_shape :
      (c : Cleaner) (o : Option Oauth.Store)
      → c.tokens ≡ o
      → (rewrite_tokens_of fn c o).0 ≡ ok tt
      → ((rewrite_tokens_of fn c o).1.users ≡ c.users)
        × TokensRewritten o (rewrite_tokens_of fn c o).1.tokens
  tokens_shape c none e f = (refl, λ t g. let bad : none ≡ some t = sym e ∙ g in cc bad)
  tokens_shape c (some s) e f = go (rewrite_scopes fn s) refl f
    where
      go :
          (r : Oauth.Outcome ℕ × Oauth.Store)
          → rewrite_scopes fn s ≡ r
          → (tokens_rewritten c r).0 ≡ ok tt
          → ((tokens_rewritten c r).1.users ≡ c.users)
            × TokensRewritten (some s) (tokens_rewritten c r).1.tokens
      go (err x, u) g k = cc
      go (ok n, u) g k = (refl, λ t h. (s, n, refl, ap (λ x. x.0) g, ap (λ x. x.1) g ∙ cc h))

  shape :
      (c : Cleaner)
      → (rewrite_stores fn now c).0 ≡ ok tt
      → UsersRewritten c.users (rewrite_stores fn now c).1.users
        × TokensRewritten c.tokens (rewrite_stores fn now c).1.tokens
  unfolding rewrite_stores
  shape c = by_users c.users refl
    where
      by_users :
          (o : Option Users.Store)
          → c.users ≡ o
          → (rewrite_users_of fn now c o).0 ≡ ok tt
          → UsersRewritten o (rewrite_users_of fn now c o).1.users
            × TokensRewritten c.tokens (rewrite_users_of fn now c o).1.tokens
      by_users none e f =
          let (same, tokens) = tokens_shape c c.tokens refl f in
          (λ t g. (let bad : none ≡ some t = sym e ∙ sym same ∙ g in cc bad), tokens)
      by_users (some s) e f = go (rewrite_user_scopes fn now s) refl f
        where
          go :
              (r : Users.Done ℕ)
              → rewrite_user_scopes fn now s ≡ r
              → (users_rewritten fn c r).0 ≡ ok tt
              → UsersRewritten (some s) (users_rewritten fn c r).1.users
                × TokensRewritten c.tokens (users_rewritten fn c r).1.tokens
          go (err x, u) g k = cc
          go (ok n, u) g k =
              let (same, tokens) = tokens_shape (record c { users = some u }) c.tokens refl k in
              (
                λ t h.
                    let is : some u ≡ some t = sym same ∙ h in
                    (s, n, refl, ap (λ x. x.0) g, ap (λ x. x.1) g ∙ cc is),
                tokens,
              )

  -- A scope that is stored after a cascade that succeeds is the rewritten one of the same place.
  rewrite_stores-Stores :
      (c : Cleaner) (place : Place) (scope : Text)
      → (rewrite_stores fn now c).0 ≡ ok tt
      → Stores (rewrite_stores fn now c).1 place scope
      → (before : Text) × Stores c place before × (scope ≡ fn before)
  rewrite_stores-Stores c (account k) scope e (t, rec, here, row, of) =
      let (s, n, there, done, is) = (shape c e).0 t here in
      let (was, found, same) =
        (rewrite_user_scopes_lem fn now s n done).0 k rec
          (ap (λ (x : Users.Store). lookup k x.users) is ∙ row) in
      (was.scope, (s, was, there, found, refl), sym of ∙ same)
  rewrite_stores-Stores c (invitation k) scope e (t, rec, here, row, of) =
      let (s, n, there, done, is) = (shape c e).0 t here in
      let (was, found, same) =
        (rewrite_user_scopes_lem fn now s n done).1 k rec
          (ap (λ (x : Users.Store). lookup k x.invites) is ∙ row) in
      (was.scope, (s, was, there, found, refl), sym of ∙ same)
  rewrite_stores-Stores c (token sid) scope e (t, rec, here, row, of) =
      let (s, n, there, done, is) = (shape c e).1 t here in
      let (was, found, same) =
        rewrite_scopes_found fn s n done sid rec
          (ap (λ (x : Oauth.Store). lookup sid x.series) is ∙ row) in
      (was.scope, (s, was, there, found, refl), sym of ∙ same)

  abbrev TokensKept : Option Oauth.Store → Option Oauth.Store → Type 0
  TokensKept before after =
      (s : Oauth.Store)
      → before ≡ some s
      → (n : ℕ) × ((rewrite_scopes fn s).0 ≡ ok n) × (after ≡ some (rewrite_scopes fn s).1)

  abbrev UsersKept : Option Users.Store → Option Users.Store → Type 0
  UsersKept before after =
      (s : Users.Store)
      → before ≡ some s
      → (n : ℕ) × ((rewrite_user_scopes fn now s).0 ≡ ok n)
        × (after ≡ some (rewrite_user_scopes fn now s).1)

  tokens_kept :
      (c : Cleaner) (o : Option Oauth.Store)
      → (rewrite_tokens_of fn c o).0 ≡ ok tt
      → ((rewrite_tokens_of fn c o).1.users ≡ c.users)
        × TokensKept o (rewrite_tokens_of fn c o).1.tokens
  tokens_kept c none f = (refl, λ t g. cc g)
  tokens_kept c (some s) f = go (rewrite_scopes fn s) refl f
    where
      go :
          (r : Oauth.Outcome ℕ × Oauth.Store)
          → rewrite_scopes fn s ≡ r
          → (tokens_rewritten c r).0 ≡ ok tt
          → ((tokens_rewritten c r).1.users ≡ c.users)
            × TokensKept (some s) (tokens_rewritten c r).1.tokens
      go (err x, u) g k = cc
      go (ok n, u) g k = (
        refl,
        λ t h.
            let same : s ≡ t = cc h in rw (← same) (n, ap (λ x. x.0) g, ap (λ x. some x.1) (sym g)),
      )

  kept_shape :
      (c : Cleaner)
      → (rewrite_stores fn now c).0 ≡ ok tt
      → UsersKept c.users (rewrite_stores fn now c).1.users
        × TokensKept c.tokens (rewrite_stores fn now c).1.tokens
  unfolding rewrite_stores
  kept_shape c = by_users c.users
    where
      by_users :
          (o : Option Users.Store)
          → (rewrite_users_of fn now c o).0 ≡ ok tt
          → UsersKept o (rewrite_users_of fn now c o).1.users
            × TokensKept c.tokens (rewrite_users_of fn now c o).1.tokens
      by_users none f = (λ s g. cc g, (tokens_kept c c.tokens f).1)
      by_users (some s) f = go (rewrite_user_scopes fn now s) refl f
        where
          go :
              (r : Users.Done ℕ)
              → rewrite_user_scopes fn now s ≡ r
              → (users_rewritten fn c r).0 ≡ ok tt
              → UsersKept (some s) (users_rewritten fn c r).1.users
                × TokensKept c.tokens (users_rewritten fn c r).1.tokens
          go (err x, u) g k = cc
          go (ok n, u) g k =
              let (same, tokens) = tokens_kept (record c { users = some u }) c.tokens k in
              (
                λ t h.
                    let is : s ≡ t = cc h in
                    rw (← is) (n, ap (λ x. x.0) g, same ∙ ap (λ x. some x.1) (sym g)),
                tokens,
              )

  -- A scope that is stored before a cascade that succeeds is rewritten in its place.
  Stores-rewrite_stores :
      (c : Cleaner) (place : Place) (before : Text)
      → (rewrite_stores fn now c).0 ≡ ok tt
      → Stores c place before
      → Stores (rewrite_stores fn now c).1 place (fn before)
  Stores-rewrite_stores c (account k) before e (s, was, here, row, of) =
      let (n, done, is) = (kept_shape c e).0 s here in
      let (rec, there, scope) = (rewrite_user_scopes_kept fn now s n done).0 k was row in
      ((rewrite_user_scopes fn now s).1, rec, is, there, scope ∙ ap fn of)
  Stores-rewrite_stores c (invitation k) before e (s, was, here, row, of) =
      let (n, done, is) = (kept_shape c e).0 s here in
      let (rec, there, scope) = (rewrite_user_scopes_kept fn now s n done).1 k was row in
      ((rewrite_user_scopes fn now s).1, rec, is, there, scope ∙ ap fn of)
  Stores-rewrite_stores c (token sid) before e (s, was, here, row, of) =
      let (n, done, is) = (kept_shape c e).1 s here in
      let (rec, there, scope) = rewrite_scopes_kept fn s n done sid was row in
      ((rewrite_scopes fn s).1, rec, is, there, scope ∙ ap fn of)

  -- A place has its scope rewritten, or has none before and after.
  abbrev IsRewritten : Cleaner → Cleaner → Place → Type 0
  IsRewritten c c' place =
      ((before : Text) × Stores c place before × Stores c' place (fn before))
      ⊎ ((¬ IsUsed c place) × (¬ IsUsed c' place))

  rewrite_stores-IsRewritten :
      (c : Cleaner) (place : Place)
      → (rewrite_stores fn now c).0 ≡ ok tt
      → IsRewritten c (rewrite_stores fn now c).1 place
  rewrite_stores-IsRewritten c place e = elim (IsUsed-or_not c place) [
    | inl (before, at) ↦ inl (before, at, Stores-rewrite_stores c place before e at)
    | inr free ↦ inr (
      free,
      λ (scope, at).
          let (before, was, is) = rewrite_stores-Stores c place scope e at in free (before, was),
    )
  ]

-- The scope at a place gives at every target the level that the grants which do not pass the test gave
-- in the scope at the same place before; or no scope stands at the place before and after.
abbrev pub IsPruned : (Grant → Bool) → Cleaner → Cleaner → Place → Type 0
IsPruned discard c c' place =
    ((before : Text) × (after : Text) × Stores c place before
      × Stores c' place after
      × ((ns proj : Text)
          → effective_level (parse_scope after) ns proj
            ≡ effective_level (kept discard (parse_scope before)) ns proj))
    ⊎ ((¬ IsUsed c place) × (¬ IsUsed c' place))

-- After a purge of a namespace that succeeds, the same accounts, invitations and token series have a
-- scope as before, and the scope of each gives at every target the level that the grants of other
-- namespaces gave in the scope that the same record had before.
pub purge_namespace-effective_level :
    (pruned_ns : Text) (now : ℕ) (c : Cleaner) (place : Place)
    → (purge_namespace pruned_ns now c).0 ≡ ok tt
    → IsPruned (of_namespace pruned_ns) c (purge_namespace pruned_ns now c).1 place
unfolding purge_namespace
purge_namespace-effective_level pruned_ns now c place e =
    let fn : Text → Text = λ x. (prune_namespace_grants x pruned_ns).0 in
    elim (rewrite_stores-IsRewritten fn now c place e) [
      | inl (before, was, is) ↦
          inl (before, fn before, was, is, prune_namespace_grants-kept before pruned_ns)
      | inr free ↦ inr free
    ]

-- The same for one project of a namespace.
pub purge_project-effective_level :
    (pruned_ns pruned_proj : Text) (now : ℕ) (c : Cleaner) (place : Place)
    → (purge_project pruned_ns pruned_proj now c).0 ≡ ok tt
    → IsPruned
        (of_project pruned_ns pruned_proj)
        c
        (purge_project pruned_ns pruned_proj now c).1
        place
unfolding purge_project
purge_project-effective_level pruned_ns pruned_proj now c place e =
    let fn : Text → Text = λ x. (prune_project_grants x pruned_ns pruned_proj).0 in
    elim (rewrite_stores-IsRewritten fn now c place e) [
      | inl (before, was, is) ↦
          inl (before, fn before, was, is, prune_project_grants-kept before pruned_ns pruned_proj)
      | inr free ↦ inr free
    ]
