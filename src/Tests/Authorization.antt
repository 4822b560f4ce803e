-- ===== src/Tests/Authorization.antt =====
-- pkg/authz at concrete scopes.
use shoka.Prelude.{◌≡◌, refl, true, false, none, List, [], ◌∷◌, All, ◌↔◌, ◌⊎◌, ◌≤◌, map, ◌&&◌}
use mathlib.Core.List.{Memᴰ}
use shoka.Text.{
  Text, codes, split, text_eq, trim_space, trim_right, trim_left, is_space, index, has_suffix,
  strip_suffix, has_prefix, strip_prefix, cut, trim_prefix, trim_suffix,
}
use shoka.Names.{is_valid_name}
use shoka.Authz.{
  level_none, level_read, level_write, level_admin, Grant, rank, parse_scope, effective_level,
  authorize, matches, with_level, parse_grant,
}
use shoka.Authz.Effective.{authorize_iff}
use shoka.ScopeOps.{
  prune_namespace_grants, of_namespace, rewrite_project_grants, rewrite_namespace_grants,
  is_super_user, admin_namespaces, contains, any_grant, is_admin_grant,
}
use shoka.ScopeOps.Prune.{
  kept, prune_namespace_grants-kept, prune_namespace_grants-le, prune_namespace_grants-elsewhere,
  prune_namespace_grants-revokes,
}
use shoka.ScopeOps.Rewrite.{rehome, rewrite_project_grants-rehome}
use shoka.ScopeOps.Rename.{perm_word, legacy_scope, rewrite_namespace_grants-legacy}
use shoka.ScopeOps.Admin.{admin_namespaces-admin}

abbrev docs : Text
docs = codes "docs"

abbrev ops : Text
ops = codes "ops"

abbrev guide : Text
guide = codes "guide"

-- Write on a namespace, read on a project of it, admin on another namespace.
abbrev scope : Text
scope = codes "namespace:docs:rw, namespace:docs/guide:r,namespace:ops:admin"

abbrev admin_scope : Text
admin_scope = codes "namespace:docs,*:admin"

parse_scope_test :
    parse_scope scope
    ≡ with_level false docs [] level_write
      ∷ with_level false docs guide level_read
      ∷ with_level false ops [] level_admin
      ∷ []
unfolding parse_scope split text_eq trim_space trim_right trim_left is_space index has_suffix
    strip_suffix has_prefix strip_prefix cut trim_prefix trim_suffix
parse_scope_test = refl

prune_test : prune_namespace_grants (codes "namespace:docs") docs ≡ (codes "none", 1)
unfolding prune_namespace_grants parse_grant split text_eq trim_space trim_right trim_left is_space
    index has_suffix strip_suffix has_prefix strip_prefix cut trim_prefix trim_suffix
prune_test = refl

authorize_iff_example : (authorize scope docs guide level_write ≡ none) ↔ (
    (level_write ≡ level_none)
    ⊎ ((g : Grant) × Memᴰ g (parse_scope scope)
        × (matches g docs guide ≡ true)
        × (rank level_write ≤ rank g.level)))
authorize_iff_example = authorize_iff scope docs guide level_write

prune_namespace_grants-kept_example :
    effective_level (parse_scope (prune_namespace_grants scope docs).0) docs guide
    ≡ effective_level (kept (of_namespace docs) (parse_scope scope)) docs guide
prune_namespace_grants-kept_example = prune_namespace_grants-kept scope docs docs guide

prune_namespace_grants-le_example :
    rank (effective_level (parse_scope (prune_namespace_grants scope docs).0) docs guide)
    ≤ rank (effective_level (parse_scope scope) docs guide)
prune_namespace_grants-le_example = prune_namespace_grants-le scope docs docs guide

prune_namespace_grants-elsewhere_example :
    effective_level (parse_scope (prune_namespace_grants scope docs).0) ops guide
    ≡ effective_level (parse_scope scope) ops guide
prune_namespace_grants-elsewhere_example =
    prune_namespace_grants-elsewhere scope docs ops guide (λ e. cc) (λ e. cc)

each_scoped :
    (gs : List Grant)
    → All (λ g. g.wildcard ≡ false) gs
    → (g : Grant) → Memᴰ g gs
    → g.wildcard ≡ false
each_scoped [] a g m = elim m [ ]
each_scoped (h ∷ gs) a g (Memᴰ.head e) = cc (a.0, e)
each_scoped (h ∷ gs) a g (Memᴰ.tail m) = each_scoped gs a.1 g m

no_wildcards : All (λ g. g.wildcard ≡ false) (parse_scope scope)
unfolding parse_scope split text_eq trim_space trim_right trim_left is_space index has_suffix
    strip_suffix has_prefix strip_prefix cut trim_prefix trim_suffix
no_wildcards = (refl, (refl, (refl, tt)))

prune_namespace_grants-revokes_example :
    effective_level (parse_scope (prune_namespace_grants scope docs).0) docs guide ≡ level_none
prune_namespace_grants-revokes_example =
    prune_namespace_grants-revokes scope docs guide (λ e. cc)
      (each_scoped (parse_scope scope) no_wildcards)

ops_valid : is_valid_name ops ≡ true
unfolding is_valid_name text_eq has_suffix strip_suffix
ops_valid = refl

rewrite_project_grants-rehome_example :
    parse_scope (rewrite_project_grants scope docs guide ops ops).0
    ≡ map (rehome docs guide ops ops) (parse_scope scope)
rewrite_project_grants-rehome_example =
    rewrite_project_grants-rehome docs guide ops ops (λ e. cc) (λ e. cc) ops_valid ops_valid scope

rewrite_namespace_grants-legacy_example :
    (parse_scope (legacy_scope level_admin)
      ≡ with_level false (perm_word level_admin) [] level_write ∷ [])
    × (parse_scope
          (rewrite_namespace_grants (legacy_scope level_admin) (perm_word level_admin) ops).0
        ≡ with_level false ops [] level_admin ∷ [])
rewrite_namespace_grants-legacy_example =
    rewrite_namespace_grants-legacy level_admin ops (λ e. cc) ops_valid

admin_super : is_super_user admin_scope ≡ true
unfolding is_super_user parse_scope split text_eq trim_space trim_right trim_left is_space index
    has_suffix strip_suffix has_prefix strip_prefix cut trim_prefix trim_suffix
admin_super = refl

scope_scoped : is_super_user scope ≡ false
unfolding is_super_user parse_scope split text_eq trim_space trim_right trim_left is_space index
    has_suffix strip_suffix has_prefix strip_prefix cut trim_prefix trim_suffix
scope_scoped = refl

admin_namespaces-admin_example :
    (contains ops (admin_namespaces scope).0
      ≡ any_grant (λ g. is_admin_grant g && text_eq ops g.namespace) (parse_scope scope))
    × (contains ops (admin_namespaces scope).0 ≡ true
        → (proj : Text) → effective_level (parse_scope scope) ops proj ≡ level_admin)
admin_namespaces-admin_example = admin_namespaces-admin scope ops scope_scoped
