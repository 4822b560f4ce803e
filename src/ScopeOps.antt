-- ===== src/ScopeOps.antt =====
-- pkg/authz/scope_ops.go: the super-user test and the rewrites of persisted scopes.
pub mod Prune
pub mod Perms
pub mod Reading
pub mod Chosen
pub mod Tokens
pub mod Rename
pub mod Rewrite
pub mod Admin
use shoka.Prelude.{
  ℕ, zero, suc, ◌+◌, Bool, true, false, not, ◌&&◌, Option, none, some, List, [], ◌∷◌, ◌++◌, leb,
  ◌==◌, if◌then◌else◌,
}
use shoka.Text.{Text, codes, text_eq, trim_space, split, join, has_suffix}
use shoka.Authz.{level_admin, rank, Grant, no_access_scope, parse_grant, parse_scope}

-- g.Zone == "" && g.Wildcard && g.Level >= LevelAdmin
abbrev pub is_super_grant : Grant → Bool
is_super_grant g = text_eq g.zone [] && g.wildcard && leb 3 (rank g.level)

abbrev pub any_grant : (Grant → Bool) → List Grant → Bool
any_grant p [] = false
any_grant p (g ∷ gs) = let rest = any_grant p gs in if p g then true else rest

unfoldable pub is_super_user : Text → Bool
is_super_user scope = any_grant is_super_grant (parse_scope scope)

-- The grant that AdminNamespaces collects.
abbrev pub is_admin_grant : Grant → Bool
is_admin_grant g =
    text_eq g.zone []
    && not g.wildcard
    && not (text_eq g.namespace [])
    && text_eq g.project []
    && leb 3 (rank g.level)

-- seen[ns]
unfoldable pub contains : Text → List Text → Bool
contains ns [] = false
contains ns (m ∷ ms) = let rest = contains ns ms in if text_eq ns m then true else rest

-- The loop of AdminNamespaces: `seen` is the set of the namespaces collected so far.
unfoldable pub collect_admin : List Text → List Grant → List Text
unfolding contains
collect_admin namespaces [] = namespaces
collect_admin namespaces (g ∷ gs) =
    collect_admin
      (if is_admin_grant g && not (contains g.namespace namespaces)
        then namespaces ++ g.namespace ∷ []
        else namespaces)
      gs

-- a <= b as Go orders strings: by code points, which is the order of their UTF-8 bytes
unfoldable pub text_le : Text → Text → Bool
text_le [] t = true
text_le (c ∷ s) [] = false
text_le (c ∷ s) (d ∷ t) = let rest = text_le s t in if c == d then rest else leb c d

-- sort.Strings: equal strings are indistinguishable, so any sorting algorithm gives this list.
unfoldable pub insert_text : Text → List Text → List Text
unfolding text_le
insert_text s [] = s ∷ []
insert_text s (t ∷ ts) = let rest = insert_text s ts in if text_le s t then s ∷ t ∷ ts else t ∷ rest

unfoldable pub sort_texts : List Text → List Text
unfolding insert_text
sort_texts [] = []
sort_texts (t ∷ ts) = insert_text t (sort_texts ts)

unfoldable pub admin_namespaces : Text → List Text × Bool
unfolding is_super_user collect_admin sort_texts
admin_namespaces scope =
    if is_super_user scope
    then ([], true)
    else (sort_texts (collect_admin [] (parse_scope scope)), false)

-- The loop of pruneScope: the tokens kept and the number removed.
unfoldable pub prune_tokens : (Grant → Bool) → List Text → List Text × ℕ
prune_tokens discard [] = ([], 0)
prune_tokens discard (raw ∷ rest) =
    let tok = trim_space raw in
    let others = prune_tokens discard rest in
    if text_eq tok []
    then others
    else if discard (parse_grant tok)
    then (others.0, others.1 + 1)
    else (tok ∷ others.0, others.1)

abbrev pub pruned : Text → List Text × ℕ → Text × ℕ
pruned scope (kept, zero) = (scope, 0)
pruned scope ([], suc n) = (no_access_scope, suc n)
pruned scope (t ∷ ts, suc n) = (join b',' (t ∷ ts), suc n)

unfoldable pub prune_scope : Text → (Grant → Bool) → Text × ℕ
unfolding prune_tokens
prune_scope scope discard = pruned scope (prune_tokens discard (split b',' scope))

-- !g.Wildcard && g.Namespace == ns
abbrev pub of_namespace : Text → Grant → Bool
of_namespace ns g = not g.wildcard && text_eq g.namespace ns

-- !g.Wildcard && g.Namespace == ns && g.Project == proj
abbrev pub of_project : Text → Text → Grant → Bool
of_project ns proj g = not g.wildcard && text_eq g.namespace ns && text_eq g.project proj

unfoldable pub prune_namespace_grants : Text → Text → Text × ℕ
unfolding prune_scope
prune_namespace_grants scope ns = prune_scope scope (of_namespace ns)

unfoldable pub prune_project_grants : Text → Text → Text → Text × ℕ
unfolding prune_scope
prune_project_grants scope ns proj = prune_scope scope (of_project ns proj)

unfoldable pub project_grant_suffix : Text → Text
project_grant_suffix tok =
    if has_suffix tok (codes ":admin")
    then codes ":admin"
    else if has_suffix tok (codes ":rw")
    then codes ":rw"
    else if has_suffix tok (codes ":r")
    then codes ":r"
    else []

-- The prefix of a rebuilt token: the zone and a slash, where there is a zone.
abbrev pub zone_prefix : Text → Text
zone_prefix [] = []
zone_prefix (c ∷ zone) = (c ∷ zone) ++ b'/' ∷ []

-- The token that RewriteProjectGrants writes for a token of the project.
unfoldable pub project_token : Text → Text → Text → Grant → Text
unfolding project_grant_suffix
project_token new_ns new_proj tok g =
    zone_prefix g.zone
    ++ (codes "namespace:" ++ (new_ns ++ b'/' ∷ (new_proj ++ project_grant_suffix tok)))

-- The project segment of a rebuilt namespace token.
abbrev pub project_segment : Text → Text
project_segment [] = []
project_segment (c ∷ proj) = b'/' ∷ c ∷ proj

-- The token that RewriteNamespaceGrants writes for a token of the namespace.
unfoldable pub namespace_token : Text → Text → Grant → Text
unfolding project_grant_suffix
namespace_token new tok g =
    zone_prefix g.zone
    ++ (codes "namespace:" ++ (new ++ (project_segment g.project ++ project_grant_suffix tok)))

-- The loop that both rewrites run: the tokens out and the number rewritten.
unfoldable pub rewrite_tokens : (Grant → Bool) → (Text → Grant → Text) → List Text → List Text × ℕ
rewrite_tokens chosen rebuild [] = ([], 0)
rewrite_tokens chosen rebuild (raw ∷ rest) =
    let tok = trim_space raw in
    let others = rewrite_tokens chosen rebuild rest in
    if text_eq tok []
    then others
    else if chosen (parse_grant tok)
    then (rebuild tok (parse_grant tok) ∷ others.0, others.1 + 1)
    else (tok ∷ others.0, others.1)

abbrev pub rewritten : Text → List Text × ℕ → Text × ℕ
rewritten scope (out, zero) = (scope, 0)
rewritten scope (out, suc n) = (join b',' out, suc n)

unfoldable pub rewrite_project_grants : Text → Text → Text → Text → Text → Text × ℕ
unfolding rewrite_tokens project_token
rewrite_project_grants scope old_ns old_proj new_ns new_proj =
    rewritten scope (
      rewrite_tokens (of_project old_ns old_proj) (project_token new_ns new_proj)
        (split b',' scope))

unfoldable pub rewrite_namespace_grants : Text → Text → Text → Text × ℕ
unfolding rewrite_tokens namespace_token
rewrite_namespace_grants scope old new =
    rewritten scope (rewrite_tokens (of_namespace old) (namespace_token new) (split b',' scope))
