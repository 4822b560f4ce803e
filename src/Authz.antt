-- ===== src/Authz.antt =====
-- pkg/authz/authz.go: the scope grammar and the one authorization decision.
pub mod Effective
pub mod Tokens
use shoka.Prelude.{
  ℕ, zero, suc, ◌+◌, Bool, true, false, not, ◌&&◌, Option, none, some, List, [], ◌∷◌, map, ltb, leb,
  if◌then◌else◌, take, drop,
}
use shoka.Text.{
  Text, codes, text_eq, trim_space, split, index, cut, has_prefix, trim_prefix, has_suffix,
  trim_suffix,
}

pub data Level : Type 0 where
  level_none level_read level_write level_admin : Level

-- The number of a level: levels are compared as integers.
abbrev pub rank : Level → ℕ
rank level_none = 0
rank level_read = 1
rank level_write = 2
rank level_admin = 3

pub record Grant : Type 0 where
  pub zone : Text
  pub wildcard : Bool
  pub namespace : Text
  pub project : Text
  pub level : Level

abbrev pub super_user : Grant
super_user = record {
  zone = [];
  wildcard = true;
  namespace = [];
  project = [];
  level = level_admin;
}

abbrev pub no_access_scope : Text
no_access_scope = codes "none"

abbrev pub with_level : Bool → Text → Text → Level → Grant
with_level w ns proj lvl = record {
  zone = [];
  wildcard = w;
  namespace = ns;
  project = proj;
  level = lvl;
}

-- `none` is the result (s, LevelNone, false).
unfoldable pub split_perm : Text → Option (Text × Level)
split_perm s =
    if has_suffix s (codes ":admin")
    then some (trim_suffix s (codes ":admin"), level_admin)
    else if has_suffix s (codes ":rw")
    then some (trim_suffix s (codes ":rw"), level_write)
    else if has_suffix s (codes ":r")
    then some (trim_suffix s (codes ":r"), level_read)
    else none

-- rest, lvl = target, LevelWrite when there is no suffix
abbrev pub perm_or_write : Text → Option (Text × Level) → Text × Level
perm_or_write target none = (target, level_write)
perm_or_write target (some p) = p

-- The branch of a grant that starts with "namespace:".
unfoldable pub namespace_grant : Text → Grant
unfolding split_perm
namespace_grant target =
    let (rest, lvl) = perm_or_write target (split_perm target) in
    let (ns, proj) = cut b'/' rest in with_level false ns proj lvl

-- The last branches: "<ns>:<proj>:<perm>", or nothing.
unfoldable pub short_grant : Option (Text × Level) → Grant
short_grant none = with_level false [] [] level_none
short_grant (some (rest, lvl)) =
    let (ns, proj) = cut b':' rest in
    if not (text_eq ns []) then with_level false ns proj lvl else with_level false [] [] level_none

abbrev pub is_wildcard_perm : Option (Text × Level) → Bool
is_wildcard_perm none = false
is_wildcard_perm (some (rest, lvl)) = text_eq rest (codes "*")

abbrev pub level_of : Option (Text × Level) → Level
level_of none = level_none
level_of (some (rest, lvl)) = lvl

-- The switch of parseGrant, on what follows the zone.
unfoldable pub unzoned_grant : Text → Grant
unfolding namespace_grant short_grant split_perm
unzoned_grant g =
    if text_eq g (codes "*")
    then with_level true [] [] level_admin
    else if text_eq g no_access_scope
    then with_level false [] [] level_none
    else if is_wildcard_perm (split_perm g)
    then with_level true [] [] (level_of (split_perm g))
    else if has_prefix g (codes "namespace:")
    then namespace_grant (trim_prefix g (codes "namespace:"))
    else short_grant (split_perm g)

-- colonPos < 0 || i < colonPos
abbrev pub before_colon : ℕ → Option ℕ → Bool
before_colon i none = true
before_colon i (some colon_pos) = ltb i colon_pos

abbrev pub zone_split : Text → Option ℕ → Option ℕ → Text × Text
zone_split g none colon_pos = ([], g)
zone_split g (some i) colon_pos =
    if before_colon i colon_pos then (take i g, drop (i + 1) g) else ([], g)

-- The zone before the first '/', where that stands before any ':', and the rest.
unfoldable pub split_zone : Text → Text × Text
split_zone g = zone_split g (index b'/' g) (index b':' g)

unfoldable pub parse_grant : Text → Grant
unfolding split_zone unzoned_grant
parse_grant g =
    let (zone, rest) = split_zone g in
    let grant = unzoned_grant rest in record grant { zone = zone }

-- The loop over strings.Split(scope, ","): trimmed pieces, the empty ones skipped.
unfoldable pub tokens_of : List Text → List Text
tokens_of [] = []
tokens_of (raw ∷ rest) =
    let g = trim_space raw in
    let others = tokens_of rest in if text_eq g [] then others else g ∷ others

unfoldable pub tokens : Text → List Text
unfolding tokens_of
tokens scope = tokens_of (split b',' scope)

abbrev pub or_super_user : List Grant → List Grant
or_super_user [] = super_user ∷ []
or_super_user (g ∷ gs) = g ∷ gs

unfoldable pub parse_scope : Text → List Grant
unfolding tokens parse_grant
parse_scope scope =
    let s = trim_space scope in
    if text_eq s []
    then super_user ∷ []
    else if text_eq s (codes "*")
    then super_user ∷ []
    else or_super_user (map parse_grant (tokens s))

unfoldable pub matches : Grant → Text → Text → Bool
matches g namespace project =
    if not (text_eq g.zone [])
    then false
    else if text_eq namespace []
    then true
    else if g.wildcard
    then true
    else if not (text_eq g.namespace namespace)
    then false
    else if text_eq g.project []
    then true
    else text_eq g.project project

-- The loop of EffectiveLevel with its variable `max`.
unfoldable pub max_level : Level → List Grant → Text → Text → Level
unfolding matches
max_level max [] namespace project = max
max_level max (g ∷ gs) namespace project =
    max_level
      (if matches g namespace project && ltb (rank max) (rank g.level) then g.level else max) gs
      namespace project

unfoldable pub effective_level : List Grant → Text → Text → Level
unfolding max_level
effective_level grants namespace project = max_level level_none grants namespace project

-- The error "scope does not permit <required> access to <target>".
pub record Denied : Type 0 where
  pub required : Level
  pub target : Text

-- `none` is a nil error: the access is allowed.
unfoldable pub authorize : Text → Text → Text → Level → Option Denied
unfolding effective_level parse_scope
authorize scope namespace project required =
    if leb (rank required) (rank (effective_level (parse_scope scope) namespace project))
    then none
    else some (record {
      required = required;
      target = if text_eq namespace [] then codes "(global)" else namespace;
    })
