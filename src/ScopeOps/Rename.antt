-- ===== src/ScopeOps/Rename.antt =====
-- Renaming a namespace: the grants without a level whose namespace is called like a permission.
use shoka.Prelude.{◌≡◌, refl, ◌≢◌, ◌∙◌, ap, true, false, map, [], ◌∷◌, ◌++◌}
use shoka.Text.{
  Text, codes, text_eq, trim_space, trim_left, trim_right, is_space, split, has_suffix,
  strip_suffix, strip_prefix, index, cut, trim_suffix, has_prefix, trim_prefix, join,
}
use shoka.Text.Laws.{solid-IsTrimmed}
use shoka.Names.{is_valid_name, valid_name-IsFree}
use shoka.Authz.{
  Level, level_none, level_read, level_write, level_admin, with_level, parse_grant, parse_scope,
  or_super_user,
}
use shoka.Authz.Tokens.{parse_scope_lem, IsToken, tokens-join}
use shoka.ScopeOps.{rewrite_namespace_grants}
use shoka.ScopeOps.Perms.{perm_text, read_level}
use shoka.ScopeOps.Reading.{namespace_word}
use shoka.ScopeOps.Tokens.{IsTail, IsTail-append, perm_text-IsTail, name-IsTail, word-IsTail}
use shoka.ScopeOps.Rewrite.{parse_namespace_token, slash_is_no_name, colon_is_no_name}

-- The word of a permission: "r", "rw", "admin".
abbrev pub perm_word : Level → Text
perm_word level_none = []
perm_word level_read = codes "r"
perm_word level_write = codes "rw"
perm_word level_admin = codes "admin"

-- A grant without a level, on the namespace that is called like the permission.
abbrev pub legacy_scope : Level → Text
legacy_scope lvl = namespace_word ++ perm_word lvl

legacy_scope-before :
    (lvl : Level)
    → lvl ≢ level_none
    → parse_scope (legacy_scope lvl) ≡ with_level false (perm_word lvl) [] level_write ∷ []
unfolding parse_scope trim_space trim_left trim_right is_space split text_eq index has_suffix
    trim_suffix strip_suffix has_prefix trim_prefix strip_prefix cut
legacy_scope-before level_none n = absurd (n refl)
legacy_scope-before level_read n = refl
legacy_scope-before level_write n = refl
legacy_scope-before level_admin n = refl

legacy_scope-rewritten :
    (lvl : Level) (new : Text)
    → lvl ≢ level_none
    → (rewrite_namespace_grants (legacy_scope lvl) (perm_word lvl) new).0
      ≡ namespace_word ++ (new ++ perm_text lvl)
unfolding rewrite_namespace_grants parse_grant trim_space trim_left trim_right is_space split
    text_eq index has_suffix trim_suffix strip_suffix has_prefix trim_prefix strip_prefix cut join
legacy_scope-rewritten level_none new n = absurd (n refl)
legacy_scope-rewritten level_read new n = refl
legacy_scope-rewritten level_write new n = refl
legacy_scope-rewritten level_admin new n = refl

renamed-IsToken :
    (lvl : Level) (new : Text)
    → is_valid_name new ≡ true
    → IsToken (namespace_word ++ (new ++ perm_text lvl))
renamed-IsToken lvl new h = record {
  trimmed = solid-IsTrimmed _ tail.solid;
  free = tail.free;
  filled = λ e. cc;
}
  where
    tail : IsTail (namespace_word ++ (new ++ perm_text lvl))
    tail =
        IsTail-append namespace_word _ word-IsTail
          (IsTail-append new _ (name-IsTail new h) (perm_text-IsTail lvl))

read_same : (lvl : Level) → lvl ≢ level_none → read_level lvl ≡ lvl
read_same level_none n = absurd (n refl)
read_same level_read n = refl
read_same level_write n = refl
read_same level_admin n = refl

renamed-parse :
    (lvl : Level) (new : Text)
    → is_valid_name new ≡ true
    → parse_scope (namespace_word ++ (new ++ perm_text lvl))
      ≡ with_level false new [] (read_level lvl) ∷ []
unfolding join
renamed-parse lvl new h =
    parse_scope_lem _
    ∙ ap (λ l. or_super_user (map parse_grant l)) (tokens-join _ [] (renamed-IsToken lvl new h, tt))
    ∙ ap (λ g. g ∷ [])
        (parse_namespace_token [] new [] lvl tt tt (valid_name-IsFree b'/' new slash_is_no_name h)
          (valid_name-IsFree b':' new colon_is_no_name h) tt)

-- A grant without a level reads as write. On a namespace called "r", "rw" or "admin" a rename takes
-- the end of the token for its permission: the grant on the new name has the level of that word, so
-- write becomes admin when the namespace "admin" is renamed, and read when "r" is.
pub rewrite_namespace_grants-legacy :
    (lvl : Level) (new : Text)
    → lvl ≢ level_none
    → is_valid_name new ≡ true
    → (parse_scope (legacy_scope lvl) ≡ with_level false (perm_word lvl) [] level_write ∷ [])
      × (parse_scope (rewrite_namespace_grants (legacy_scope lvl) (perm_word lvl) new).0
          ≡ with_level false new [] lvl ∷ [])
rewrite_namespace_grants-legacy lvl new n h = (
  legacy_scope-before lvl n,
  rw (legacy_scope-rewritten lvl new n)
      (renamed-parse lvl new h ∙ ap (λ l. with_level false new [] l ∷ []) (read_same lvl n)),
)
