-- ===== src/ScopeOps/Rewrite.antt =====
-- RewriteProjectGrants, by the grants of the rewritten scope.
use mathlib.Core.Path.{subst}
use shoka.Prelude.{
  ℕ, zero, suc, ◌≡◌, refl, ◌≢◌, ◌∙◌, ap, sym, Bool, true, false, List, map, [], ◌∷◌, ◌++◌, arith,
  if◌then◌else◌, Bool-cases, inl, inr, All,
}
use shoka.Text.{Text, split, join}
use shoka.Text.Laws.{IsFree}
use shoka.Names.{is_name_char, is_valid_name, valid_name-IsFree, valid_name-filled}
use shoka.Authz.{
  Level, Grant, split_zone, unzoned_grant, parse_grant, tokens_of, tokens, or_super_user,
  parse_scope,
}
use shoka.Authz.Tokens.{parse_scope_lem, IsToken, tokens-IsToken, tokens-join}
use shoka.ScopeOps.{
  zone_prefix, project_segment, project_token, of_project, rewrite_tokens, rewritten,
  rewrite_project_grants,
}
use shoka.ScopeOps.Perms.{perm_text, read_level}
use shoka.ScopeOps.Tokens.{zoned-IsToken, project_part-IsTail}
use shoka.ScopeOps.Reading.{
  namespace_word, unzoned_namespace, namespace_grant-append, split_zone-append, ZoneView, zone_view,
}
use shoka.ScopeOps.Chosen.{SuffixFits, project_SuffixFits, of_project_sound}

pub slash_is_no_name : is_name_char b'/' ≡ false
unfolding is_name_char
slash_is_no_name = refl

pub colon_is_no_name : is_name_char b':' ≡ false
unfolding is_name_char
colon_is_no_name = refl

-- A grant of the project, given to another project.
abbrev pub rehome : Text → Text → Text → Text → Grant → Grant
rehome old_ns old_proj new_ns new_proj g =
    if of_project old_ns old_proj g then record g { namespace = new_ns; project = new_proj } else g

abbrev with_zone : Text × Text → Grant
with_zone (zone, rest) = let g = unzoned_grant rest in record g { zone = zone }

parse_grant_lem : (tok : Text) → parse_grant tok ≡ with_zone (split_zone tok)
unfolding parse_grant
parse_grant_lem tok = refl

pub parse_namespace_token :
    (zone ns proj : Text) (lvl : Level)
    → IsFree b'/' zone
    → IsFree b':' zone
    → IsFree b'/' ns
    → IsFree b':' ns
    → IsFree b':' proj
    → parse_grant
        (zone_prefix zone ++ (namespace_word ++ (ns ++ (project_segment proj ++ perm_text lvl))))
      ≡ record {
        zone = zone;
        wildcard = false;
        namespace = ns;
        project = proj;
        level = read_level lvl;
      }
parse_namespace_token zone ns proj lvl zs zc ns_slash ns_colon proj_colon =
    parse_grant_lem _
    ∙ ap with_zone (split_zone-append zone (ns ++ (project_segment proj ++ perm_text lvl)) zs zc)
    ∙ ap (λ (g : Grant). record g { zone = zone })
        (unzoned_namespace (ns ++ (project_segment proj ++ perm_text lvl))
          ∙ namespace_grant-append ns proj lvl ns_slash ns_colon proj_colon)

parse_project_text :
    (zone ns proj : Text) (lvl : Level)
    → proj ≢ []
    → IsFree b'/' zone
    → IsFree b':' zone
    → IsFree b'/' ns
    → IsFree b':' ns
    → IsFree b':' proj
    → parse_grant (zone_prefix zone ++ (namespace_word ++ (ns ++ b'/' ∷ (proj ++ perm_text lvl))))
      ≡ record {
        zone = zone;
        wildcard = false;
        namespace = ns;
        project = proj;
        level = read_level lvl;
      }
parse_project_text zone ns [] lvl n = absurd (n refl)
parse_project_text zone ns (c ∷ p) lvl n = parse_namespace_token zone ns (c ∷ p) lvl

zone_parse_grant : (tok : Text) → (parse_grant tok).zone ≡ (split_zone tok).0
unfolding parse_grant
zone_parse_grant tok = refl

module _ (old_ns old_proj new_ns new_proj : Text) (old_named : old_ns ≢ [])
    (old_project : old_proj ≢ []) (ns_valid : is_valid_name new_ns ≡ true)
    (proj_valid : is_valid_name new_proj ≡ true) where
  -- The rebuilt token of a chosen grant is parsed as the grant, re-homed.
  parse_project_token :
      (tok : Text)
      → of_project old_ns old_proj (parse_grant tok) ≡ true
      → parse_grant (project_token new_ns new_proj tok (parse_grant tok))
        ≡ rehome old_ns old_proj new_ns new_proj (parse_grant tok)
  unfolding project_token
  parse_project_token tok chosen = rw (fits.copied) (
      parse_project_text g.zone new_ns new_proj fits.perm (valid_name-filled new_proj proj_valid)
        (subst (IsFree b'/') (sym (zone_parse_grant tok)) view.slash)
        (subst (IsFree b':') (sym (zone_parse_grant tok)) view.colon)
        (valid_name-IsFree b'/' new_ns slash_is_no_name ns_valid)
        (valid_name-IsFree b':' new_ns colon_is_no_name ns_valid)
        (valid_name-IsFree b':' new_proj colon_is_no_name proj_valid)
      ∙ same)
    where
      g : Grant
      g = parse_grant tok

      fits : SuffixFits tok g.level
      fits = project_SuffixFits tok old_ns old_proj old_project old_named chosen

      view : ZoneView tok (split_zone tok).0 (split_zone tok).1
      view = zone_view tok

      same :
          record {
            zone = g.zone;
            wildcard = false;
            namespace = new_ns;
            project = new_proj;
            level = read_level fits.perm;
          }
          ≡ rehome old_ns old_proj new_ns new_proj g
      same = rw chosen (cc ((of_project_sound old_ns old_proj g chosen).0, fits.same))

  -- The rebuilt token is a token of a scope.
  project_token-IsToken :
      (tok : Text)
      → IsToken tok
      → of_project old_ns old_proj (parse_grant tok) ≡ true
      → IsToken (project_token new_ns new_proj tok (parse_grant tok))
  unfolding project_token
  project_token-IsToken tok h chosen = rw fits.copied (
      zoned-IsToken tok (parse_grant tok).zone (split_zone tok).1 _ _ h
        (rw (zone_parse_grant tok) (zone_view tok))
        (project_part-IsTail new_ns new_proj fits.perm ns_valid proj_valid))
    where
      fits : SuffixFits tok (parse_grant tok).level
      fits = project_SuffixFits tok old_ns old_proj old_project old_named chosen

  abbrev chosen_by : Grant → Bool
  chosen_by = of_project old_ns old_proj

  abbrev rebuild : Text → Grant → Text
  rebuild = project_token new_ns new_proj

  -- The tokens that the loop writes.
  abbrev rebuilt : Text → Text
  rebuilt t = if chosen_by (parse_grant t) then rebuild t (parse_grant t) else t

  rewrite_tokens-map :
      (ps : List Text) → (rewrite_tokens chosen_by rebuild ps).0 ≡ map rebuilt (tokens_of ps)
  unfolding rewrite_tokens tokens_of
  rewrite_tokens-map [] = refl
  rewrite_tokens-map (p ∷ ps) = ground (arith, rewrite_tokens-map ps)

  -- Where none was rewritten, no grant is of the project.
  none_chosen :
      (ps : List Text)
      → (rewrite_tokens chosen_by rebuild ps).1 ≡ 0
      → map (rehome old_ns old_proj new_ns new_proj) (map parse_grant (tokens_of ps))
        ≡ map parse_grant (tokens_of ps)
  unfolding rewrite_tokens tokens_of
  none_chosen [] h = refl
  none_chosen (p ∷ ps) h = ground (arith, none_chosen ps)

  no_tokens : (ps : List Text) → tokens_of ps ≡ [] → (rewrite_tokens chosen_by rebuild ps).1 ≡ 0
  unfolding rewrite_tokens tokens_of
  no_tokens [] h = refl
  no_tokens (p ∷ ps) h = ground (arith, no_tokens ps)

  parse_rebuilt :
      (ts : List Text)
      → map parse_grant (map rebuilt ts)
        ≡ map (rehome old_ns old_proj new_ns new_proj) (map parse_grant ts)
  parse_rebuilt [] = refl
  parse_rebuilt (t ∷ ts) = elim (Bool-cases (chosen_by (parse_grant t))) [
    | inl e ↦ cc (parse_rebuilt ts, parse_project_token t e, first e)
    | inr e ↦ ground (arith, parse_rebuilt ts)
  ]
    where
      first : chosen_by (parse_grant t) ≡ true → rebuilt t ≡ rebuild t (parse_grant t)
      first e = rw e refl

  rebuilt-IsToken : (ts : List Text) → All IsToken ts → All IsToken (map rebuilt ts)
  rebuilt-IsToken [] h = tt
  rebuilt-IsToken (t ∷ ts) h = (first (chosen_by (parse_grant t)) refl, rebuilt-IsToken ts h.1)
    where
      first :
          (b : Bool)
          → chosen_by (parse_grant t) ≡ b
          → IsToken (if b then rebuild t (parse_grant t) else t)
      first true e = project_token-IsToken t h.0 e
      first false e = h.0

  -- Re-homing a project, by a move or a rename, changes the parsed grants of a scope in one way: each
  -- grant of the old project becomes the same grant, at the same level and in the same zone, of the
  -- new one. The new names are valid, and the old ones are not empty.
  pub rewrite_project_grants-rehome :
      (scope : Text)
      → parse_scope (rewrite_project_grants scope old_ns old_proj new_ns new_proj).0
        ≡ map (rehome old_ns old_proj new_ns new_proj) (parse_scope scope)
  unfolding rewrite_project_grants tokens
  rewrite_project_grants-rehome scope =
      go (rewrite_tokens chosen_by rebuild (split b',' scope)).0
        (rewrite_tokens chosen_by rebuild (split b',' scope)).1 refl refl
    where
      home : Grant → Grant
      home = rehome old_ns old_proj new_ns new_proj

      ps : List Text
      ps = split b',' scope

      ts : List Text
      ts = tokens_of ps

      same :
          (l : List Text)
          → map home (map parse_grant l) ≡ map parse_grant l
          → or_super_user (map parse_grant l) ≡ map home (or_super_user (map parse_grant l))
      same [] h = refl
      same (t ∷ l) h = sym h

      more :
          (l : List Text)
          → All IsToken l
          → l ≢ []
          → parse_scope (join b',' (map rebuilt l)) ≡ map home (or_super_user (map parse_grant l))
      more [] k n = absurd (n refl)
      more (t ∷ l) k n =
          parse_scope_lem _
          ∙ ap (λ x. or_super_user (map parse_grant x))
              (tokens-join (rebuilt t) (map rebuilt l) (rebuilt-IsToken (t ∷ l) k))
          ∙ parse_rebuilt (t ∷ l)

      go :
          (out : List Text) (n : ℕ)
          → (rewrite_tokens chosen_by rebuild ps).0 ≡ out
          → (rewrite_tokens chosen_by rebuild ps).1 ≡ n
          → parse_scope (rewritten scope (out, n)).0 ≡ map home (parse_scope scope)
      go out zero eo en = rw parse_scope_lem (same ts (none_chosen ps en))
      go out (suc n) eo en = rw (← eo) (
          rw rewrite_tokens-map (
            rw (parse_scope_lem scope)
              (more ts (tokens-IsToken scope) (λ e. ground (arith, no_tokens ps e, en)))))
