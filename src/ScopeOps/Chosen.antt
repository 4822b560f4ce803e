-- ===== src/ScopeOps/Chosen.antt =====
-- The grants that a rewrite chooses: their tokens, levels and suffixes.
use mathlib.Core.List.{append_assoc}
use shoka.Prelude.{
  ◌≡◌, refl, ◌≢◌, ◌∙◌, ap, sym, true, false, Option, none, some, [], ◌∷◌, ◌++◌, arith, Option-cases,
  Bool-cases, inl, inr, ◌⊎◌,
}
use shoka.Text.{Text, codes, text_eq, strip_prefix, has_prefix, trim_prefix, cut}
use shoka.Text.Laws.{text_eq_iff}
use shoka.Text.Affixes.{strip_prefix_sound, cut_absent}
use shoka.Authz.{
  Level, level_none, level_admin, level_write, Grant, with_level, no_access_scope, split_perm,
  namespace_grant, is_wildcard_perm, unzoned_grant, short_grant, level_of, split_zone, parse_grant,
}
use shoka.ScopeOps.{project_grant_suffix, of_project}
use shoka.ScopeOps.Perms.{
  perm_text, PermView, with_perm, no_perm, perm_view, read_level, suffix_of_end, no_suffix_of_end,
}
use shoka.ScopeOps.Reading.{namespace_word, ZoneView, zone_view}

-- What a token without its zone is parsed as.
pub data GrantView (g : Text) : Type 0 where
  wild : (lvl : Level) → unzoned_grant g ≡ with_level true [] [] lvl → GrantView g
  nothing : unzoned_grant g ≡ with_level false [] [] level_none → GrantView g
  long :
      (target : Text)
      → g ≡ namespace_word ++ target
      → unzoned_grant g ≡ namespace_grant target
      → GrantView g
  short :
      (r : Text) (lvl : Level)
      → split_perm g ≡ some (r, lvl)
      → unzoned_grant g ≡ with_level false (cut b':' r).0 (cut b':' r).1 lvl
      → GrantView g

pub grant_view : (g : Text) → GrantView g
unfolding unzoned_grant has_prefix trim_prefix
grant_view g = elim (Bool-cases (text_eq g (codes "*"))) [
  | inl star ↦ wild level_admin (rw star refl)
  | inr a ↦ elim (Bool-cases (text_eq g no_access_scope)) [
    | inl none_scope ↦ nothing (rw a (rw none_scope refl))
    | inr b ↦ elim (Bool-cases (is_wildcard_perm (split_perm g))) [
      | inl star ↦ wild (level_of (split_perm g)) (rw a (rw b (rw star refl)))
      | inr d ↦ elim (Option-cases (strip_prefix namespace_word g)) [
        | inr (target, e) ↦
            long target (strip_prefix_sound namespace_word g target e)
              (rw a (rw b (rw d (rw e refl))))
        | inl e ↦ shorter (split_perm g) refl (rw a (rw b (rw d (rw e refl))))
      ]
    ]
  ]
]
  where
    shorter :
        (o : Option (Text × Level))
        → split_perm g ≡ o
        → unzoned_grant g ≡ short_grant (split_perm g)
        → GrantView g
    shorter none e h = nothing (rw h (rw e (unfold short_grant in refl)))
    shorter (some (r, lvl)) e h = elim (Bool-cases (text_eq (cut b':' r).0 [])) [
      | inl empty ↦ nothing (rw h (rw e (unfold short_grant in rw empty refl)))
      | inr named ↦ short r lvl e (rw h (rw e (unfold short_grant in rw named refl)))
    ]

pub of_project_sound :
    (ns proj : Text) (g : Grant)
    → of_project ns proj g ≡ true
    → (g.wildcard ≡ false) × (g.namespace ≡ ns) × (g.project ≡ proj)
of_project_sound ns proj g h =
    ground (arith, text_eq_iff g.namespace ns, text_eq_iff g.project proj)

perm_level_ne_none :
    (s r : Text) (lvl : Level) → split_perm s ≡ some (r, lvl) → read_level lvl ≡ lvl
perm_level_ne_none s r lvl h = go (perm_view s)
  where
    go : PermView s → read_level lvl ≡ lvl
    go (no_perm e f) = cc
    go (with_perm r' lvl' n whole e f) = let same : lvl' ≡ lvl = cc in ground (arith, n, same)

-- The level of a chosen project grant is the one that its copied suffix will be read as.
pub record SuffixFits (tok : Text) (level : Level) : Type 0 where
  pub perm : Level
  pub copied : project_grant_suffix tok ≡ perm_text perm
  pub same : level ≡ read_level perm

level_namespace_grant :
    (target r : Text) (lvl : Level)
    → split_perm target ≡ some (r, lvl)
    → (namespace_grant target).level ≡ lvl
unfolding namespace_grant
level_namespace_grant target r lvl h = rw h refl

namespace_grant_plain :
    (target : Text)
    → split_perm target ≡ none
    → namespace_grant target ≡ with_level false (cut b'/' target).0 (cut b'/' target).1 level_write
unfolding namespace_grant
namespace_grant_plain target h = rw h refl

namespace_SuffixFits :
    (pre target : Text)
    → (namespace_grant target).project ≢ []
    → SuffixFits (pre ++ target) (namespace_grant target).level
namespace_SuffixFits pre target n = go (split_perm target) refl
  where
    go :
        (o : Option (Text × Level))
        → split_perm target ≡ o
        → SuffixFits (pre ++ target) (namespace_grant target).level
    go (some (r, lvl)) e = record {
      perm = lvl;
      copied = suffix_of_end pre target r lvl e;
      same = level_namespace_grant target r lvl e ∙ sym (perm_level_ne_none target r lvl e);
    }
    go none e = record {
      perm = level_none;
      copied = no_suffix_of_end pre target e (λ free. n (
          ap (λ g. g.project) (namespace_grant_plain target e)
          ∙ ap (λ p. p.1) (cut_absent b'/' target free)));
      same = ap (λ g. g.level) (namespace_grant_plain target e);
    }

unzoned_SuffixFits :
    (pre g ns proj : Text)
    → proj ≢ []
    → ns ≢ []
    → of_project ns proj (unzoned_grant g) ≡ true
    → SuffixFits (pre ++ g) (unzoned_grant g).level
unzoned_SuffixFits pre g ns proj p n h =
    go (grant_view g) (of_project_sound ns proj (unzoned_grant g) h)
  where
    go :
        GrantView g
        → ((unzoned_grant g).wildcard ≡ false)
          × ((unzoned_grant g).namespace ≡ ns)
          × ((unzoned_grant g).project ≡ proj)
        → SuffixFits (pre ++ g) (unzoned_grant g).level
    go (wild lvl e) (w, _, _) = absurd (cc (w, ap (λ x. x.wildcard) e))
    go (nothing e) (_, m, _) = absurd (n (sym m ∙ ap (λ x. x.namespace) e))
    go (short r lvl e f) k = record {
      perm = lvl;
      copied = suffix_of_end pre g r lvl e;
      same = ap (λ x. x.level) f ∙ sym (perm_level_ne_none g r lvl e);
    }
    go (long target e f) (_, _, q) =
        let fits =
          namespace_SuffixFits (pre ++ namespace_word) target
            (λ z. p (sym q ∙ ap (λ x. x.project) f ∙ z)) in
        rw f (rw e (rw (← append_assoc pre namespace_word target) fits))

-- So for a whole token, with its zone.
pub project_SuffixFits :
    (tok ns proj : Text)
    → proj ≢ []
    → ns ≢ []
    → of_project ns proj (parse_grant tok) ≡ true
    → SuffixFits tok (parse_grant tok).level
unfolding parse_grant
project_SuffixFits tok ns proj p n h = go (zone_view tok)
  where
    zone : Text
    zone = (split_zone tok).0

    rest : Text
    rest = (split_zone tok).1

    at : (pre : Text) → tok ≡ pre ++ rest → SuffixFits tok (unzoned_grant rest).level
    at pre e =
        let fits = unzoned_SuffixFits pre rest ns proj p n h in
        record {
          perm = fits.perm;
          copied = ap project_grant_suffix e ∙ fits.copied;
          same = fits.same;
        }

    parts :
        ((zone ≡ []) × (tok ≡ rest)) ⊎ (tok ≡ zone ++ b'/' ∷ rest)
        → SuffixFits tok (unzoned_grant rest).level
    parts (inl (_, e)) = at [] e
    parts (inr e) = at (zone ++ b'/' ∷ []) (e ∙ sym (append_assoc zone (b'/' ∷ []) rest))

    go : ZoneView tok zone rest → SuffixFits tok (unzoned_grant rest).level
    go v = parts v.parts
