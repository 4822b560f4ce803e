-- ===== src/ScopeOps/Perms.antt =====
-- The permission suffix of a token, as parsing reads it and as the rewrites copy it.
use mathlib.Core.List.{append-nil, append_assoc}
use mathlib.Core.Path.{subst}
use shoka.Prelude.{
  ℕ, ◌≡◌, refl, ◌≢◌, ◌∙◌, ap, sym, none, some, [], ◌∷◌, ◌++◌, arith, Option-cases, inl, inr, ◌⊎◌,
}
use shoka.Text.{Text, codes, strip_suffix, has_suffix, trim_suffix}
use shoka.Text.Laws.{IsFree}
use shoka.Text.Affixes.{
  strip_suffix-append, strip_suffix_sound, last, last-append, IsFree-right, ends_overlap,
}
use shoka.Authz.{Level, level_none, level_read, level_write, level_admin, split_perm, perm_or_write}
use shoka.ScopeOps.{project_grant_suffix}

-- The suffix that is read as a level; a token without one has none.
abbrev pub perm_text : Level → Text
perm_text level_none = []
perm_text level_read = codes ":r"
perm_text level_write = codes ":rw"
perm_text level_admin = codes ":admin"

-- A text has only one of the three suffixes.
other_suffix :
    (r : Text) (c d : ℕ) (s t : Text)
    → last (c ∷ s) ≢ last (d ∷ t)
    → strip_suffix (d ∷ t) (r ++ c ∷ s) ≡ none
other_suffix r c d s t n = elim (Option-cases (strip_suffix (d ∷ t) (r ++ c ∷ s))) [
  | inl e ↦ e
  | inr (u, e) ↦ absurd (
      n (
        sym (last-append r c s)
        ∙ ap last (strip_suffix_sound (d ∷ t) (r ++ c ∷ s) u e)
        ∙ last-append u d t))
]

-- The suffix of a level is read as this level, and it is what a rewrite copies.
pub split_perm-append :
    (r : Text) (lvl : Level)
    → lvl ≢ level_none
    → (split_perm (r ++ perm_text lvl) ≡ some (r, lvl))
      × (project_grant_suffix (r ++ perm_text lvl) ≡ perm_text lvl)
unfolding split_perm project_grant_suffix has_suffix trim_suffix
split_perm-append r level_none n = absurd (n refl)
split_perm-append r level_admin n = rw (strip_suffix-append (codes ":admin") r) (refl, refl)
split_perm-append r level_write n =
    rw (other_suffix r b':' b':' (codes "rw") (codes "admin") (λ e. ground (arith, e)))
      (rw (strip_suffix-append (codes ":rw") r) (refl, refl))
split_perm-append r level_read n =
    rw (other_suffix r b':' b':' (codes "r") (codes "admin") (λ e. ground (arith, e))) (
      rw (other_suffix r b':' b':' (codes "r") (codes "rw") (λ e. ground (arith, e)))
        (rw (strip_suffix-append (codes ":r") r) (refl, refl)))

-- How parsing sees the end of a text.
pub data PermView (s : Text) : Type 0 where
  with_perm :
      (r : Text) (lvl : Level)
      → lvl ≢ level_none
      → s ≡ r ++ perm_text lvl
      → split_perm s ≡ some (r, lvl)
      → project_grant_suffix s ≡ perm_text lvl
      → PermView s
  no_perm : split_perm s ≡ none → project_grant_suffix s ≡ [] → PermView s

pub perm_view : (s : Text) → PermView s
unfolding split_perm project_grant_suffix has_suffix trim_suffix
perm_view s = elim (Option-cases (strip_suffix (codes ":admin") s)) [
  | inr (r, e) ↦
      with_perm r level_admin (λ h. cc) (strip_suffix_sound _ s r e) (rw e refl) (rw e refl)
  | inl a ↦ elim (Option-cases (strip_suffix (codes ":rw") s)) [
    | inr (r, e) ↦
        with_perm r level_write (λ h. cc) (strip_suffix_sound _ s r e) (rw a (rw e refl))
          (rw a (rw e refl))
    | inl b ↦ elim (Option-cases (strip_suffix (codes ":r") s)) [
      | inr (r, e) ↦
          with_perm r level_read (λ h. cc) (strip_suffix_sound _ s r e) (rw a (rw b (rw e refl)))
            (rw a (rw b (rw e refl)))
      | inl e ↦ no_perm (rw a (rw b (rw e refl))) (rw a (rw b (rw e refl)))
    ]
  ]
]

perm_text-colon : (lvl : Level) → lvl ≢ level_none → ¬ (IsFree b':' (perm_text lvl))
perm_text-colon level_none n = absurd (n refl)
perm_text-colon level_read n = λ h. h.0 refl
perm_text-colon level_write n = λ h. h.0 refl
perm_text-colon level_admin n = λ h. h.0 refl

pub split_perm_free : (s : Text) → IsFree b':' s → split_perm s ≡ none
split_perm_free s h = go (perm_view s)
  where
    go : PermView s → split_perm s ≡ none
    go (no_perm e f) = e
    go (with_perm r lvl n whole e f) =
        absurd (
          perm_text-colon lvl n (IsFree-right b':' r (perm_text lvl) (subst (IsFree b':') whole h)))

-- The level that the end of a namespace token is read as.
abbrev pub read_level : Level → Level
read_level level_none = level_write
read_level lvl = lvl

-- A body without a colon and the suffix of a level are read as they were put together.
pub perm_or_write-append :
    (body : Text) (lvl : Level)
    → IsFree b':' body
    → perm_or_write (body ++ perm_text lvl) (split_perm (body ++ perm_text lvl))
      ≡ (body, read_level lvl)
perm_or_write-append body level_none h = rw (append-nil body) (rw (split_perm_free body h) refl)
perm_or_write-append body level_read h = rw ((split_perm-append body level_read (λ e. cc)).0) refl
perm_or_write-append body level_write h = rw ((split_perm-append body level_write (λ e. cc)).0) refl
perm_or_write-append body level_admin h = rw ((split_perm-append body level_admin (λ e. cc)).0) refl

-- The suffix of a text is that of any text which ends with it.
pub suffix_of_end :
    (pre t r : Text) (lvl : Level)
    → split_perm t ≡ some (r, lvl)
    → project_grant_suffix (pre ++ t) ≡ perm_text lvl
suffix_of_end pre t r lvl h = go (perm_view t)
  where
    go : PermView t → project_grant_suffix (pre ++ t) ≡ perm_text lvl
    go (no_perm e f) = cc
    go (with_perm r' lvl' n whole e f) =
        let same : lvl' ≡ lvl = cc in
        rw whole (
          rw (← append_assoc pre r' (perm_text lvl'))
            ((split_perm-append (pre ++ r') lvl' n).1 ∙ ap perm_text same))

not_perm_end :
    (t u : Text) (lvl : Level) → lvl ≢ level_none → split_perm t ≡ none → t ≢ u ++ perm_text lvl
not_perm_end t u lvl n h e = cc (h, ap split_perm e, (split_perm-append u lvl n).0)

perm_text-slash : (lvl : Level) → IsFree b'/' (perm_text lvl)
perm_text-slash level_none = tt
perm_text-slash level_read = omega arith
perm_text-slash level_write = omega arith
perm_text-slash level_admin = omega arith

-- A text with a slash and without a suffix is the end of no text with one.
pub no_suffix_of_end :
    (pre t : Text) → split_perm t ≡ none → ¬ (IsFree b'/' t) → project_grant_suffix (pre ++ t) ≡ []
no_suffix_of_end pre t h slash = go (perm_view (pre ++ t))
  where
    overlap :
        (r : Text) (lvl : Level)
        → lvl ≢ level_none
        → ((u : Text) × (t ≡ u ++ perm_text lvl))
          ⊎ ((q : Text) × (perm_text lvl ≡ q ++ t) × (pre ≡ r ++ q))
        → ⊥
    overlap r lvl n (inl (u, e)) = not_perm_end t u lvl n h e
    overlap r lvl n (inr (q, e, f)) =
        slash (IsFree-right b'/' q t (subst (IsFree b'/') e (perm_text-slash lvl)))

    go : PermView (pre ++ t) → project_grant_suffix (pre ++ t) ≡ []
    go (no_perm e f) = f
    go (with_perm r lvl n whole e f) =
        absurd (overlap r lvl n (ends_overlap pre t r (perm_text lvl) whole))
