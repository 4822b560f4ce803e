-- ===== src/ScopeOps/Reading.antt =====
-- How the tokens that a rewrite builds are parsed.
use mathlib.Core.List.{append_assoc, append-nil}
use mathlib.Core.Option
use mathlib.Core.Path.{subst}
use shoka.Prelude.{
  ℕ, suc, ◌+◌, ◌≤◌, ◌≡◌, refl, ◌∙◌, ap, true, false, Option, none, some, [], ◌∷◌, ◌++◌, arith, ◌==◌,
  Bool-cases, inl, inr, ◌⊎◌, ltb, take, drop, length, take-length-append, length-append,
}
use shoka.Text.{Text, codes, text_eq, has_prefix, trim_prefix, index, cut}
use shoka.Text.Laws.{IsFree, text_eq_iff}
use shoka.Text.Affixes.{
  strip_prefix-append, index-append, length-le-index, index_sound, cut_absent, cut-append,
  IsFree-append, IsFree-left,
}
use shoka.Authz.{
  Level, with_level, split_perm, namespace_grant, is_wildcard_perm, unzoned_grant, before_colon,
  zone_split, split_zone,
}
use shoka.ScopeOps.{zone_prefix, project_segment}
use shoka.ScopeOps.Perms.{
  perm_text, PermView, with_perm, no_perm, perm_view, read_level, perm_or_write-append,
}

abbrev pub namespace_word : Text
namespace_word = codes "namespace:"

stars : {target : Text} (lvl : Level) → namespace_word ++ target ≡ codes "*" ++ perm_text lvl → ⊥
stars lvl h = ground (arith, h)

not_wildcard : (target : Text) → is_wildcard_perm (split_perm (namespace_word ++ target)) ≡ false
not_wildcard target = go (perm_view (namespace_word ++ target))
  where
    go :
        PermView (namespace_word ++ target)
        → is_wildcard_perm (split_perm (namespace_word ++ target)) ≡ false
    go (no_perm e f) = rw e refl
    go (with_perm r lvl n whole e f) = rw e (elim (Bool-cases (text_eq r (codes "*"))) [
      | inr other ↦ other
      | inl star ↦
          absurd
            (stars lvl (whole ∙ ap (λ t. t ++ perm_text lvl) ((text_eq_iff r (codes "*")).0 star)))
    ])

pub unzoned_namespace :
    (target : Text) → unzoned_grant (namespace_word ++ target) ≡ namespace_grant target
unfolding unzoned_grant text_eq has_prefix trim_prefix
unzoned_namespace target =
    rw (not_wildcard target) (rw (strip_prefix-append namespace_word target) refl)

-- A namespace without the separators, an optional project without a colon, and a level.
pub namespace_grant-append :
    (ns proj : Text) (lvl : Level)
    → IsFree b'/' ns
    → IsFree b':' ns
    → IsFree b':' proj
    → namespace_grant (ns ++ (project_segment proj ++ perm_text lvl))
      ≡ with_level false ns proj (read_level lvl)
unfolding namespace_grant
namespace_grant-append ns proj lvl slash colon k =
    rw (← append_assoc ns (project_segment proj) (perm_text lvl)) (
      rw
        (perm_or_write-append (ns ++ project_segment proj) lvl
          (IsFree-append b':' ns (project_segment proj) colon (segment proj k)))
        (rw (cut_segment proj) refl))
  where
    segment : (p : Text) → IsFree b':' p → IsFree b':' (project_segment p)
    segment [] h = tt
    segment (c ∷ p) h = (λ e. ground (arith, e), h)

    cut_segment : (p : Text) → cut b'/' (ns ++ project_segment p) ≡ (ns, p)
    cut_segment [] = rw (append-nil ns) (cut_absent b'/' ns slash)
    cut_segment (c ∷ p) = cut-append b'/' ns (c ∷ p) slash

drop_after : (s : Text) (c : ℕ) (t : Text) → drop (length s + 1) (s ++ c ∷ t) ≡ t
drop_after [] c t = refl
drop_after (d ∷ s) c t = rw (suc_shift (length s)) (drop_after s c t)
  where
    suc_shift : (n : ℕ) → suc n + 1 ≡ suc (n + 1)
    suc_shift n = omega arith

-- A zone in front of a namespace token is split off again.
pub split_zone-append :
    (zone target : Text)
    → IsFree b'/' zone
    → IsFree b':' zone
    → split_zone (zone_prefix zone ++ (namespace_word ++ target)) ≡ (zone, namespace_word ++ target)
unfolding split_zone
split_zone-append [] target slash colon =
    rw (index-append b':' (codes "namespace") target word_colon)
      (go (index b'/' (namespace_word ++ target)) refl)
  where
    word_colon : IsFree b':' (codes "namespace")
    word_colon = omega arith

    go :
        (o : Option ℕ)
        → index b'/' (namespace_word ++ target) ≡ o
        → zone_split (namespace_word ++ target) o (some 9) ≡ ([], namespace_word ++ target)
    go none e = refl
    go (some i) e =
        let far : 10 ≤ i = length-le-index b'/' namespace_word target i (omega arith) e in
        ground arith
split_zone-append (c ∷ z) target slash colon =
    rw (append_assoc (c ∷ z) (b'/' ∷ []) (namespace_word ++ target)) (
      rw (index-append b'/' (c ∷ z) (namespace_word ++ target) slash)
        (go (index b':' ((c ∷ z) ++ b'/' ∷ (namespace_word ++ target))) refl))
  where
    parted :
        ◌≡◌ {A = Text × Text}
          (
            take (length (c ∷ z)) ((c ∷ z) ++ b'/' ∷ (namespace_word ++ target)),
            drop (length (c ∷ z) + 1) ((c ∷ z) ++ b'/' ∷ (namespace_word ++ target)),
          )
          (c ∷ z, namespace_word ++ target)
    parted =
        rw (take-length-append (c ∷ z) (b'/' ∷ (namespace_word ++ target)))
          (rw (drop_after (c ∷ z) b'/' (namespace_word ++ target)) refl)

    go :
        (o : Option ℕ)
        → index b':' ((c ∷ z) ++ b'/' ∷ (namespace_word ++ target)) ≡ o
        → zone_split ((c ∷ z) ++ b'/' ∷ (namespace_word ++ target)) (some (length (c ∷ z))) o
          ≡ (c ∷ z, namespace_word ++ target)
    go none e = parted
    go (some j) e =
        let free : IsFree b':' ((c ∷ z) ++ b'/' ∷ []) =
          IsFree-append b':' (c ∷ z) (b'/' ∷ []) colon (omega arith) in
        let far : length ((c ∷ z) ++ b'/' ∷ []) ≤ j =
          length-le-index b':' ((c ∷ z) ++ b'/' ∷ []) (namespace_word ++ target) j free
            (rw (append_assoc (c ∷ z) (b'/' ∷ []) (namespace_word ++ target)) e) in
        let later : ltb (length (c ∷ z)) j ≡ true =
          ground (arith, length-append (c ∷ z) (b'/' ∷ [])) in
        rw later parted

index-none : (sep : ℕ) (s : Text) → index sep s ≡ none → IsFree sep s
unfolding index
index-none sep [] h = tt
index-none sep (c ∷ s) h = (ground arith, index-none sep s (ground arith))

prefix-IsFree :
    (sep : ℕ) (p t : Text) (j : ℕ) → index sep (p ++ t) ≡ some j → length p ≤ j → IsFree sep p
unfolding index
prefix-IsFree sep [] t j h le = tt
prefix-IsFree sep (c ∷ p) t j h le = elim (Bool-cases (c == sep)) [
  | inl e ↦ absurd (ground (arith, h, e))
  | inr e ↦
      let (k, found, same) = (Option.map-eq-some_iff _ _).0 (rw e at h) in
      (ground arith, prefix-IsFree sep p t k found (omega (arith, same)))
]

-- Any token is its zone, if it has one, and the rest.
pub record ZoneView (g zone rest : Text) : Type 0 where
  pub slash : IsFree b'/' zone
  pub colon : IsFree b':' zone
  pub parts : ((zone ≡ []) × (g ≡ rest)) ⊎ (g ≡ zone ++ b'/' ∷ rest)

pub zone_view : (g : Text) → ZoneView g (split_zone g).0 (split_zone g).1
unfolding split_zone
zone_view g = go (index b'/' g) (index b':' g) refl refl
  where
    unzoned : ZoneView g [] g
    unzoned = record { slash = tt; colon = tt; parts = inl (refl, refl) }

    zoned :
        (i : ℕ) (p : Text) (q : Text)
        → g ≡ p ++ b'/' ∷ q
        → length p ≡ i
        → IsFree b'/' p
        → IsFree b':' p
        → ZoneView g (take i g) (drop (i + 1) g)
    zoned i p q whole len slash colon = rw (← len) (
        rw whole (
          rw (take-length-append p (b'/' ∷ q))
            (rw (drop_after p b'/' q) (record { slash = slash; colon = colon; parts = inr refl }))))

    colon_free :
        (p q : Text) (o : Option ℕ)
        → g ≡ p ++ b'/' ∷ q
        → index b':' g ≡ o
        → before_colon (length p) o ≡ true
        → IsFree b':' p
    colon_free p q none whole e before =
        IsFree-left b':' p (b'/' ∷ q) (subst (IsFree b':') whole (index-none b':' g e))
    colon_free p q (some j) whole e before =
        prefix-IsFree b':' p (b'/' ∷ q) j (rw whole at e) (ground (arith, before))

    go :
        (i o : Option ℕ)
        → index b'/' g ≡ i
        → index b':' g ≡ o
        → ZoneView g (zone_split g i o).0 (zone_split g i o).1
    go none o ei eo = unzoned
    go (some i) o ei eo = elim (Bool-cases (before_colon i o)) [
      | inr late ↦ rw late unzoned
      | inl early ↦
          let (p, q, whole, len, slash) = index_sound b'/' g i ei in
          rw early (zoned i p q whole len slash (colon_free p q o whole eo (rw len early)))
    ]
