-- ===== src/ScopeOps/Prune.antt =====
-- PruneNamespaceGrants and PruneProjectGrants, by the grants of the pruned scope.
use mathlib.Core.List.{Memᴰ}
use shoka.Prelude.{
  ℕ, zero, suc, ◌≡◌, refl, ◌≢◌, ◌∙◌, ap, sym, true, false, List, [], ◌∷◌, map, arith, All,
  Bool-cases, inl, inr, keep, not, Bool, ◌≤◌,
}
use shoka.Text.{
  Text, text_eq, trim_space, split, trim_left, trim_right, is_space, index, has_suffix,
  strip_suffix,
}
use shoka.Text.Laws.{text_eq_iff}
use shoka.Authz.{
  level_none, rank, Grant, super_user, no_access_scope, parse_grant, tokens_of, tokens,
  or_super_user, parse_scope, matches, with_level, max_level, effective_level,
}
use shoka.Authz.Effective.{effective_level_mono, rank_injective, effective_level_greatest}
use shoka.Authz.Tokens.{parse_scope_lem, IsToken, tokens-IsToken, tokens-join}
use shoka.ScopeOps.{
  prune_tokens, pruned, prune_scope, of_namespace, of_project, prune_namespace_grants,
  prune_project_grants,
}

module _ (discard : Grant → Bool) where
  abbrev pub kept : List Grant → List Grant
  kept = keep (λ g. not (discard g))

  abbrev kept_tokens : List Text → List Text
  kept_tokens = keep (λ t. not (discard (parse_grant t)))

  prune_tokens-kept : (ps : List Text) → (prune_tokens discard ps).0 ≡ kept_tokens (tokens_of ps)
  unfolding prune_tokens tokens_of
  prune_tokens-kept [] = refl
  prune_tokens-kept (p ∷ ps) = ground (arith, prune_tokens-kept ps)

  prune_tokens-zero :
      (ps : List Text) → (prune_tokens discard ps).1 ≡ 0 → kept_tokens (tokens_of ps) ≡ tokens_of ps
  unfolding prune_tokens tokens_of
  prune_tokens-zero [] h = refl
  prune_tokens-zero (p ∷ ps) h = ground (arith, prune_tokens-zero ps)

  kept-map : (ts : List Text) → kept (map parse_grant ts) ≡ map parse_grant (kept_tokens ts)
  kept-map [] = refl
  kept-map (t ∷ ts) = ground (arith, kept-map ts)

  All-keep : (ts : List Text) → All IsToken ts → All IsToken (kept_tokens ts)
  All-keep [] h = tt
  All-keep (t ∷ ts) h = elim (Bool-cases (discard (parse_grant t))) [
    | inl e ↦ rw e (All-keep ts h.1)
    | inr e ↦ rw e (h.0, All-keep ts h.1)
  ]

  no_tokens_removed : (ps : List Text) → tokens_of ps ≡ [] → (prune_tokens discard ps).1 ≡ 0
  unfolding prune_tokens tokens_of
  no_tokens_removed [] h = refl
  no_tokens_removed (p ∷ ps) h = ground (arith, no_tokens_removed ps)

  kept-or_super_user :
      (ts : List Text)
      → ts ≢ []
      → kept (or_super_user (map parse_grant ts)) ≡ map parse_grant (kept_tokens ts)
  kept-or_super_user [] n = absurd (n refl)
  kept-or_super_user (t ∷ ts) n = kept-map (t ∷ ts)

  kept_all :
      (ts : List Text)
      → discard super_user ≡ false
      → kept_tokens ts ≡ ts
      → kept (or_super_user (map parse_grant ts)) ≡ or_super_user (map parse_grant ts)
  kept_all [] h e = rw h refl
  kept_all (t ∷ ts) h e = kept-map (t ∷ ts) ∙ ap (map parse_grant) e

no_access_grants : parse_scope no_access_scope ≡ with_level false [] [] level_none ∷ []
unfolding parse_scope trim_space trim_left trim_right is_space split text_eq index has_suffix
    strip_suffix
no_access_grants = refl

no_access : (ns proj : Text) → effective_level (parse_scope no_access_scope) ns proj ≡ level_none
unfolding effective_level
no_access ns proj = rw no_access_grants (ground arith)

no_grants : (ns proj : Text) → effective_level [] ns proj ≡ level_none
unfolding effective_level max_level
no_grants ns proj = refl

module _ (discard : Grant → Bool) (spares : discard super_user ≡ false) (scope : Text) where
  prune_scope-kept :
      (ns proj : Text)
      → effective_level (parse_scope (prune_scope scope discard).0) ns proj
        ≡ effective_level (kept discard (parse_scope scope)) ns proj
  unfolding prune_scope tokens
  prune_scope-kept ns proj =
      go (prune_tokens discard (split b',' scope)).0 (prune_tokens discard (split b',' scope)).1
        refl refl
    where
      Same : Text → Type 0
      Same s =
          effective_level (parse_scope s) ns proj
          ≡ effective_level (kept discard (parse_scope scope)) ns proj

      ts : List Text
      ts = tokens scope

      reduce : ts ≢ [] → kept discard (parse_scope scope) ≡ map parse_grant (kept_tokens discard ts)
      reduce n = rw parse_scope_lem (kept-or_super_user discard ts n)

      nonempty : {n : ℕ} → (prune_tokens discard (split b',' scope)).1 ≡ suc n → ts ≢ []
      nonempty e f = ground (arith, no_tokens_removed discard (split b',' scope) f)

      filtered :
          (k : List Text) {n : ℕ}
          → (prune_tokens discard (split b',' scope)).0 ≡ k
          → (prune_tokens discard (split b',' scope)).1 ≡ suc n
          → kept discard (parse_scope scope) ≡ map parse_grant k
      filtered k ek er =
          reduce (nonempty er) ∙ ap (map parse_grant) (sym (prune_tokens-kept discard _) ∙ ek)

      all_tokens : (k : List Text) → (prune_tokens discard (split b',' scope)).0 ≡ k → All IsToken k
      all_tokens k ek =
          rw (← ek) (rw prune_tokens-kept (All-keep discard ts (tokens-IsToken scope)))

      go :
          (k : List Text) (r : ℕ)
          → (prune_tokens discard (split b',' scope)).0 ≡ k
          → (prune_tokens discard (split b',' scope)).1 ≡ r
          → Same (pruned scope (k, r)).0
      go k zero ek er =
          rw parse_scope_lem (rw (kept_all discard ts spares (prune_tokens-zero discard _ er)))
      go [] (suc n) ek er = rw (filtered [] ek er) (no_access ns proj ∙ sym (no_grants ns proj))
      go (t ∷ rest) (suc n) ek er =
          rw (filtered (t ∷ rest) ek er)
            (rw parse_scope_lem (rw (tokens-join t rest (all_tokens (t ∷ rest) ek))))

-- A principal's level after a namespace is pruned from its scope is the level that its other
-- grants give: for every target, the parsed scope without the grants of that namespace.
pub prune_namespace_grants-kept :
    (scope pruned_ns ns proj : Text)
    → effective_level (parse_scope (prune_namespace_grants scope pruned_ns).0) ns proj
      ≡ effective_level (kept (of_namespace pruned_ns) (parse_scope scope)) ns proj
unfolding prune_namespace_grants
prune_namespace_grants-kept scope pruned_ns ns proj =
    prune_scope-kept (of_namespace pruned_ns) refl scope ns proj

-- A principal's level after a project is pruned from its scope is the level that its other grants
-- give: for every target, the parsed scope without the grants that name the project.
pub prune_project_grants-kept :
    (scope pruned_ns pruned_proj ns proj : Text)
    → effective_level (parse_scope (prune_project_grants scope pruned_ns pruned_proj).0) ns proj
      ≡ effective_level (kept (of_project pruned_ns pruned_proj) (parse_scope scope)) ns proj
unfolding prune_project_grants
prune_project_grants-kept scope pruned_ns pruned_proj ns proj =
    prune_scope-kept (of_project pruned_ns pruned_proj) refl scope ns proj

module _ (discard : Grant → Bool) where
  Memᴰ-kept :
      (gs : List Grant) (g : Grant) → Memᴰ g (kept discard gs) → Memᴰ g gs × (discard g ≡ false)
  Memᴰ-kept [] g m = elim m [ ]
  Memᴰ-kept (h ∷ gs) g m = elim (Bool-cases (discard h)) [
    | inl e ↦ let (k, d) = Memᴰ-kept gs g (rw e at m) in (Memᴰ.tail k, d)
    | inr e ↦ spared e (Memᴰ-kept gs g) (rw e at m)
  ]
    where
      spared :
          discard h ≡ false
          → (Memᴰ g (kept discard gs) → Memᴰ g gs × (discard g ≡ false))
          → Memᴰ g (h ∷ kept discard gs)
          → Memᴰ g (h ∷ gs) × (discard g ≡ false)
      spared e ih (Memᴰ.head same) = (Memᴰ.head same, ap discard same ∙ e)
      spared e ih (Memᴰ.tail k) = (Memᴰ.tail ((ih k).0), (ih k).1)

  kept-Memᴰ :
      (gs : List Grant) (g : Grant) → Memᴰ g gs → discard g ≡ false → Memᴰ g (kept discard gs)
  kept-Memᴰ [] g m d = m
  kept-Memᴰ (h ∷ gs) g (Memᴰ.head same) d = rw (ap discard (sym same) ∙ d) (Memᴰ.head same)
  kept-Memᴰ (h ∷ gs) g (Memᴰ.tail k) d = elim (Bool-cases (discard h)) [
    | inl e ↦ rw e (kept-Memᴰ gs g k d)
    | inr e ↦ rw e (Memᴰ.tail (kept-Memᴰ gs g k d))
  ]

-- Pruning a namespace never raises anybody's level at any target, also where it empties the scope.
pub prune_namespace_grants-le :
    (scope pruned_ns ns proj : Text)
    → rank (effective_level (parse_scope (prune_namespace_grants scope pruned_ns).0) ns proj)
      ≤ rank (effective_level (parse_scope scope) ns proj)
prune_namespace_grants-le scope pruned_ns ns proj =
    rw prune_namespace_grants-kept
      (effective_level_mono ns proj _ _ (λ g m _. inl (Memᴰ-kept (of_namespace pruned_ns) _ g m).0))

-- A grant that matches another namespace is not pruned.
spared_elsewhere :
    (pruned_ns ns proj : Text) (g : Grant)
    → ns ≢ []
    → ns ≢ pruned_ns
    → matches g ns proj ≡ true
    → of_namespace pruned_ns g ≡ false
unfolding matches
spared_elsewhere pruned_ns ns proj g named other m =
    ground (arith, text_eq_iff ns [], text_eq_iff g.namespace ns, text_eq_iff g.namespace pruned_ns)

-- Pruning a namespace leaves the level at every other namespace as it was.
pub prune_namespace_grants-elsewhere :
    (scope pruned_ns ns proj : Text)
    → ns ≢ []
    → ns ≢ pruned_ns
    → effective_level (parse_scope (prune_namespace_grants scope pruned_ns).0) ns proj
      ≡ effective_level (parse_scope scope) ns proj
prune_namespace_grants-elsewhere scope pruned_ns ns proj named other = rank_injective ns proj _ _ (
    omega (
      arith,
      prune_namespace_grants-le scope pruned_ns ns proj,
      rw (← prune_namespace_grants-kept scope pruned_ns ns proj) at (
          effective_level_mono ns proj (parse_scope scope)
            (kept (of_namespace pruned_ns) (parse_scope scope))
            (λ g m match. inl (
              kept-Memᴰ (of_namespace pruned_ns) _ g m
                (spared_elsewhere pruned_ns ns proj g named other match)))),
    ))

unspared :
    (ns proj : Text) (g : Grant)
    → ns ≢ []
    → g.wildcard ≡ false
    → of_namespace ns g ≡ false
    → matches g ns proj ≡ false
unfolding matches
unspared ns proj g named scoped spared = ground (arith, text_eq_iff ns [])

-- A principal without a wildcard grant has no access left in a pruned namespace.
pub prune_namespace_grants-revokes :
    (scope ns proj : Text)
    → ns ≢ []
    → ((g : Grant) → Memᴰ g (parse_scope scope) → g.wildcard ≡ false)
    → effective_level (parse_scope (prune_namespace_grants scope ns).0) ns proj ≡ level_none
prune_namespace_grants-revokes scope ns proj named scoped =
    prune_namespace_grants-kept scope ns ns proj
    ∙ elim ((effective_level_greatest ns proj (kept (of_namespace ns) (parse_scope scope))).1) [
      | inl e ↦ e
      | inr (g, k, match, e) ↦
          let (m, spared) = Memᴰ-kept (of_namespace ns) (parse_scope scope) g k in
          absurd (cc (match, unspared ns proj g named (scoped g m) spared))
    ]
