-- ===== src/Authz/Effective.antt =====
-- EffectiveLevel by the matching grants, and what Authorize decides by it.
use mathlib.Core.List.{Memᴰ}
use shoka.Prelude.{
  ◌≤◌, ◌≡◌, refl, ◌↔◌, ◌⊎◌, inl, inr, true, ◌&&◌, none, List, [], ◌∷◌, ltb, if◌then◌else◌, arith,
  ap, ◌∙◌,
}
use shoka.Text.{Text}
use shoka.Authz.{
  Level, level_none, rank, Grant, parse_scope, matches, max_level, effective_level, authorize,
}

module _ (ns proj : Text) where
  abbrev pub better : Level → Grant → Level
  better m g = if matches g ns proj && ltb (rank m) (rank g.level) then g.level else m

  pub le-max_level : (m : Level) (gs : List Grant) → rank m ≤ rank (max_level m gs ns proj)
  unfolding max_level
  le-max_level m [] = omega arith
  le-max_level m (g ∷ gs) = ground (arith, le-max_level (better m g) gs)

  level-le-max_level :
      (m : Level) (gs : List Grant) (g : Grant)
      → Memᴰ g gs
      → matches g ns proj ≡ true
      → rank g.level ≤ rank (max_level m gs ns proj)
  unfolding max_level
  level-le-max_level m [] g k match = elim k [ ]
  level-le-max_level m (h ∷ gs) g (Memᴰ.head e) match =
      rw e (ground (arith, le-max_level (better m h) gs, ap (λ x. matches x ns proj) e))
  level-le-max_level m (h ∷ gs) g (Memᴰ.tail k) match = level-le-max_level (better m h) gs g k match

  better-cases :
      (m : Level) (g : Grant)
      → (better m g ≡ m) ⊎ ((matches g ns proj ≡ true) × (better m g ≡ g.level))
  better-cases m g = ground arith

  max_level_attained :
      (m : Level) (gs : List Grant)
      → (max_level m gs ns proj ≡ m)
        ⊎ ((g : Grant) × Memᴰ g gs
            × (matches g ns proj ≡ true)
            × (max_level m gs ns proj ≡ g.level))
  unfolding max_level
  max_level_attained m [] = inl refl
  max_level_attained m (g ∷ gs) = elim (max_level_attained (better m g) gs) [
    | inl e ↦ elim (better-cases m g) [
      | inl same ↦ inl (e ∙ same)
      | inr (match, rose) ↦ inr (g, Memᴰ.head refl, match, e ∙ rose)
    ]
    | inr (h, k, match, e) ↦ inr (h, Memᴰ.tail k, match, e)
  ]

  -- The effective level is at least the level of every matching grant, and it is that of one of
  -- them, or none where it is no access.
  pub effective_level_greatest :
      (gs : List Grant)
      → ((g : Grant)
          → Memᴰ g gs
          → matches g ns proj ≡ true
          → rank g.level ≤ rank (effective_level gs ns proj))
        × ((effective_level gs ns proj ≡ level_none)
            ⊎ ((g : Grant) × Memᴰ g gs
                × (matches g ns proj ≡ true)
                × (effective_level gs ns proj ≡ g.level)))
  unfolding effective_level
  effective_level_greatest gs =
      (λ g k match. level-le-max_level level_none gs g k match, max_level_attained level_none gs)

  pub rank_injective : (a b : Level) → rank a ≡ rank b → a ≡ b
  rank_injective a b h = ground arith

  -- Grants that give no more to a target give no higher effective level.
  pub effective_level_mono :
      (gs hs : List Grant)
      → ((g : Grant) → Memᴰ g gs → matches g ns proj ≡ true → Memᴰ g hs ⊎ (g.level ≡ level_none))
      → rank (effective_level gs ns proj) ≤ rank (effective_level hs ns proj)
  effective_level_mono gs hs sub = elim ((effective_level_greatest gs).1) [
    | inl e ↦ rw e (omega arith)
    | inr (g, k, match, e) ↦ rw e (elim (sub g k match) [
      | inl k' ↦ (effective_level_greatest hs).0 g k' match
      | inr lowest ↦ rw lowest (omega arith)
    ])
  ]

-- Authorize allows an access exactly when nothing is required, or a grant of the parsed scope
-- matches the target at the required level or above.
pub authorize_iff :
    (scope ns proj : Text) (required : Level)
    → (authorize scope ns proj required ≡ none) ↔ (
        (required ≡ level_none)
        ⊎ ((g : Grant) × Memᴰ g (parse_scope scope)
            × (matches g ns proj ≡ true)
            × (rank required ≤ rank g.level)))
unfolding authorize
authorize_iff scope ns proj required = (allowed, granted)
  where
    level : Level
    level = effective_level (parse_scope scope) ns proj

    allowed :
        authorize scope ns proj required ≡ none
        → (required ≡ level_none)
          ⊎ ((g : Grant) × Memᴰ g (parse_scope scope)
              × (matches g ns proj ≡ true)
              × (rank required ≤ rank g.level))
    allowed h = elim ((effective_level_greatest ns proj (parse_scope scope)).1) [
      | inl e ↦ inl (ground arith)
      | inr (g, k, match, e) ↦ inr (g, k, match, ground arith)
    ]

    granted :
        (required ≡ level_none)
          ⊎ ((g : Grant) × Memᴰ g (parse_scope scope)
              × (matches g ns proj ≡ true)
              × (rank required ≤ rank g.level))
        → authorize scope ns proj required ≡ none
    granted (inl e) = ground arith
    granted (inr (g, k, match, le)) =
        ground (arith, (effective_level_greatest ns proj (parse_scope scope)).0 g k match)
