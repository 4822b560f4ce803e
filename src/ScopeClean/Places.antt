-- ===== src/ScopeClean/Places.antt =====
-- internal/scopeclean: the places at which the stores of a cascade hold scopes.
use shoka.Prelude.{◌≡◌, ◌≢◌, ◌∙◌, ◌⊎◌, inl, inr, refl, sym, ap, Option, none, some}
use shoka.Prelude.Assoc.{lookup}
use shoka.Text.{Text}
use shoka.Text.Keys.{text_key}
use shoka.Users
use shoka.Oauth
use shoka.ScopeClean.{Cleaner}

-- Where a scope is stored: with an account, an invitation or a token series, under its key.
pub data Place : Type 0 where
  account invitation token : Text → Place

-- The scope that a store has at a place.
abbrev pub Stores : Cleaner → Place → Text → Type 0
Stores c (account k) scope =
    (s : Users.Store) × (rec : Users.UserRecord) × (c.users ≡ some s)
    × (lookup k s.users ≡ some (some rec))
    × (rec.scope ≡ scope)
Stores c (invitation k) scope =
    (s : Users.Store) × (rec : Users.InviteRecord) × (c.users ≡ some s)
    × (lookup k s.invites ≡ some (some rec))
    × (rec.scope ≡ scope)
Stores c (token sid) scope =
    (s : Oauth.Store) × (rec : Oauth.SeriesRecord) × (c.tokens ≡ some s)
    × (lookup sid s.series ≡ some (some rec))
    × (rec.scope ≡ scope)

-- A store holds a scope at the place.
abbrev pub IsUsed : Cleaner → Place → Type 0
IsUsed c place = (scope : Text) × Stores c place scope

-- A record that a store holds under a key, where there is a store.
abbrev HoldsRow : {S A : Type 0} → Option S → (S → Option (Option A)) → Type 0
HoldsRow {S = S} {A = A} o look = (s : S) × (rec : A) × (o ≡ some s) × (look s ≡ some (some rec))

row_or_not :
    {S A : Type 0} (o : Option S) (look : S → Option (Option A))
    → HoldsRow o look ⊎ (¬ HoldsRow o look)
row_or_not none look = inr (λ (s, rec, here, row). cc here)
row_or_not {S = S} {A = A} (some s) look = by (look s) refl
  where
    absent :
        (r : Option (Option A))
        → look s ≡ r
        → ((rec : A) → r ≢ some (some rec))
        → ¬ HoldsRow (some s) look
    absent r e n (t, rec, here, row) =
        let same : s ≡ t = cc here in n rec (sym e ∙ ap look same ∙ row)

    by : (r : Option (Option A)) → look s ≡ r → HoldsRow (some s) look ⊎ (¬ HoldsRow (some s) look)
    by none e = inr (absent none e (λ rec k. cc k))
    by (some none) e = inr (absent (some none) e (λ rec k. cc k))
    by (some (some rec)) e = inl (s, rec, refl, e)

pub IsUsed-or_not : (c : Cleaner) (place : Place) → IsUsed c place ⊎ (¬ IsUsed c place)
IsUsed-or_not c (account k) = elim (row_or_not c.users (λ s. lookup k s.users)) [
  | inl (s, rec, here, row) ↦ inl (rec.scope, (s, rec, here, row, refl))
  | inr n ↦ inr (λ (scope, (s, rec, here, row, of)). n (s, rec, here, row))
]
IsUsed-or_not c (invitation k) = elim (row_or_not c.users (λ s. lookup k s.invites)) [
  | inl (s, rec, here, row) ↦ inl (rec.scope, (s, rec, here, row, refl))
  | inr n ↦ inr (λ (scope, (s, rec, here, row, of)). n (s, rec, here, row))
]
IsUsed-or_not c (token sid) = elim (row_or_not c.tokens (λ s. lookup sid s.series)) [
  | inl (s, rec, here, row) ↦ inl (rec.scope, (s, rec, here, row, refl))
  | inr n ↦ inr (λ (scope, (s, rec, here, row, of)). n (s, rec, here, row))
]
