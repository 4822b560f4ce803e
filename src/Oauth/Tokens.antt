-- ===== src/Oauth/Tokens.antt =====
-- Which access tokens the store accepts: the lookup of a token against the rows, after a rotation
-- and after a sweep.
use shoka.Prelude.{
  ℕ, ◌≡◌, ◌∙◌, ◌↔◌, refl, sym, ap, Bool, false, some, List, ltb, Bool-cases, inl, inr,
}
use shoka.Prelude.Assoc.{lookup}
use shoka.Text.{Text}
use shoka.Text.Keys.{text_key}
use shoka.Oauth.{SeriesRecord, Store, expired, Outcome, err, ok, Calls}
use shoka.Oauth.Series.{hash_handle, resolve, if_alive, lookup_token}
use shoka.Oauth.Linked.{access_hash, IsLinked, resolve_iff}
use shoka.Oauth.Sweeps.{collect, delete_all, swept}
use shoka.Oauth.Swept.{sweep_iff}

-- The token is that of a stored series, and its access has not expired.
abbrev pub IsHeld : Calls → Text → ℕ → Store → SeriesRecord → Type 0
IsHeld c token now s rec =
    (sid : Text) × (lookup sid s.series ≡ some (some rec))
    × (rec.access_token_hash ≡ hash_handle c token)
    × (ltb rec.access_expiry now ≡ false)

if_alive-eq-ok :
    (c : Calls) (now : ℕ) (o : Outcome SeriesRecord) (rec : SeriesRecord)
    → if_alive c now o ≡ ok rec
    → (o ≡ ok rec) × (ltb rec.access_expiry now ≡ false)
if_alive-eq-ok c now (err e) rec f = cc
if_alive-eq-ok c now (ok found) rec f = elim (Bool-cases (ltb found.access_expiry now)) [
  | inl late ↦ absurd (
      let bad : ◌≡◌ {A = Outcome SeriesRecord} (err expired) (ok rec) = sym (rw late refl) ∙ f in
      cc bad)
  | inr early ↦
      let is : ok found ≡ ok rec = sym (rw early refl) ∙ f in
      let rec_is : found ≡ rec = cc is in
      (is, ap (λ (r : SeriesRecord). ltb r.access_expiry now) (sym rec_is) ∙ early)
]

module _ (c : Calls) where
  -- On a linked store, the lookup of an access token by its pointer finds exactly what a search of
  -- all series would: it accepts the token exactly where a stored series holds its hash and its
  -- access has not expired, and answers that series.
  pub lookup_token_iff :
      (token : Text) (now : ℕ) (s : Store) (rec : SeriesRecord)
      → IsLinked s
      → (lookup_token c token now s ≡ ok rec) ↔ IsHeld c token now s rec
  unfolding lookup_token
  lookup_token_iff token now s rec h =
      let held = resolve_iff access_hash s.series s.access h.access (hash_handle c token) rec in
      (
        λ e.
            let (found, alive) =
              if_alive-eq-ok c now (resolve s.series s.access (hash_handle c token) access_hash) rec
                e in
            let (sid, row, same) = held.0 found in (sid, row, same, alive),
        λ x. rw (held.1 (x.0, x.1, x.2)) (rw x.3 refl),
      )

  -- A lookup reads the rows and the access pointers only.
  pub lookup_token_reads :
      (token : Text) (now : ℕ) (s t : Store)
      → t.series ≡ s.series
      → t.access ≡ s.access
      → lookup_token c token now t ≡ lookup_token c token now s
  unfolding lookup_token
  lookup_token_reads token now s t e a = rw (e, a) refl

  pub swept-lookup_token :
      (test : SeriesRecord → Bool) (s : Store) (n : ℕ)
      → IsLinked s
      → (swept s (collect test s.series)).0 ≡ ok n
      → (token : Text) (now : ℕ) (rec : SeriesRecord)
      → (lookup_token c token now (swept s (collect test s.series)).1 ≡ ok rec)
        ↔ ((lookup_token c token now s ≡ ok rec) × (test rec ≡ false))
  swept-lookup_token test s n h e token now rec = go (collect test s.series) refl e
    where
      go :
          (o : Outcome (List SeriesRecord))
          → collect test s.series ≡ o
          → (swept s o).0 ≡ ok n
          → (lookup_token c token now (swept s o).1 ≡ ok rec)
            ↔ ((lookup_token c token now s ≡ ok rec) × (test rec ≡ false))
      go (err x) f g = cc
      go (ok dead) f g =
          let (linked, left) = sweep_iff test s dead h f in
          let after = lookup_token_iff token now (delete_all dead s) rec linked in
          let before = lookup_token_iff token now s rec h in
          (
            λ k.
                let (sid, row, same, alive) = after.0 k in
                let (was, spared) = (left sid rec).0 row in
                (before.1 (sid, was, same, alive), spared),
            λ x.
                let (sid, row, same, alive) = before.0 x.0 in
                after.1 (sid, (left sid rec).1 (row, x.1), same, alive),
          )
