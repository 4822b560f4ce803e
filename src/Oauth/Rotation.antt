-- ===== src/Oauth/Rotation.antt =====
-- pkg/oauthstore/oauthstore.go, Rotate: which tokens are accepted after a rotation.
use shoka.Prelude.{
  ℕ, ◌≡◌, ◌≢◌, ◌∙◌, ◌↔◌, ◌⊎◌, refl, sym, ap, false, Option, none, some, ltb, Bool-cases, inl, inr,
}
use shoka.Prelude.Assoc.{lookup, put, remove}
use shoka.Prelude.Lookup.{put_same, put_other, found-put, remove_same}
use shoka.Text.{Text}
use shoka.Text.Keys.{text_key}
use shoka.Oauth.{SeriesRecord, Store, not_found, expired, Outcome, err, ok, Calls}
use shoka.Oauth.Series.{
  hash_handle, at_rest, drop_old, put_series, resolve, resolve_in, renewed, rotated, rotate_with,
  rotate_found, rotate, lookup_token,
}
use shoka.Oauth.Linked.{access_hash, refresh_hash, IsLinked}
use shoka.Oauth.Issue.{put_series-eq-some, dropped}
use shoka.Oauth.Lifecycle.{IsFresh, resolved_row, rotate-IsLinked_step}
use shoka.Oauth.Tokens.{lookup_token_iff}

module _ (c : Calls) where
  rotate_with-eq-ok :
      (was : SeriesRecord) (key a r : Text) (now at rt : ℕ) (s : Store) (rec : SeriesRecord)
      → (rotate_with c was key (some a) (some r) now at rt s).0 ≡ ok rec
      → (t : Store) × ((rotate_with c was key (some a) (some r) now at rt s).1 ≡ t)
        × (rec ≡ renewed c was a r now at rt)
        × (put_series rec was.access_token_hash key s ≡ some t)
  rotate_with-eq-ok was key a r now at rt s rec e =
      go (put_series (renewed c was a r now at rt) was.access_token_hash key s) refl e
    where
      new : SeriesRecord
      new = renewed c was a r now at rt

      go :
          (o : Option Store)
          → put_series new was.access_token_hash key s ≡ o
          → (rotated c s new o).0 ≡ ok rec
          → (t : Store) × ((rotated c s new o).1 ≡ t)
            × (rec ≡ new)
            × (put_series rec was.access_token_hash key s ≡ some t)
      go none f g = cc
      go (some t) f g =
          let is : new ≡ rec = cc g in
          (t, refl, sym is, ap (λ x. put_series x was.access_token_hash key s) (sym is) ∙ f)

  -- What a rotation that succeeds has found and stored.
  pub rotate-eq-ok :
      (old a r : Text) (now at rt : ℕ) (s : Store) (rec : SeriesRecord)
      → IsLinked s
      → (rotate c old (some a) (some r) now at rt s).0 ≡ ok rec
      → (was : SeriesRecord) × (t : Store) × ((rotate c old (some a) (some r) now at rt s).1 ≡ t)
        × (lookup was.series_id s.series ≡ some (some was))
        × (was.refresh_token_hash ≡ hash_handle c old)
        × (rec ≡ renewed c was a r now at rt)
        × (put_series rec was.access_token_hash (hash_handle c old) s ≡ some t)
  unfolding rotate
  rotate-eq-ok old a r now at rt s rec h e =
      go (resolve s.series s.refresh (hash_handle c old) refresh_hash) refl e
    where
      key : Text
      key = hash_handle c old

      go :
          (o : Outcome SeriesRecord)
          → resolve s.series s.refresh key refresh_hash ≡ o
          → (rotate_found c key (some a) (some r) now at rt s o).0 ≡ ok rec
          → (was : SeriesRecord) × (t : Store) × ((rotate_found c key
                (some a)
                (some r)
                now
                at
                rt
                s
                o).1
              ≡ t)
            × (lookup was.series_id s.series ≡ some (some was))
            × (was.refresh_token_hash ≡ key)
            × (rec ≡ renewed c was a r now at rt)
            × (put_series rec was.access_token_hash key s ≡ some t)
      go (err x) f g = cc
      go (ok was) f g = elim (Bool-cases (ltb was.refresh_expiry now)) [
        | inl late ↦ absurd (
            let bad : ◌≡◌ {A = Outcome SeriesRecord} (err expired) (ok rec) =
              sym (rw late refl) ∙ g in
            cc bad)
        | inr early ↦
            let (row, same) = resolved_row c s h key was f in
            let (t, is, rec_is, put_is) =
              rotate_with-eq-ok was key a r now at rt s rec (sym (rw early refl) ∙ g) in
            (was, t, rw early is, row, same, rec_is, put_is)
      ]

-- The store after a rotation.
abbrev pub after : Calls → Text → Text → Text → ℕ → ℕ → ℕ → Store → Store
after c old a r now at rt s = (rotate c old (some a) (some r) now at rt s).1

-- The new access token, before it expires, and the record that is stored.
abbrev pub IsNew : Calls → Text → SeriesRecord → Text → ℕ → SeriesRecord → Type 0
IsNew c a rec token later x =
    (x ≡ at_rest rec)
    × (hash_handle c a ≡ hash_handle c token)
    × (ltb rec.access_expiry later ≡ false)

module _ (c : Calls) (old a r : Text) (now at rt : ℕ) (s : Store) (rec : SeriesRecord)
    (h : IsLinked s) (fresh_a : IsFresh c s.access (some a))
    (fresh_r : IsFresh c s.refresh (some r))
    (done : (rotate c old (some a) (some r) now at rt s).0 ≡ ok rec) where
  after-IsLinked : IsLinked (after c old a r now at rt s)
  after-IsLinked = rotate-IsLinked_step c old (some a) (some r) now at rt s h fresh_a fresh_r

  -- What the rotation leaves of the rows, of the pointers and of the hashes.
  after_lem :
      ((after c old a r now at rt s).series ≡ put rec.series_id (some (at_rest rec)) s.series)
      × (lookup (hash_handle c old) (after c old a r now at rt s).refresh ≡ none)
      × (rec.access_token_hash ≡ hash_handle c a)
      × ((was : SeriesRecord) × (lookup rec.series_id s.series ≡ some (some was)))
  after_lem =
      let (was, t, is, row, same, rec_is, put_is) = rotate-eq-ok c old a r now at rt s rec h done in
      let (t_is, fa, fr) =
        put_series-eq-some rec was.access_token_hash (hash_handle c old) s t put_is in
      let id_is : rec.series_id ≡ was.series_id = ap (λ (x : SeriesRecord). x.series_id) rec_is in
      let r_is : rec.refresh_token_hash ≡ hash_handle c r =
        ap (λ (x : SeriesRecord). x.refresh_token_hash) rec_is in
      let fresh : lookup rec.refresh_token_hash s.refresh ≡ none =
        ap (λ k. lookup k s.refresh) r_is ∙ fresh_r r refl in
      let there : lookup (hash_handle c old) s.refresh ≡ some was.series_id =
        ap (λ k. lookup k s.refresh) (sym same) ∙ h.refresh.points was.series_id was row in
      let cut : drop_old (hash_handle c old) rec.refresh_token_hash s.refresh
          ≡ remove (hash_handle c old) s.refresh =
        ap (λ x. drop_old x rec.refresh_token_hash s.refresh) (sym same)
        ∙ dropped refresh_hash s.series s.refresh h.refresh was.series_id was rec row fresh
        ∙ ap (λ x. remove x s.refresh) same in
      let apart : rec.refresh_token_hash ≢ hash_handle c old =
        λ e. let gone = ap (λ k. lookup k s.refresh) e in cc (gone, fresh, there) in
      (
        ap (λ (x : Store). x.series) (is ∙ t_is),
        ap (λ (x : Store). lookup (hash_handle c old) x.refresh) (is ∙ t_is)
            ∙ ap (λ b. lookup (hash_handle c old) (put rec.refresh_token_hash rec.series_id b)) cut
            ∙ put_other rec.refresh_token_hash (hash_handle c old) rec.series_id
                (remove (hash_handle c old) s.refresh) apart
            ∙ remove_same (hash_handle c old) s.refresh,
        ap (λ (x : SeriesRecord). x.access_token_hash) rec_is,
        (was, ap (λ k. lookup k s.series) id_is ∙ row),
      )

  at_rest_lem :
      (access_hash (at_rest rec) ≡ rec.access_token_hash)
      × ((at_rest rec).access_expiry ≡ rec.access_expiry)
  unfolding at_rest
  at_rest_lem = (refl, refl)

  -- After a rotation that succeeds on a linked store, with handles whose hashes are new, an access
  -- token is accepted exactly where it is the new one, with the new record and until it expires, or
  -- was accepted before for another series: the old access token no longer is.
  pub rotate-lookup_token :
      (token : Text) (later : ℕ) (x : SeriesRecord)
      → (lookup_token c token later (after c old a r now at rt s) ≡ ok x) ↔ (
          IsNew c a rec token later x
          ⊎ ((lookup_token c token later s ≡ ok x) × (x.series_id ≢ rec.series_id)))
  rotate-lookup_token token later x =
      let post = lookup_token_iff c token later (after c old a r now at rt s) x after-IsLinked in
      let pre = lookup_token_iff c token later s x h in
      let (rows, _, hash_is, _) = after_lem in
      let (rest_hash, rest_expiry) = at_rest_lem in
      (
        λ e.
            let (sid, row, same, alive) = post.0 e in
            elim (found-put rec.series_id sid (some (at_rest rec)) (some x) s.series
              (sym (ap (lookup sid) rows) ∙ row)) [
                | inl (own, is) ↦
                    let x_is : at_rest rec ≡ x = cc is in
                    inl (
                      sym x_is,
                      sym (rest_hash ∙ hash_is) ∙ ap access_hash x_is ∙ same,
                      ap (λ n. ltb n later)
                            (sym rest_expiry ∙ ap (λ (y : SeriesRecord). y.access_expiry) x_is)
                          ∙ alive,
                    )
                | inr (other, found) ↦
                    inr (pre.1 (sid, found, same, alive), λ e. other (sym e ∙ h.own_id sid x found))
              ],
        λ o. elim o [
          | inl (x_is, same, alive) ↦ post.1 (
            rec.series_id,
            ap (lookup rec.series_id) rows
                ∙ put_same rec.series_id (some (at_rest rec)) s.series
                ∙ ap (λ y. some (some y)) (sym x_is),
            ap access_hash x_is ∙ rest_hash ∙ hash_is ∙ same,
            ap (λ n. ltb n later) (ap (λ (y : SeriesRecord). y.access_expiry) x_is ∙ rest_expiry)
                ∙ alive,
          )
          | inr (e, other) ↦
              let (sid, found, same, alive) = pre.0 e in
              post.1 (
                sid,
                ap (lookup sid) rows
                    ∙ put_other rec.series_id sid (some (at_rest rec)) s.series
                        (λ f. other (h.own_id sid x found ∙ sym f))
                    ∙ found,
                same,
                alive,
              )
        ],
      )

  -- After a rotation that succeeds on a linked store, with handles whose hashes are new, the old
  -- refresh token is refused as unknown and the attempt changes nothing.
  pub rotate-rotate :
      (access refresh : Option Text) (later at_again rt_again : ℕ)
      → rotate c old access refresh later at_again rt_again (after c old a r now at rt s)
        ≡ (err not_found, (after c old a r now at rt s))
  unfolding rotate resolve
  rotate-rotate access refresh later at_again rt_again =
      ap
        (λ o.
          rotate_found c (hash_handle c old) access refresh later at_again rt_again
            (after c old a r now at rt s)
            (resolve_in (after c old a r now at rt s).series (hash_handle c old) refresh_hash o))
        after_lem.1
