-- ===== src/Oauth/Rescope.antt =====
-- Rewriting the scopes of all token series.
use shoka.Prelude.{
  ℕ, ◌+◌, ◌≡◌, ◌∙◌, refl, sym, ap, Option, none, some, [], ◌∷◌, if◌then◌else◌, Bool-cases, inl, inr,
}
use shoka.Prelude.Assoc.{lookup, Distinct}
use shoka.Text.{Text, text_eq}
use shoka.Text.Keys.{text_key}
use shoka.Text.Laws.{text_eq_iff}
use shoka.Oauth.{SeriesRecord, Bucket, Pointers, Store, Outcome, err, ok}
use shoka.Oauth.Index.{IsIndex}
use shoka.Oauth.Series.{at_rest}
use shoka.Oauth.Linked.{access_hash, refresh_hash, IsLinked}
use shoka.Oauth.Sweeps.{cons_row, rewrite_rows, rewritten_store, rewrite_scopes}

module _ (f : Text → Text) where
  -- The record that a rewrite leaves.
  abbrev pub rescoped : SeriesRecord → SeriesRecord
  rescoped rec =
      if text_eq (f rec.scope) rec.scope then rec else at_rest (record rec { scope = f rec.scope })

  abbrev rescoped_row : Option (Option SeriesRecord) → Option (Option SeriesRecord)
  rescoped_row none = none
  rescoped_row (some none) = some none
  rescoped_row (some (some rec)) = some (some (rescoped rec))

  pub rescoped_lem :
      (rec : SeriesRecord)
      → ((rescoped rec).scope ≡ f rec.scope)
        × ((rescoped rec).series_id ≡ rec.series_id)
        × ((rescoped rec).access_token_hash ≡ rec.access_token_hash)
        × ((rescoped rec).refresh_token_hash ≡ rec.refresh_token_hash)
        × ((rescoped rec).access_expiry ≡ rec.access_expiry)
  unfolding at_rest
  rescoped_lem rec = elim (Bool-cases (text_eq (f rec.scope) rec.scope)) [
    | inl e ↦ rw e (sym ((text_eq_iff _ _).0 e), refl, refl, refl, refl)
    | inr e ↦ rw e (refl, refl, refl, refl, refl)
  ]

  cons_row-eq-ok :
      (sid : Text) (rec : SeriesRecord) (o : Outcome (Bucket SeriesRecord × ℕ))
      (rows : Bucket SeriesRecord) (n : ℕ)
      → cons_row (λ r. text_eq (f r.scope) r.scope) sid rec (record rec { scope = f rec.scope }) o
        ≡ ok (rows, n)
      → (l : Bucket SeriesRecord) × (k : ℕ) × (o ≡ ok (l, k))
        × (rows ≡ (sid, some (rescoped rec)) ∷ l)
  cons_row-eq-ok sid rec (err x) rows n e = cc
  cons_row-eq-ok sid rec (ok (l, k)) rows n e =
      elim (Bool-cases (text_eq (f rec.scope) rec.scope)) [
        | inl same ↦ (
          l,
          k,
          refl,
          let g : ok ((sid, some rec) ∷ l, k) ≡ ok (rows, n) = sym (rw same refl) ∙ e in
              rw same (cc g),
        )
        | inr other ↦ (
          l,
          k,
          refl,
          let g : ok ((sid, some (at_rest (record rec { scope = f rec.scope }))) ∷ l, k + 1)
                  ≡ ok (rows, n) =
                sym (rw other refl) ∙ e in
              rw other (cc g),
        )
      ]

  rewrite_rows-lookup :
      (rows out : Bucket SeriesRecord) (n : ℕ)
      → rewrite_rows f rows ≡ ok (out, n)
      → (sid : Text) → lookup sid out ≡ rescoped_row (lookup sid rows)
  unfolding rewrite_rows lookup
  rewrite_rows-lookup [] out n e sid = let is : [] ≡ out = cc e in rw (← is) refl
  rewrite_rows-lookup ((k, none) ∷ rows) out n e sid = cc
  rewrite_rows-lookup ((k, some rec) ∷ rows) out n e sid =
      let (l, j, rest, is) = cons_row-eq-ok k rec (rewrite_rows f rows) out n e in
      rw is (elim (Bool-cases (text_eq k sid)) [
        | inl same ↦ rw same refl
        | inr other ↦ rw other (rewrite_rows-lookup rows l j rest sid)
      ])

  back :
      (o : Option (Option SeriesRecord)) (r : SeriesRecord)
      → rescoped_row o ≡ some (some r)
      → (rec : SeriesRecord) × (o ≡ some (some rec)) × (rescoped rec ≡ r)
  back none r e = cc
  back (some none) r e = cc
  back (some (some rec)) r e = (rec, refl, cc e)

  none_back : (o : Option (Option SeriesRecord)) → o ≡ none → rescoped_row o ≡ none
  none_back o e = ap rescoped_row e

  rescoped-Distinct :
      (rows out : Bucket SeriesRecord) (n : ℕ)
      → rewrite_rows f rows ≡ ok (out, n)
      → Distinct rows
      → Distinct out
  unfolding rewrite_rows
  rescoped-Distinct [] out n e d = let is : [] ≡ out = cc e in rw (← is) tt
  rescoped-Distinct ((k, none) ∷ rows) out n e d = cc
  rescoped-Distinct ((k, some rec) ∷ rows) out n e d =
      let (l, j, rest, is) = cons_row-eq-ok k rec (rewrite_rows f rows) out n e in
      rw is (
        rewrite_rows-lookup rows l j rest k ∙ ap rescoped_row d.0,
        rescoped-Distinct rows l j rest d.1,
      )

  rescoped-IsIndex :
      (field : SeriesRecord → Text) (rows out : Bucket SeriesRecord) (pointers : Pointers)
      → ((sid : Text) → lookup sid out ≡ rescoped_row (lookup sid rows))
      → ((rec : SeriesRecord) → field (rescoped rec) ≡ field rec)
      → IsIndex field rows pointers
      → IsIndex field out pointers
  rescoped-IsIndex field rows out pointers at same h = record {
    leads = λ k sid e.
        let (rec, row, key) = h.leads k sid e in
        (rescoped rec, at sid ∙ ap rescoped_row row, same rec ∙ key);
    points = λ sid r e.
        let (rec, row, is) = back (lookup sid rows) r (sym (at sid) ∙ e) in
        ap (λ k. lookup k pointers) (sym (ap field is) ∙ same rec) ∙ h.points sid rec row;
    no_empty = h.no_empty;
  }

  -- A rewrite that succeeds leaves a linked store in which every series has its rewritten record.
  pub rewrite_scopes_lem :
      (s : Store) (n : ℕ)
      → IsLinked s
      → (rewrite_scopes f s).0 ≡ ok n
      → IsLinked (rewrite_scopes f s).1
        × ((sid : Text) (r : SeriesRecord)
            → lookup sid (rewrite_scopes f s).1.series ≡ some (some r)
            → (rec : SeriesRecord) × (lookup sid s.series ≡ some (some rec)) × (rescoped rec ≡ r))
  unfolding rewrite_scopes
  rewrite_scopes_lem s n h e = go (rewrite_rows f s.series) refl e
    where
      go :
          (o : Outcome (Bucket SeriesRecord × ℕ))
          → rewrite_rows f s.series ≡ o
          → (rewritten_store s o).0 ≡ ok n
          → IsLinked (rewritten_store s o).1
            × ((sid : Text) (r : SeriesRecord)
                → lookup sid (rewritten_store s o).1.series ≡ some (some r)
                → (rec : SeriesRecord) × (lookup sid s.series ≡ some (some rec))
                  × (rescoped rec ≡ r))
      go (err x) g k = cc
      go (ok (out, j)) g k = (
        record {
          access =
              rescoped-IsIndex access_hash s.series out s.access
                (rewrite_rows-lookup s.series out j g) (λ rec. (rescoped_lem rec).2) h.access;
          refresh =
              rescoped-IsIndex refresh_hash s.series out s.refresh
                (rewrite_rows-lookup s.series out j g) (λ rec. (rescoped_lem rec).3) h.refresh;
          own_id = λ sid r q.
              let (rec, row, is) =
                back (lookup sid s.series) r (sym (rewrite_rows-lookup s.series out j g sid) ∙ q) in
              sym (ap (λ (x : SeriesRecord). x.series_id) is)
              ∙ (rescoped_lem rec).1
              ∙ h.own_id sid rec row;
          rows = rescoped-Distinct s.series out j g h.rows;
        },
        λ sid r q.
            back (lookup sid s.series) r (sym (rewrite_rows-lookup s.series out j g sid) ∙ q),
      )

  -- Every series that a rewrite leaves has the rewritten scope of the one before.
  pub rewrite_scopes_found :
      (s : Store) (n : ℕ)
      → (rewrite_scopes f s).0 ≡ ok n
      → (sid : Text) (rec : SeriesRecord)
      → lookup sid (rewrite_scopes f s).1.series ≡ some (some rec)
      → (was : SeriesRecord) × (lookup sid s.series ≡ some (some was)) × (rec.scope ≡ f was.scope)
  unfolding rewrite_scopes
  rewrite_scopes_found s n e sid rec = go (rewrite_rows f s.series) refl e
    where
      go :
          (o : Outcome (Bucket SeriesRecord × ℕ))
          → rewrite_rows f s.series ≡ o
          → (rewritten_store s o).0 ≡ ok n
          → lookup sid (rewritten_store s o).1.series ≡ some (some rec)
          → (was : SeriesRecord) × (lookup sid s.series ≡ some (some was))
            × (rec.scope ≡ f was.scope)
      go (err x) g k q = cc
      go (ok (out, j)) g k q =
          let (was, row, is) =
            back (lookup sid s.series) rec (sym (rewrite_rows-lookup s.series out j g sid) ∙ q) in
          (was, row, sym (ap (λ (x : SeriesRecord). x.scope) is) ∙ (rescoped_lem was).0)

  -- A rewrite that succeeds keeps every series.
  pub rewrite_scopes_kept :
      (s : Store) (n : ℕ)
      → (rewrite_scopes f s).0 ≡ ok n
      → (sid : Text) (was : SeriesRecord) → lookup sid s.series ≡ some (some was)
      → (rec : SeriesRecord) × (lookup sid (rewrite_scopes f s).1.series ≡ some (some rec))
        × (rec.scope ≡ f was.scope)
  unfolding rewrite_scopes
  rewrite_scopes_kept s n e sid was = go (rewrite_rows f s.series) refl e
    where
      go :
          (o : Outcome (Bucket SeriesRecord × ℕ))
          → rewrite_rows f s.series ≡ o
          → (rewritten_store s o).0 ≡ ok n
          → lookup sid s.series ≡ some (some was)
          → (rec : SeriesRecord) × (lookup sid (rewritten_store s o).1.series ≡ some (some rec))
            × (rec.scope ≡ f was.scope)
      go (err x) g k q = cc
      go (ok (out, j)) g k q = (
        rescoped was,
        rewrite_rows-lookup s.series out j g sid ∙ ap rescoped_row q,
        (rescoped_lem was).0,
      )
