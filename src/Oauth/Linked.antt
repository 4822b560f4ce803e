-- ===== src/Oauth/Linked.antt =====
-- The buckets of the token series agree with each other.
use shoka.Prelude.{◌≡◌, ◌∙◌, ◌↔◌, refl, sym, ap, Option, none, some, Bool-cases, inl, inr}
use shoka.Prelude.Assoc.{lookup, Distinct, Distinct-remove}
use shoka.Prelude.Lookup.{found-remove}
use shoka.Text.{Text, text_eq}
use shoka.Text.Keys.{text_key}
use shoka.Text.Laws.{text_eq_iff, text_eq_refl}
use shoka.Oauth.{SeriesRecord, Bucket, Pointers, Store, Outcome, err, ok, not_found}
use shoka.Oauth.Index.{IsIndex, remove-IsIndex}
use shoka.Oauth.Series.{delete_series, resolve_row, resolve_in, resolve}

abbrev pub access_hash : SeriesRecord → Text
access_hash rec = rec.access_token_hash

abbrev pub refresh_hash : SeriesRecord → Text
refresh_hash rec = rec.refresh_token_hash

-- The pointers and the rows belong to each other, and a row stands under its own id, once.
pub record IsLinked (s : Store) : Type 0 where
  pub access : IsIndex access_hash s.series s.access
  pub refresh : IsIndex refresh_hash s.series s.refresh
  pub own_id :
      (sid : Text) (rec : SeriesRecord)
      → lookup sid s.series ≡ some (some rec)
      → rec.series_id ≡ sid
  pub rows : Distinct s.series

resolve_row-eq-ok :
    (key : Text) (field : SeriesRecord → Text) (o : Option (Option SeriesRecord))
    (rec : SeriesRecord)
    → resolve_row key field o ≡ ok rec
    → (o ≡ some (some rec)) × (field rec ≡ key)
resolve_row-eq-ok key field none rec e = cc
resolve_row-eq-ok key field (some none) rec e = cc
resolve_row-eq-ok key field (some (some found)) rec e =
    elim (Bool-cases (text_eq (field found) key)) [
      | inl same ↦
          let is : ok found ≡ ok rec = sym (rw same refl) ∙ e in
          let rec_is : found ≡ rec = cc is in
          (ap (λ r. some (some r)) rec_is, sym (ap field rec_is) ∙ (text_eq_iff _ _).0 same)
      | inr other ↦ absurd (
          let bad : ◌≡◌ {A = Outcome SeriesRecord} (err not_found) (ok rec) =
            sym (rw other refl) ∙ e in
          cc bad)
    ]

-- A handle resolves exactly to the series that holds its hash.
pub resolve_iff :
    (field : SeriesRecord → Text) (rows : Bucket SeriesRecord) (pointers : Pointers)
    → IsIndex field rows pointers
    → (key : Text) (rec : SeriesRecord)
    → (resolve rows pointers key field ≡ ok rec)
      ↔ ((sid : Text) × (lookup sid rows ≡ some (some rec)) × (field rec ≡ key))
unfolding resolve
resolve_iff field rows pointers h key rec =
    (λ e. from (lookup key pointers) refl e, λ x. to x.0 x.1 x.2)
  where
    from :
        (o : Option Text)
        → lookup key pointers ≡ o
        → resolve_in rows key field o ≡ ok rec
        → (sid : Text) × (lookup sid rows ≡ some (some rec)) × (field rec ≡ key)
    from none f e = cc
    from (some sid) f e =
        let (row, same) = resolve_row-eq-ok key field (lookup sid rows) rec e in (sid, row, same)

    to :
        (sid : Text)
        → lookup sid rows ≡ some (some rec)
        → field rec ≡ key
        → resolve_in rows key field (lookup key pointers) ≡ ok rec
    to sid row same =
        let there : lookup key pointers ≡ some sid =
          ap (λ k. lookup k pointers) (sym same) ∙ h.points sid rec row in
        rw there (rw row (rw same (rw (text_eq_refl key) refl)))

pub delete_series-IsLinked :
    (rec : SeriesRecord) (s : Store)
    → IsLinked s
    → lookup rec.series_id s.series ≡ some (some rec)
    → IsLinked (delete_series rec s)
unfolding delete_series
delete_series-IsLinked rec s h there = record {
  access = remove-IsIndex access_hash s.series s.access h.access rec.series_id rec there;
  refresh = remove-IsIndex refresh_hash s.series s.refresh h.refresh rec.series_id rec there;
  own_id =
      λ sid other e. h.own_id sid other (found-remove rec.series_id sid (some other) s.series e).1;
  rows = Distinct-remove rec.series_id s.series h.rows;
}
