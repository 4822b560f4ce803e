-- ===== src/Oauth/Issue.antt =====
-- Issuing and rotating a token pair, on linked buckets.
use mathlib.Core.Path.{subst}
use shoka.Prelude.{◌≡◌, ◌≢◌, ◌∙◌, refl, sym, ap, Option, none, some, [], Bool-cases, inl, inr}
use shoka.Prelude.Assoc.{lookup, put, remove, Distinct-put}
use shoka.Prelude.Lookup.{found-put}
use shoka.Text.{Text, text_eq}
use shoka.Text.Buckets.{bucket_put-eq-some}
use shoka.Text.Keys.{text_key}
use shoka.Text.Laws.{text_eq_iff}
use shoka.Oauth.{SeriesRecord, Bucket, Pointers, Store, bucket_put}
use shoka.Oauth.Index.{IsIndex, put-IsIndex, replace-IsIndex}
use shoka.Oauth.Series.{at_rest, drop_old, put_pointers, put_row, put_series}
use shoka.Oauth.Linked.{IsLinked, access_hash, refresh_hash}

-- The store that a successful put leaves.
abbrev pub put_store : SeriesRecord → Pointers → Pointers → Store → Store
put_store rec access refresh s = record s {
  series = put rec.series_id (some (at_rest rec)) s.series;
  access = put rec.access_token_hash rec.series_id access;
  refresh = put rec.refresh_token_hash rec.series_id refresh;
}

pub put_series-eq-some :
    (rec : SeriesRecord) (oa or : Text) (s t : Store)
    → put_series rec oa or s ≡ some t
    → (t
        ≡ put_store rec
            (drop_old oa rec.access_token_hash s.access)
            (drop_old or rec.refresh_token_hash s.refresh)
            s)
      × (rec.access_token_hash ≢ [])
      × (rec.refresh_token_hash ≢ [])
unfolding put_series
put_series-eq-some rec oa or s t e =
    rows (bucket_put rec.series_id (some (at_rest rec)) s.series) refl e
  where
    a : Pointers
    a = drop_old oa rec.access_token_hash s.access

    r : Pointers
    r = drop_old or rec.refresh_token_hash s.refresh

    Done : Type 0
    Done = (t ≡ put_store rec a r s) × (rec.access_token_hash ≢ []) × (rec.refresh_token_hash ≢ [])

    both :
        (b : Bucket SeriesRecord)
        → bucket_put rec.series_id (some (at_rest rec)) s.series ≡ some b
        → (x y : Option Pointers) → bucket_put rec.access_token_hash rec.series_id a ≡ x
        → bucket_put rec.refresh_token_hash rec.series_id r ≡ y
        → put_pointers rec s b x y ≡ some t
        → Done
    both b f none y g k e = cc
    both b f (some x) none g k e = cc
    both b f (some x) (some y) g k e =
        let (is_b, _) = bucket_put-eq-some rec.series_id (some (at_rest rec)) s.series b f in
        let (is_x, fa) = bucket_put-eq-some rec.access_token_hash rec.series_id a x g in
        let (is_y, fr) = bucket_put-eq-some rec.refresh_token_hash rec.series_id r y k in
        let is : record s { series = b; access = x; refresh = y } ≡ t = cc e in
        let same : record s { series = b; access = x; refresh = y } ≡ put_store rec a r s =
          rw (is_b, is_x, is_y) refl in
        (sym is ∙ same, fa, fr)

    rows :
        (o : Option (Bucket SeriesRecord))
        → bucket_put rec.series_id (some (at_rest rec)) s.series ≡ o
        → put_row rec oa or s o ≡ some t
        → Done
    rows none f e = cc
    rows (some b) f e =
        both b f (bucket_put rec.access_token_hash rec.series_id a)
          (bucket_put rec.refresh_token_hash rec.series_id r) refl refl e

field-at_rest :
    (rec : SeriesRecord)
    → (access_hash (at_rest rec) ≡ rec.access_token_hash)
      × (refresh_hash (at_rest rec) ≡ rec.refresh_token_hash)
      × ((at_rest rec).series_id ≡ rec.series_id)
unfolding at_rest
field-at_rest rec = (refl, refl, refl)

drop_none : (new : Text) (b : Pointers) → drop_old [] new b ≡ b
unfolding drop_old text_eq
drop_none new b = refl

drop_stale :
    (old new : Text) (b : Pointers) → old ≢ [] → old ≢ new → drop_old old new b ≡ remove old b
unfolding drop_old
drop_stale old new b filled differ = elim (Bool-cases (text_eq old [])) [
  | inl e ↦ absurd (filled ((text_eq_iff old []).0 e))
  | inr e ↦ rw e (elim (Bool-cases (text_eq old new)) [
    | inl f ↦ absurd (differ ((text_eq_iff old new).0 f))
    | inr f ↦ rw f refl
  ])
]

put-own_id :
    (rec : SeriesRecord) (rows : Bucket SeriesRecord)
    → ((sid : Text) (r : SeriesRecord) → lookup sid rows ≡ some (some r) → r.series_id ≡ sid)
    → (sid : Text) (r : SeriesRecord)
    → lookup sid (put rec.series_id (some (at_rest rec)) rows) ≡ some (some r)
    → r.series_id ≡ sid
put-own_id rec rows own sid r e =
    elim (found-put rec.series_id sid (some (at_rest rec)) (some r) rows e) [
      | inl (is, same) ↦
          let r_is : at_rest rec ≡ r = cc same in
          sym (ap (λ (x : SeriesRecord). x.series_id) r_is) ∙ (field-at_rest rec).2 ∙ is
      | inr (other, row) ↦ own sid r row
    ]

-- A new series, under an id and hashes that are not there yet, joins a linked store.
pub new-IsLinked :
    (rec : SeriesRecord) (s t : Store)
    → IsLinked s
    → put_series rec [] [] s ≡ some t
    → lookup rec.series_id s.series ≡ none
    → lookup rec.access_token_hash s.access ≡ none
    → lookup rec.refresh_token_hash s.refresh ≡ none
    → IsLinked t
unfolding at_rest
new-IsLinked rec s t h e absent fresh_a fresh_r =
    let (is, fa, fr) = put_series-eq-some rec [] [] s t e in
    let kept : t ≡ put_store rec s.access s.refresh s =
      is
      ∙ ap (λ x. put_store rec x (drop_old [] rec.refresh_token_hash s.refresh) s)
          (drop_none rec.access_token_hash s.access)
      ∙ ap (λ x. put_store rec s.access x s) (drop_none rec.refresh_token_hash s.refresh) in
    subst IsLinked (sym kept) (record {
      access =
          put-IsIndex access_hash s.series s.access h.access rec.series_id (at_rest rec) absent
            fresh_a fa;
      refresh =
          put-IsIndex refresh_hash s.series s.refresh h.refresh rec.series_id (at_rest rec) absent
            fresh_r fr;
      own_id = put-own_id rec s.series h.own_id;
      rows = Distinct-put rec.series_id (some (at_rest rec)) s.series h.rows;
    })

-- The pointer of a series that is replaced under a fresh hash is dropped.
pub dropped :
    (field : SeriesRecord → Text) (rows : Bucket SeriesRecord) (pointers : Pointers)
    → IsIndex field rows pointers
    → (sid : Text) (old new : SeriesRecord) → lookup sid rows ≡ some (some old)
    → lookup (field new) pointers ≡ none
    → drop_old (field old) (field new) pointers ≡ remove (field old) pointers
dropped field rows pointers h sid old new was fresh =
    let there = h.points sid old was in
    drop_stale (field old) (field new) pointers
      (λ s. let gone = ap (λ k. lookup k pointers) s in cc (gone, h.no_empty, there))
      (λ s. let gone = ap (λ k. lookup k pointers) s in cc (gone, fresh, there))

-- A rotation, under hashes that are not there yet, keeps a store linked.
pub rotate-IsLinked :
    (old new : SeriesRecord) (s t : Store)
    → IsLinked s
    → lookup old.series_id s.series ≡ some (some old)
    → new.series_id ≡ old.series_id
    → put_series new old.access_token_hash old.refresh_token_hash s ≡ some t
    → lookup new.access_token_hash s.access ≡ none
    → lookup new.refresh_token_hash s.refresh ≡ none
    → IsLinked t
unfolding at_rest
rotate-IsLinked old new s t h was same e fresh_a fresh_r =
    let (is, fa, fr) = put_series-eq-some new old.access_token_hash old.refresh_token_hash s t e in
    let there : lookup new.series_id s.series ≡ some (some old) =
      ap (λ k. lookup k s.series) same ∙ was in
    let kept : t
        ≡ put_store new (remove old.access_token_hash s.access)
            (remove old.refresh_token_hash s.refresh) s =
      is
      ∙ ap
          (λ x.
            put_store new x (drop_old old.refresh_token_hash new.refresh_token_hash s.refresh) s)
          (dropped access_hash s.series s.access h.access old.series_id old new was fresh_a)
      ∙ ap (λ x. put_store new (remove old.access_token_hash s.access) x s)
          (dropped refresh_hash s.series s.refresh h.refresh old.series_id old new was fresh_r) in
    subst IsLinked (sym kept) (record {
      access =
          replace-IsIndex access_hash s.series s.access h.access new.series_id old (at_rest new)
            there fresh_a fa;
      refresh =
          replace-IsIndex refresh_hash s.series s.refresh h.refresh new.series_id old (at_rest new)
            there fresh_r fr;
      own_id = put-own_id new s.series h.own_id;
      rows = Distinct-put new.series_id (some (at_rest new)) s.series h.rows;
    })
