-- ===== src/Oauth/Lifecycle.antt =====
-- The operations on token series, each on a linked store.
use shoka.Prelude.{
  ℕ, ◌≡◌, ◌∙◌, refl, ap, Bool, Option, none, some, List, [], ltb, Bool-cases, inl, inr,
}
use shoka.Prelude.Assoc.{lookup, Distinct-remove}
use shoka.Prelude.Lookup.{found-remove}
use shoka.Text.{Text}
use shoka.Text.Keys.{text_key}
use shoka.Oauth.{Principal, SeriesRecord, Pointers, Store, Outcome, err, ok, Calls}
use shoka.Oauth.Index.{torn-IsIndex}
use shoka.Oauth.Series.{
  hash_handle, delete_series, resolve, new_record, issued, new_series, renewed, rotated,
  rotate_with, rotate_found, rotate, put_series,
}
use shoka.Oauth.Linked.{access_hash, refresh_hash, IsLinked, resolve_iff, delete_series-IsLinked}
use shoka.Oauth.Issue.{new-IsLinked, rotate-IsLinked}
use shoka.Oauth.Sweeps.{revoke_row, revoke, collect, swept}
use shoka.Oauth.Swept.{sweep_iff}

-- Only the three buckets count.
pub relink :
    (s t : Store)
    → IsLinked s
    → t.series ≡ s.series
    → t.access ≡ s.access
    → t.refresh ≡ s.refresh
    → IsLinked t
relink s t h e a r = record {
  access = rw (e, a) h.access;
  refresh = rw (e, r) h.refresh;
  own_id = rw e h.own_id;
  rows = rw e h.rows;
}

-- A handle whose hash is no key yet: NewHandle draws 256 random bits.
abbrev pub IsFresh : Calls → Pointers → Option Text → Type 0
IsFresh c b o = (h : Text) → o ≡ some h → lookup (hash_handle c h) b ≡ none

module _ (c : Calls) where
  pub new_series-IsLinked :
      (sid a r : Option Text) (client_id : Text) (p : Principal) (resource scope name : Text)
      (now access_ttl refresh_ttl : ℕ) (ep : Text) (s : Store)
      → IsLinked s
      → ((h : Text) → sid ≡ some h → lookup h s.series ≡ none)
      → IsFresh c s.access a
      → IsFresh c s.refresh r
      → IsLinked
          (new_series c sid a r client_id p resource scope name now access_ttl refresh_ttl ep s).1
  unfolding new_series
  new_series-IsLinked none a r client_id p resource scope name now at rt ep s h fs fa fr = h
  new_series-IsLinked (some sid) none r client_id p resource scope name now at rt ep s h fs fa fr =
      h
  new_series-IsLinked (some sid) (some a) none client_id p resource scope name now at rt ep s h fs
        fa fr =
      h
  new_series-IsLinked (some sid) (some a) (some r) client_id p resource scope name now at rt ep s h
        fs fa fr =
      stored (put_series rec [] [] s) refl
    where
      rec : SeriesRecord
      rec = new_record c sid a r client_id p resource scope name now at rt ep

      stored : (o : Option Store) → put_series rec [] [] s ≡ o → IsLinked (issued c s rec o).1
      stored none e = h
      stored (some t) e =
          relink t _ (new-IsLinked rec s t h e (fs sid refl) (fa a refl) (fr r refl)) refl refl refl

  -- What a refresh handle resolves to stands under its id and holds the hash.
  pub resolved_row :
      (s : Store)
      → IsLinked s
      → (key : Text) (rec : SeriesRecord) → resolve s.series s.refresh key refresh_hash ≡ ok rec
      → (lookup rec.series_id s.series ≡ some (some rec)) × (rec.refresh_token_hash ≡ key)
  resolved_row s h key rec e =
      let (sid, row, same) = (resolve_iff refresh_hash s.series s.refresh h.refresh key rec).0 e in
      (ap (λ k. lookup k s.series) (h.own_id sid rec row) ∙ row, same)

  rotate_with-IsLinked :
      (rec : SeriesRecord) (old : Text) (a r : Option Text) (now at rt : ℕ) (s : Store)
      → IsLinked s
      → lookup rec.series_id s.series ≡ some (some rec)
      → rec.refresh_token_hash ≡ old
      → IsFresh c s.access a
      → IsFresh c s.refresh r
      → IsLinked (rotate_with c rec old a r now at rt s).1
  rotate_with-IsLinked rec old none r now at rt s h row same fa fr = h
  rotate_with-IsLinked rec old (some a) none now at rt s h row same fa fr = h
  rotate_with-IsLinked rec old (some a) (some r) now at rt s h row same fa fr =
      stored (put_series new rec.access_token_hash old s) refl
    where
      new : SeriesRecord
      new = renewed c rec a r now at rt

      stored :
          (o : Option Store)
          → put_series new rec.access_token_hash old s ≡ o
          → IsLinked (rotated c s new o).1
      stored none e = h
      stored (some t) e =
          rotate-IsLinked rec new s t h row refl
            (ap (λ x. put_series new rec.access_token_hash x s) same ∙ e) (fa a refl) (fr r refl)

  pub rotate-IsLinked_step :
      (old : Text) (a r : Option Text) (now at rt : ℕ) (s : Store)
      → IsLinked s
      → IsFresh c s.access a
      → IsFresh c s.refresh r
      → IsLinked (rotate c old a r now at rt s).1
  unfolding rotate
  rotate-IsLinked_step old a r now at rt s h fa fr =
      found (resolve s.series s.refresh (hash_handle c old) refresh_hash) refl
    where
      found :
          (o : Outcome SeriesRecord)
          → resolve s.series s.refresh (hash_handle c old) refresh_hash ≡ o
          → IsLinked (rotate_found c (hash_handle c old) a r now at rt s o).1
      found (err x) e = h
      found (ok rec) e =
          let (row, same) = resolved_row s h (hash_handle c old) rec e in
          elim (Bool-cases (ltb rec.refresh_expiry now)) [
            | inl late ↦ rw late (delete_series-IsLinked rec s h row)
            | inr early ↦
                rw early
                  (rotate_with-IsLinked rec (hash_handle c old) a r now at rt s h row same fa fr)
          ]

-- An undecodable row that is dropped had no pointers.
pub revoke-IsLinked : (sid : Text) (s : Store) → IsLinked s → IsLinked (revoke sid s)
unfolding revoke
revoke-IsLinked sid s h = found (lookup sid s.series) refl
  where
    found :
        (o : Option (Option SeriesRecord)) → lookup sid s.series ≡ o → IsLinked (revoke_row sid s o)
    found none e = h
    found (some none) e = record {
      access = torn-IsIndex access_hash s.series s.access h.access sid e;
      refresh = torn-IsIndex refresh_hash s.series s.refresh h.refresh sid e;
      own_id = λ k rec f. h.own_id k rec (found-remove sid k (some rec) s.series f).1;
      rows = Distinct-remove sid s.series h.rows;
    }
    found (some (some rec)) e =
        let own = h.own_id sid rec e in
        relink (delete_series rec s) _
          (delete_series-IsLinked rec s h (ap (λ k. lookup k s.series) own ∙ e)) refl refl refl

-- The two ways in which a sweep ends.
pub swept-IsLinked :
    (test : SeriesRecord → Bool) (s : Store)
    → IsLinked s
    → IsLinked (swept s (collect test s.series)).1
swept-IsLinked test s h = go (collect test s.series) refl
  where
    go : (o : Outcome (List SeriesRecord)) → collect test s.series ≡ o → IsLinked (swept s o).1
    go (err x) e = h
    go (ok dead) e = (sweep_iff test s dead h e).0
