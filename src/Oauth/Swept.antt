-- ===== src/Oauth/Swept.antt =====
-- What a sweep over the token series removes.
use mathlib.Core.List.{Memᴰ}
use shoka.Prelude.{
  ◌≡◌, ◌≢◌, ◌∙◌, ◌↔◌, refl, sym, ap, Bool, true, false, Option, none, some, List, [], ◌∷◌,
  if◌then◌else◌, Bool-cases, inl, inr, All,
}
use shoka.Prelude.Assoc.{lookup, Distinct}
use shoka.Prelude.Lookup.{remove_other, found-remove, lookup_head, lookup_tail}
use shoka.Text.{Text, text_eq}
use shoka.Text.Keys.{text_key}
use shoka.Oauth.{SeriesRecord, Bucket, Store, Outcome, err, ok}
use shoka.Oauth.Series.{delete_series}
use shoka.Oauth.Sweeps.{cons_if, collect, delete_all}
use shoka.Oauth.Linked.{IsLinked, delete_series-IsLinked}

-- Records of the rows, each under its own id, no id twice.
abbrev pub ArePresent : Bucket SeriesRecord → List SeriesRecord → Type 0
ArePresent rows [] = Unit
ArePresent rows (rec ∷ dead) =
    (lookup rec.series_id rows ≡ some (some rec))
    × All (λ other. rec.series_id ≢ other.series_id) dead
    × ArePresent rows dead

cons_if-eq-ok :
    (test : Bool) (rec : SeriesRecord) (o : Outcome (List SeriesRecord)) (dead : List SeriesRecord)
    → cons_if test rec o ≡ ok dead
    → (l : List SeriesRecord) × (o ≡ ok l) × (dead ≡ (if test then rec ∷ l else l))
cons_if-eq-ok test rec (err x) dead e = cc
cons_if-eq-ok test rec (ok l) dead e = (l, refl, cc e)

module _ (sid : Text) (x : Option SeriesRecord) (rows : Bucket SeriesRecord)
    (absent : lookup sid rows ≡ none) where
  tail-ArePresent : (l : List SeriesRecord) → ArePresent rows l → ArePresent ((sid, x) ∷ rows) l
  tail-ArePresent [] h = tt
  tail-ArePresent (rec ∷ l) h =
      (lookup_tail sid rec.series_id x (some rec) rows absent h.0, h.1, tail-ArePresent l h.2)

  tail_apart : (l : List SeriesRecord) → ArePresent rows l → All (λ o. sid ≢ o.series_id) l
  tail_apart [] h = tt
  tail_apart (rec ∷ l) h =
      (λ s. let gone = ap (λ k. lookup k rows) s in cc (gone, absent, h.0), tail_apart l h.2)

abbrev OwnIds : Bucket SeriesRecord → Type 0
OwnIds rows =
    (sid : Text) (rec : SeriesRecord) → lookup sid rows ≡ some (some rec) → rec.series_id ≡ sid

tail-OwnIds :
    (sid : Text) (x : Option SeriesRecord) (rows : Bucket SeriesRecord)
    → lookup sid rows ≡ none
    → OwnIds ((sid, x) ∷ rows)
    → OwnIds rows
tail-OwnIds sid x rows absent own k r e = own k r (lookup_tail sid k x (some r) rows absent e)

module _ (test : SeriesRecord → Bool) where
  abbrev Collected : Bucket SeriesRecord → List SeriesRecord → Type 0
  Collected rows dead = ArePresent rows dead × All (λ rec. test rec ≡ true) dead

  more-Collected :
      (sid : Text) (rec : SeriesRecord) (rows : Bucket SeriesRecord) (l dead : List SeriesRecord)
      → lookup sid rows ≡ none
      → rec.series_id ≡ sid
      → dead ≡ (if test rec then rec ∷ l else l)
      → Collected rows l
      → Collected ((sid, some rec) ∷ rows) dead
  more-Collected sid rec rows l dead absent own is (there, passed) = elim (Bool-cases (test rec)) [
    | inl e ↦ rw is (
        rw e (
          (
            ap (λ k. lookup k ((sid, some rec) ∷ rows)) own ∙ lookup_head sid (some rec) rows,
            rw own (tail_apart sid (some rec) rows absent l there),
            tail-ArePresent sid (some rec) rows absent l there,
          ),
          (e, passed),
        ))
    | inr e ↦ rw is (rw e (tail-ArePresent sid (some rec) rows absent l there, passed))
  ]

  collect_sound :
      (rows : Bucket SeriesRecord)
      → Distinct rows
      → OwnIds rows
      → (dead : List SeriesRecord) → collect test rows ≡ ok dead
      → Collected rows dead
  unfolding collect
  collect_sound [] d own dead e = let is : [] ≡ dead = cc e in rw (← is) (tt, tt)
  collect_sound ((sid, none) ∷ rows) d own dead e = cc
  collect_sound ((sid, some rec) ∷ rows) d own dead e =
      let (l, rest, is) = cons_if-eq-ok (test rec) rec (collect test rows) dead e in
      more-Collected sid rec rows l dead d.0 (own sid rec (lookup_head sid (some rec) rows)) is
        (collect_sound rows d.1 (tail-OwnIds sid (some rec) rows d.0 own) l rest)

  -- Every row that passes is collected.
  collect_complete :
      (rows : Bucket SeriesRecord) (dead : List SeriesRecord)
      → collect test rows ≡ ok dead
      → (sid : Text) (rec : SeriesRecord) → lookup sid rows ≡ some (some rec)
      → test rec ≡ true
      → Memᴰ rec dead
  unfolding collect lookup
  collect_complete [] dead e sid rec f t = cc
  collect_complete ((k, none) ∷ rows) dead e sid rec f t = cc
  collect_complete ((k, some r) ∷ rows) dead e sid rec f t =
      let (l, rest, is) = cons_if-eq-ok (test r) r (collect test rows) dead e in
      elim (Bool-cases (text_eq k sid)) [
        | inl same ↦
            let rec_is : r ≡ rec =
              let found : some (some r) ≡ some (some rec) = sym (rw same refl) ∙ f in cc found in
            rw is (rw (ap test rec_is ∙ t) (Memᴰ.head (sym rec_is)))
        | inr other ↦
            let later = collect_complete rows l rest sid rec (sym (rw other refl) ∙ f) t in
            elim (Bool-cases (test r)) [
              | inl p ↦ rw is (rw p (Memᴰ.tail later))
              | inr p ↦ rw is (rw p later)
            ]
      ]

still-ArePresent :
    (rec : SeriesRecord) (s : Store) (dead : List SeriesRecord)
    → All (λ other. rec.series_id ≢ other.series_id) dead
    → ArePresent s.series dead
    → ArePresent (delete_series rec s).series dead
unfolding delete_series
still-ArePresent rec s [] apart h = tt
still-ArePresent rec s (other ∷ dead) apart h = (
  remove_other rec.series_id other.series_id s.series apart.0 ∙ h.0,
  h.1,
  still-ArePresent rec s dead apart.1 h.2,
)

delete_all-IsLinked :
    (dead : List SeriesRecord) (s : Store)
    → IsLinked s
    → ArePresent s.series dead
    → IsLinked (delete_all dead s)
unfolding delete_all
delete_all-IsLinked [] s h there = h
delete_all-IsLinked (rec ∷ dead) s h there =
    delete_all-IsLinked dead (delete_series rec s) (delete_series-IsLinked rec s h there.0)
      (still-ArePresent rec s dead there.1 there.2)

-- A row is left where its id is none of those that go.
delete_all_left :
    (dead : List SeriesRecord) (s : Store) (sid : Text) (rec : SeriesRecord)
    → (lookup sid (delete_all dead s).series ≡ some (some rec))
      ↔ ((lookup sid s.series ≡ some (some rec)) × All (λ d. d.series_id ≢ sid) dead)
unfolding delete_all
delete_all_left [] s sid rec = (λ e. (e, tt), λ x. x.0)
delete_all_left (d ∷ dead) s sid rec = (
  λ e.
      let (left, apart) = (delete_all_left dead (delete_series d s) sid rec).0 e in
      let (other, there) =
        found-remove d.series_id sid (some rec) s.series (unfold delete_series in left) in
      (there, (other, apart)),
  λ x.
      (delete_all_left dead (delete_series d s) sid rec).1
        ((unfold delete_series in remove_other d.series_id sid s.series x.1.0 ∙ x.0), x.1.1),
)

all_mem :
    (P : SeriesRecord → Type 0) (dead : List SeriesRecord) (rec : SeriesRecord)
    → All P dead
    → Memᴰ rec dead
    → P rec
all_mem P [] rec a m = elim m [ ]
all_mem P (d ∷ dead) rec a (Memᴰ.head same) = rw same a.0
all_mem P (d ∷ dead) rec a (Memᴰ.tail m) = all_mem P dead rec a.1 m

member-All :
    (P : SeriesRecord → Type 0) (dead : List SeriesRecord)
    → ((rec : SeriesRecord) → Memᴰ rec dead → P rec)
    → All P dead
member-All P [] f = tt
member-All P (d ∷ dead) f = (f d (Memᴰ.head refl), member-All P dead (λ rec m. f rec (Memᴰ.tail m)))

mem-ArePresent :
    (rows : Bucket SeriesRecord) (dead : List SeriesRecord) (rec : SeriesRecord)
    → ArePresent rows dead
    → Memᴰ rec dead
    → lookup rec.series_id rows ≡ some (some rec)
mem-ArePresent rows [] rec h m = elim m [ ]
mem-ArePresent rows (d ∷ dead) rec h (Memᴰ.head same) = rw same h.0
mem-ArePresent rows (d ∷ dead) rec h (Memᴰ.tail m) = mem-ArePresent rows dead rec h.2 m

-- A sweep of a linked store removes the series that pass the test, and leaves a linked store with
-- all the others as they were.
pub sweep_iff :
    (test : SeriesRecord → Bool) (s : Store) (dead : List SeriesRecord)
    → IsLinked s
    → collect test s.series ≡ ok dead
    → IsLinked (delete_all dead s)
      × ((sid : Text) (rec : SeriesRecord)
          → (lookup sid (delete_all dead s).series ≡ some (some rec))
            ↔ ((lookup sid s.series ≡ some (some rec)) × (test rec ≡ false)))
sweep_iff test s dead h e =
    let (there, passed) = collect_sound test s.series h.rows h.own_id dead e in
    (
      delete_all-IsLinked dead s h there,
      λ sid rec. (
        λ f.
            let (was, apart) = (delete_all_left dead s sid rec).0 f in
            (
              was,
              elim (Bool-cases (test rec)) [
                | inl t ↦ absurd (
                    all_mem (λ d. d.series_id ≢ sid) dead rec apart
                      (collect_complete test s.series dead e sid rec was t) (h.own_id sid rec was))
                | inr t ↦ t
              ],
            ),
        λ x. (delete_all_left dead s sid rec).1 (
          x.0,
          member-All (λ d. d.series_id ≢ sid) dead
              (λ d m same.
                let row : lookup sid s.series ≡ some (some d) =
                  ap (λ k. lookup k s.series) (sym same) ∙ mem-ArePresent s.series dead d there m in
                let is : some (some d) ≡ some (some rec) = sym row ∙ x.0 in
                let rec_is : d ≡ rec = cc is in
                let hit = ap test rec_is in
                let yes_d = all_mem (λ r. test r ≡ true) dead d passed m in cc (hit, yes_d, x.1)),
        ),
      ),
    )
