-- ===== src/Text/Buckets.antt =====
-- The buckets of go.etcd.io/bbolt: what the bytes under a key decode to, if they do.
use shoka.Prelude.{
  ◌≡◌, ◌≢◌, ◌↔◌, ◌∙◌, refl, sym, ap, Bool, false, Option, none, some, List, [], ◌∷◌, if◌then◌else◌,
  Bool-cases, inl, inr,
}
use shoka.Prelude.Assoc.{lookup, put, Distinct}
use shoka.Text.{Text, text_eq}
use shoka.Text.Laws.{text_eq_iff}
use shoka.Text.Keys.{text_key}

-- `none` where the bytes under a key are not the JSON of a record.
abbrev pub Bucket : Type 0 → Type 0
Bucket A = List (Text × Option A)

-- Put refuses an empty key.
unfoldable pub bucket_put : {V : Type 0} → Text → V → List (Text × V) → Option (List (Text × V))
bucket_put k v b = if text_eq k [] then none else some (put k v b)

pub bucket_put-eq-some :
    {V : Type 0} (k : Text) (v : V) (b out : List (Text × V))
    → bucket_put k v b ≡ some out
    → (out ≡ put k v b) × (k ≢ [])
unfolding bucket_put
bucket_put-eq-some k v b out e = elim (Bool-cases (text_eq k [])) [
  | inl f ↦
      absurd (
        let bad : ◌≡◌ {A = Option (List (Text × _))} none (some out) = sym (rw f refl) ∙ e in
        cc bad)
  | inr f ↦ (
    let good : some (put k v b) ≡ some out = sym (rw f refl) ∙ e in cc good,
    λ s. let t = (text_eq_iff k []).1 s in cc (t, f),
  )
]

-- A scan that deletes the rows that pass the test; a row that does not decode is skipped.
unfoldable pub drop_rows : {A : Type 0} → (A → Bool) → Bucket A → Bucket A
drop_rows test [] = []
drop_rows test ((k, none) ∷ rows) = (k, none) ∷ drop_rows test rows
drop_rows test ((k, some rec) ∷ rows) =
    let rest = drop_rows test rows in if test rec then rest else (k, some rec) ∷ rest

module _ {A : Type 0} (test : A → Bool) where
  -- A row that is left does not pass.
  drop_rows-left :
      (rows : Bucket A) (key : Text) (found : A)
      → lookup key (drop_rows test rows) ≡ some (some found)
      → test found ≡ false
  unfolding drop_rows lookup
  drop_rows-left [] key found e = cc
  drop_rows-left ((k, none) ∷ rows) key found e = elim (Bool-cases (text_eq k key)) [
    | inl same ↦ let bad : some none ≡ some (some found) = sym (rw same refl) ∙ e in cc bad
    | inr other ↦ drop_rows-left rows key found (sym (rw other refl) ∙ e)
  ]
  drop_rows-left ((k, some rec) ∷ rows) key found e = elim (Bool-cases (test rec)) [
    | inl passed ↦ drop_rows-left rows key found (sym (rw passed refl) ∙ e)
    | inr stays ↦
        let f : lookup key ((k, some rec) ∷ drop_rows test rows) ≡ some (some found) =
          sym (rw stays refl) ∙ e in
        elim (Bool-cases (text_eq k key)) [
          | inl same ↦
              let is : some (some rec) ≡ some (some found) = sym (rw same refl) ∙ f in
              let rec_is : rec ≡ found = cc is in ap test (sym rec_is) ∙ stays
          | inr other ↦ drop_rows-left rows key found (sym (rw other refl) ∙ f)
        ]
  ]

  -- A row that does not pass stays.
  drop_rows-kept :
      (rows : Bucket A) (key : Text) (found : A)
      → lookup key rows ≡ some (some found)
      → test found ≡ false
      → lookup key (drop_rows test rows) ≡ some (some found)
  unfolding drop_rows lookup
  drop_rows-kept [] key found e stays = cc
  drop_rows-kept ((k, none) ∷ rows) key found e stays = elim (Bool-cases (text_eq k key)) [
    | inl same ↦ let bad : some none ≡ some (some found) = sym (rw same refl) ∙ e in cc bad
    | inr other ↦ rw other (drop_rows-kept rows key found (sym (rw other refl) ∙ e) stays)
  ]
  drop_rows-kept ((k, some rec) ∷ rows) key found e stays = elim (Bool-cases (text_eq k key)) [
    | inl same ↦
        let is : some (some rec) ≡ some (some found) = sym (rw same refl) ∙ e in
        let rec_is : rec ≡ found = cc is in
        let left = ap test rec_is ∙ stays in rw left (rw same is)
    | inr other ↦
        let rest = drop_rows-kept rows key found (sym (rw other refl) ∙ e) stays in
        elim (Bool-cases (test rec)) [
          | inl passed ↦ rw passed rest
          | inr left ↦ rw left (rw other rest)
        ]
  ]

  drop_rows-was :
      (rows : Bucket A) (key : Text) (found : A)
      → Distinct rows
      → lookup key (drop_rows test rows) ≡ some (some found)
      → lookup key rows ≡ some (some found)
  unfolding drop_rows lookup
  drop_rows-was [] key found d e = e
  drop_rows-was ((k, none) ∷ rows) key found d e = elim (Bool-cases (text_eq k key)) [
    | inl same ↦ let bad : some none ≡ some (some found) = sym (rw same refl) ∙ e in cc bad
    | inr other ↦ rw other (drop_rows-was rows key found d.1 (sym (rw other refl) ∙ e))
  ]
  drop_rows-was ((k, some rec) ∷ rows) key found d e = elim (Bool-cases (test rec)) [
    | inl passed ↦
        let later = drop_rows-was rows key found d.1 (sym (rw passed refl) ∙ e) in
        elim (Bool-cases (text_eq k key)) [
          | inl same ↦
              let absent : lookup key rows ≡ none =
                ap (λ x. lookup x rows) (sym ((text_eq_iff k key).0 same)) ∙ d.0 in
              cc (absent, later)
          | inr other ↦ rw other later
        ]
    | inr stays ↦
        let f : lookup key ((k, some rec) ∷ drop_rows test rows) ≡ some (some found) =
          sym (rw stays refl) ∙ e in
        elim (Bool-cases (text_eq k key)) [
          | inl same ↦ rw same (sym (rw same refl) ∙ f)
          | inr other ↦ rw other (drop_rows-was rows key found d.1 (sym (rw other refl) ∙ f))
        ]
  ]

  -- A row is left exactly where it was there and does not pass.
  pub drop_rows_iff :
      (rows : Bucket A) (key : Text) (found : A)
      → Distinct rows
      → (lookup key (drop_rows test rows) ≡ some (some found))
        ↔ ((lookup key rows ≡ some (some found)) × (test found ≡ false))
  drop_rows_iff rows key found d = (
    λ e. (drop_rows-was rows key found d e, drop_rows-left rows key found e),
    λ x. drop_rows-kept rows key found x.0 x.1,
  )
