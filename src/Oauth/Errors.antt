-- ===== src/Oauth/Errors.antt =====
-- pkg/oauthstore: authorization codes, which are good for one use, and the checks of registrations.
use shoka.Prelude.{
  ◌⊎◌, ◌↔◌, ℕ, ◌≡◌, ◌≢◌, ◌∙◌, refl, sym, Bool, true, false, not, Option, none, some, [], ltb,
  if◌then◌else◌, Bool-cases, inl, inr,
}
use shoka.Prelude.Assoc.{lookup, put, lookup-put}
use shoka.Prelude.Lookup.{put_same, remove_same}
use shoka.Text.{Text, text_eq, trim_space}
use shoka.Text.Keys.{text_key}
use shoka.Text.Laws.{text_eq_iff}
use shoka.Oauth.{
  CodeRecord, RegistrationEntry, Store, StoreError, key_required, not_found, expired, invalid_mode,
  identifier_required, no_entropy, Outcome, err, ok, Calls, bucket_put,
}
use shoka.Oauth.Series.{hash_handle, put_code, take_code}
use shoka.Oauth.Registrations.{
  stored_entry, create_with, create_registration, overwritten, update_registration,
  valid_registration_mode, mode_domain, mode_confidential, plain_entry,
}

-- What a registration must have: one of the two modes, and an identifier that is not blank.
abbrev pub IsRegistrable : Text → Text → Type 0
IsRegistrable mode identifier =
    ((mode ≡ mode_domain) ⊎ (mode ≡ mode_confidential)) × (trim_space identifier ≢ [])

-- The registrations are those before, with an entry under its id, and nothing else is changed.
abbrev pub HasStored : RegistrationEntry → Store → Store → Type 0
HasStored e before after =
    (after ≡ record before { registrations = after.registrations })
    × ((k : Text)
        → lookup k after.registrations
          ≡ (if text_eq e.id k then some (some e) else lookup k before.registrations))

-- What is asked for holds, and the operation gives its result; or it does not hold, and the operation
-- returns an error and the store as it was.
abbrev pub IsDecided :
    {A : Type 0} → Type 0 → (A → Store → Type 0) → Store → Outcome A × Store → Type 0
IsDecided {A = A} Asked Gives s r =
    (Asked × ((a : A) × (r.0 ≡ ok a) × Gives a r.1))
    ⊎ ((¬ Asked) × ((x : StoreError) × (r ≡ (err x, s))))

guarded :
    {A : Type 0} (Asked : Type 0) (Gives : A → Store → Type 0) (s : Store) (test : Bool)
    (x : StoreError) (r : Outcome A × Store)
    → (test ≡ true → ¬ Asked)
    → (test ≡ false → IsDecided Asked Gives s r)
    → IsDecided Asked Gives s (if test then (err x, s) else r)
guarded Asked Gives s true x r refuse rest = inr (refuse refl, (x, refl))
guarded Asked Gives s false x r refuse rest = rest refl

valid_mode_iff :
    (mode : Text)
    → (not (valid_registration_mode mode) ≡ false)
      ↔ ((mode ≡ mode_domain) ⊎ (mode ≡ mode_confidential))
unfolding valid_registration_mode
valid_mode_iff mode = elim (Bool-cases (text_eq mode mode_domain)) [
  | inl e ↦ rw e (λ k. inl ((text_eq_iff mode mode_domain).0 e), λ m. refl)
  | inr e ↦ elim (Bool-cases (text_eq mode mode_confidential)) [
    | inl f ↦ rw (e, f) (λ k. inr ((text_eq_iff mode mode_confidential).0 f), λ m. refl)
    | inr f ↦
        rw (e, f)
          (
            λ k. cc k,
            λ m. elim m [
              | inl same ↦ absurd (cc ((text_eq_iff mode mode_domain).1 same, e))
              | inr same ↦ absurd (cc ((text_eq_iff mode mode_confidential).1 same, f))
            ],
          )
  ]
]

-- The two checks that creating and updating begin with.
checked :
    {A : Type 0} (Rest : Type 0) (Gives : A → Store → Type 0) (s : Store) (mode identifier : Text)
    (r : Outcome A × Store)
    → (IsRegistrable mode identifier → IsDecided (IsRegistrable mode identifier × Rest) Gives s r)
    → IsDecided (IsRegistrable mode identifier × Rest) Gives s (
        if not (valid_registration_mode mode)
        then (err invalid_mode, s)
        else if text_eq (trim_space identifier) []
        then (err identifier_required, s)
        else r)
checked Rest Gives s mode identifier r rest =
    guarded _ Gives s (not (valid_registration_mode mode)) invalid_mode _
      (λ e x. let valid = (valid_mode_iff mode).1 x.0.0 in cc (valid, e))
      (λ v.
        guarded _ Gives s (text_eq (trim_space identifier) []) identifier_required r
          (λ e x. x.0.1 ((text_eq_iff (trim_space identifier) []).0 e))
          (λ n. rest ((valid_mode_iff mode).0 v, λ k. cc ((text_eq_iff _ []).1 k, n))))

put_entry :
    {A : Type 0} (Asked : Type 0) (Gives : A → Store → Type 0) (s : Store) (a : A)
    (e : RegistrationEntry)
    → (e.id ≡ [] → ¬ Asked)
    → (e.id ≢ [] → Asked × ((t : Store) → HasStored e s t → Gives a t))
    → IsDecided Asked Gives s (stored_entry a s (bucket_put e.id (some e) s.registrations))
unfolding bucket_put
put_entry Asked Gives s a e refuse give = elim (Bool-cases (text_eq e.id [])) [
  | inl f ↦ rw f (inr (refuse ((text_eq_iff e.id []).0 f), (key_required, refl)))
  | inr f ↦
      let (asked, gives) = give (λ k. cc ((text_eq_iff e.id []).1 k, f)) in
      rw f (inl (asked, (a, refl, gives _ (refl, λ k. lookup-put e.id k (some e) s.registrations))))
]

-- A new id was drawn, which is not empty.
abbrev pub IsDrawn : Option Text → Type 0
IsDrawn handle = (id : Text) × (handle ≡ some id) × (id ≢ [])

-- What creating and updating ask for, and what creating gives.
abbrev pub CanCreate : Option Text → Text → Text → Type 0
CanCreate handle mode identifier = IsRegistrable mode identifier × IsDrawn handle

-- An entry stands under the id, which is not empty.
abbrev pub IsThere : RegistrationEntry → Store → Type 0
IsThere entry s = (entry.id ≢ []) × (lookup entry.id s.registrations ≢ none)

abbrev pub CanUpdate : RegistrationEntry → Store → Type 0
CanUpdate entry s = IsRegistrable entry.registration_mode entry.identifier × IsThere entry s

abbrev pub HasCreated : Option Text → Text → Text → ℕ → Store → RegistrationEntry → Store → Type 0
HasCreated handle mode identifier now s e t =
    (handle ≡ some e.id) × (e ≡ plain_entry e.id mode (trim_space identifier) now) × HasStored e s t

-- Creating a registration, and updating one, succeed exactly where the mode is one of the two, the
-- identifier is not blank, and a new id was drawn, or an entry stands under the id. Then the entry
-- stands under its id, which is not empty, for a new one with the identifier trimmed, and the other
-- entries and the rest of the store are as before; otherwise an error is returned and the store is as
-- it was.
pub registrations-IsDecided :
    (handle : Option Text) (mode identifier : Text) (now : ℕ) (entry : RegistrationEntry)
    (s : Store)
    → IsDecided
        (CanCreate handle mode identifier)
        (HasCreated handle mode identifier now s)
        s
        (create_registration handle mode identifier now s)
      × IsDecided (CanUpdate entry s) (λ u t. HasStored entry s t) s (update_registration entry s)
unfolding create_registration update_registration plain_entry
registrations-IsDecided handle mode identifier now entry s = (
  checked (IsDrawn handle) (HasCreated handle mode identifier now s) s mode identifier
      (create_with mode (trim_space identifier) now s handle) (λ good. created good handle refl),
  checked (IsThere entry s) (λ (u : Unit {0}) t. HasStored entry s t) s entry.registration_mode
      entry.identifier (overwritten entry s (lookup entry.id s.registrations))
      (λ good. updated good (lookup entry.id s.registrations) refl),
)
  where
    created :
        IsRegistrable mode identifier
        → (h : Option Text) → handle ≡ h
        → IsDecided
            (CanCreate handle mode identifier)
            (HasCreated handle mode identifier now s)
            s
            (create_with mode (trim_space identifier) now s h)
    created good none f = inr (λ x. let g = x.1.1 in cc (g, f), (no_entropy, refl))
    created good (some id) f =
        put_entry (CanCreate handle mode identifier) (HasCreated handle mode identifier now s) s _
          (plain_entry id mode (trim_space identifier) now)
          (λ empty x.
            let g = x.1.1 in
            x.1.2 (let same : some x.1.0 ≡ some id = sym g ∙ f in cc (same, empty)))
          (λ n. ((good, (id, f, n)), λ t stored. (f, refl, stored)))

    updated :
        IsRegistrable entry.registration_mode entry.identifier
        → (o : Option (Option RegistrationEntry)) → lookup entry.id s.registrations ≡ o
        → IsDecided (CanUpdate entry s) (λ u t. HasStored entry s t) s (overwritten entry s o)
    updated good none f = inr (λ x. x.1.1 f, (not_found, refl))
    updated good (some old) f =
        put_entry (CanUpdate entry s) (λ u t. HasStored entry s t) s tt entry
          (λ empty x. x.1.0 empty) (λ n. ((good, (n, λ g. cc (f, g))), λ t stored. stored))

module _ (c : Calls) where
  -- A code that was stored under a hash that is not empty is given out once, unless it has expired;
  -- the attempt after the first finds nothing, also where the first came too late.
  pub put_code-take_code :
      (code : Text) (rec : CodeRecord) (now later : ℕ) (s : Store)
      → hash_handle c code ≢ []
      → let t = (put_code c code rec s).1 in
        let u = (take_code c code now t).1 in
        ((put_code c code rec s).0 ≡ ok tt)
        × ((take_code c code now t).0 ≡ (if ltb rec.expiry now then err expired else ok rec))
        × (take_code c code later u ≡ (err not_found, u))
  unfolding put_code take_code bucket_put
  put_code-take_code code rec now later s filled =
      elim (Bool-cases (text_eq (hash_handle c code) [])) [
        | inl e ↦ absurd (filled ((text_eq_iff _ _).0 e))
        | inr e ↦
            let key = hash_handle c code in
            rw e (
              refl,
              rw (put_same key (some rec) s.codes) refl,
              rw (put_same key (some rec) s.codes)
                  (rw (remove_same key (put key (some rec) s.codes)) refl),
            )
      ]
