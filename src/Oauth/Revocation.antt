-- ===== src/Oauth/Revocation.antt =====
-- pkg/oauthstore: which tokens and codes are accepted after a revocation.
use shoka.Prelude.{
  ℕ, ◌≡◌, ◌∙◌, ◌↔◌, refl, sym, ap, Bool, true, false, some, List, [], ◌∷◌, ◌++◌, ◌⊎◌, inl, inr,
  Bool-cases,
}
use shoka.Prelude.Assoc.{Distinct, lookup}
use shoka.Text.{Text, text_eq, trim_space}
use shoka.Text.Buckets.{drop_rows_iff}
use shoka.Text.Laws.{text_eq_iff}
use shoka.Text.Affixes.{has_suffix_iff}
use shoka.Text.Keys.{text_key}
use shoka.Oauth.{CodeRecord, SeriesRecord, Store, Outcome, err, ok, Calls}
use shoka.Oauth.Series.{delete_series, lookup_token}
use shoka.Oauth.Tokens.{lookup_token_reads, swept-lookup_token}
use shoka.Oauth.Linked.{IsLinked}
use shoka.Oauth.Sweeps.{
  collect, delete_all, swept, count_revoked, email_swept, is_bound_to, drop_codes,
  revoke_by_principal_email, revoke_by_client_id,
}
use shoka.Oauth.Domains.{client_domain_tx, is_within, is_of_domain, revoke_by_domain}

-- The counter is no part of what a lookup reads.
pub count_revoked_reads :
    (r : Outcome ℕ × Store)
    → ((count_revoked r).0 ≡ r.0)
      × ((count_revoked r).1.series ≡ r.1.series)
      × ((count_revoked r).1.access ≡ r.1.access)
      × ((count_revoked r).1.codes ≡ r.1.codes)
count_revoked_reads (err x, s) = (refl, refl, refl, refl)
count_revoked_reads (ok n, s) = (refl, refl, refl, refl)

pub email_swept_reads :
    (c : Calls) (target : Text) (r : Outcome ℕ × Store)
    → ((email_swept c target r).0 ≡ r.0)
      × ((email_swept c target r).1.series ≡ r.1.series)
      × ((email_swept c target r).1.access ≡ r.1.access)
email_swept_reads c target (err x, s) = (refl, refl, refl)
email_swept_reads c target (ok n, s) = (refl, refl, refl)

email_swept-codes :
    (c : Calls) (target : Text) (r : Outcome ℕ × Store) (n : ℕ)
    → r.0 ≡ ok n
    → (email_swept c target r).1.codes ≡ drop_codes c target r.1.codes
email_swept-codes c target (err x, s) n e = cc
email_swept-codes c target (ok m, s) n e = refl

delete_all-codes : (dead : List SeriesRecord) (s : Store) → (delete_all dead s).codes ≡ s.codes
unfolding delete_all delete_series
delete_all-codes [] s = refl
delete_all-codes (rec ∷ dead) s = delete_all-codes dead (delete_series rec s)

swept-codes :
    (test : SeriesRecord → Bool) (s : Store) → (swept s (collect test s.series)).1.codes ≡ s.codes
swept-codes test s = go (collect test s.series)
  where
    go : (o : Outcome (List SeriesRecord)) → (swept s o).1.codes ≡ s.codes
    go (err x) = refl
    go (ok dead) = delete_all-codes dead s

-- A host that is the domain, or ends in it behind a dot.
abbrev pub IsBelow : Text → Text → Type 0
IsBelow host domain = (host ≡ domain) ⊎ ((label : Text) × (host ≡ label ++ b'.' ∷ domain))

is_within_iff : (host domain : Text) → (is_within host domain ≡ true) ↔ IsBelow host domain
unfolding is_within
is_within_iff host domain = elim (Bool-cases (text_eq host domain)) [
  | inl e ↦ rw e (λ k. inl ((text_eq_iff host domain).0 e), λ b. refl)
  | inr e ↦ rw e (
    λ k. let (label, is) = (has_suffix_iff (b'.' ∷ domain) host).0 k in inr (label, is),
    λ b. elim b [
      | inl same ↦ absurd (cc ((text_eq_iff host domain).1 same, e))
      | inr (label, is) ↦ (has_suffix_iff (b'.' ∷ domain) host).1 (label, is)
    ],
  )
]

not-IsBelow_empty :
    (host domain : Text) → host ≡ [] → text_eq domain [] ≡ false → ¬ IsBelow host domain
not-IsBelow_empty host domain empty named (inl same) =
    cc ((text_eq_iff domain []).1 (sym same ∙ empty), named)
not-IsBelow_empty host domain empty named (inr ([], is)) = cc (sym is ∙ empty)
not-IsBelow_empty host domain empty named (inr (x ∷ label, is)) = cc (sym is ∙ empty)

module _ (c : Calls) where
  -- A revocation of the series that pass a test, whatever it counts and does to the codes.
  swept_reads :
      (test : SeriesRecord → Bool) (s t : Store) (n : ℕ)
      → IsLinked s
      → (swept s (collect test s.series)).0 ≡ ok n
      → t.series ≡ (swept s (collect test s.series)).1.series
      → t.access ≡ (swept s (collect test s.series)).1.access
      → (token : Text) (now : ℕ) (rec : SeriesRecord)
      → (lookup_token c token now t ≡ ok rec)
        ↔ ((lookup_token c token now s ≡ ok rec) × (test rec ≡ false))
  swept_reads test s t n h e rows pointers token now rec =
      let same =
        lookup_token_reads c token now (swept s (collect test s.series)).1 t rows pointers in
      let (from, to) = swept-lookup_token c test s n h e token now rec in
      (λ k. from (sym same ∙ k), λ x. same ∙ to x)

  -- A revocation by an e-mail address that is not empty, where it succeeds on a linked store whose
  -- codes have distinct keys, leaves exactly the tokens, and exactly the codes, whose principals are
  -- not bound to the address.
  pub revoke_by_principal_email-lookup_token :
      (email : Text) (s : Store) (n : ℕ)
      → IsLinked s
      → Distinct s.codes
      → text_eq (c.to_lower (trim_space email)) [] ≡ false
      → (revoke_by_principal_email c email s).0 ≡ ok n
      → (token : Text) (now : ℕ) (rec : SeriesRecord) (key : Text) (code : CodeRecord)
      → ((lookup_token c token now (revoke_by_principal_email c email s).1 ≡ ok rec) ↔ (
          (lookup_token c token now s ≡ ok rec)
          × (is_bound_to c (c.to_lower (trim_space email)) rec.principal ≡ false)))
        × ((lookup key (revoke_by_principal_email c email s).1.codes ≡ some (some code)) ↔ (
            (lookup key s.codes ≡ some (some code))
            × (is_bound_to c (c.to_lower (trim_space email)) code.principal ≡ false)))
  unfolding revoke_by_principal_email drop_codes
  revoke_by_principal_email-lookup_token email s n h d named =
      let target = c.to_lower (trim_space email) in
      let test : SeriesRecord → Bool = λ rec. is_bound_to c target rec.principal in
      let r = swept s (collect test s.series) in
      let mid = email_swept c target r in
      let (outcome, rows, pointers, codes) = count_revoked_reads mid in
      let (mid_outcome, mid_rows, mid_pointers) = email_swept_reads c target r in
      rw named (λ e token now rec key code.
        let fine : r.0 ≡ ok n = sym mid_outcome ∙ sym outcome ∙ e in
        let codes_is : (count_revoked mid).1.codes ≡ drop_codes c target s.codes =
          codes
          ∙ email_swept-codes c target r n fine
          ∙ ap (drop_codes c target) (swept-codes test s) in
        let left =
          drop_rows_iff (λ (x : CodeRecord). is_bound_to c target x.principal) s.codes key code d in
        (
          swept_reads test s (count_revoked mid).1 n h fine (rows ∙ mid_rows)
              (pointers ∙ mid_pointers) token now rec,
          (
            λ f. left.0 (sym (ap (lookup key) codes_is) ∙ f),
            λ x. ap (lookup key) codes_is ∙ left.1 x,
          ),
        ))

  counted :
      (test : SeriesRecord → Bool) (s : Store) (n : ℕ)
      → IsLinked s
      → (count_revoked (swept s (collect test s.series))).0 ≡ ok n
      → (token : Text) (now : ℕ) (rec : SeriesRecord)
      → (lookup_token c token now (count_revoked (swept s (collect test s.series))).1 ≡ ok rec)
        ↔ ((lookup_token c token now s ≡ ok rec) × (test rec ≡ false))
  counted test s n h e =
      let r = swept s (collect test s.series) in
      let (outcome, rows, pointers, _) = count_revoked_reads r in
      swept_reads test s (count_revoked r).1 n h (sym outcome ∙ e) rows pointers

  pub revoke_by_client_id-lookup_token :
      (client_id : Text) (s : Store) (n : ℕ)
      → IsLinked s
      → text_eq (trim_space client_id) [] ≡ false
      → (revoke_by_client_id c client_id s).0 ≡ ok n
      → (token : Text) (now : ℕ) (rec : SeriesRecord)
      → (lookup_token c token now (revoke_by_client_id c client_id s).1 ≡ ok rec) ↔ (
          (lookup_token c token now s ≡ ok rec)
          × (text_eq rec.client_id (trim_space client_id) ≡ false))
  unfolding revoke_by_client_id
  revoke_by_client_id-lookup_token client_id s n h named =
      rw named (counted (λ rec. text_eq rec.client_id (trim_space client_id)) s n h)

  is_of_domain_iff :
      (target : Text) (s : Store) (rec : SeriesRecord)
      → text_eq target [] ≡ false
      → (is_of_domain c target s rec ≡ true) ↔ IsBelow (client_domain_tx c rec.client_id s) target
  unfolding is_of_domain
  is_of_domain_iff target s rec named =
      let d = client_domain_tx c rec.client_id s in
      elim (Bool-cases (text_eq d [])) [
        | inl e ↦
            let empty : d ≡ [] = (text_eq_iff d []).0 e in
            rw e (λ f. cc f, λ b. absurd (not-IsBelow_empty d target empty named b))
        | inr e ↦ rw e (is_within_iff d target)
      ]

  -- A revocation by a domain that is not empty, where it succeeds on a linked store, leaves exactly the
  -- tokens that were accepted before and whose client's domain is neither the given one nor ends in it
  -- behind a dot.
  pub revoke_by_domain-lookup_token :
      (domain : Text) (s : Store) (n : ℕ)
      → IsLinked s
      → text_eq (c.to_lower (trim_space domain)) [] ≡ false
      → (revoke_by_domain c domain s).0 ≡ ok n
      → (token : Text) (now : ℕ) (rec : SeriesRecord)
      → (lookup_token c token now (revoke_by_domain c domain s).1 ≡ ok rec) ↔ (
          (lookup_token c token now s ≡ ok rec)
          × ¬ IsBelow (client_domain_tx c rec.client_id s) (c.to_lower (trim_space domain)))
  unfolding revoke_by_domain
  revoke_by_domain-lookup_token domain s n h named e token now rec =
      let target = c.to_lower (trim_space domain) in
      let (from, to) = counted (is_of_domain c target s) s n h (rw named at e) token now rec in
      let (below, is) = is_of_domain_iff target s rec named in
      rw named (
        λ k. ((from k).0, λ b. let bad : false ≡ true = sym (from k).1 ∙ is b in cc bad),
        λ x. to (
          x.0,
          elim (Bool-cases (is_of_domain c target s rec)) [
            | inl f ↦ absurd (x.1 (below f))
            | inr f ↦ f
          ],
        ),
      )
