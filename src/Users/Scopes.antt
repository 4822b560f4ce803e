-- ===== src/Users/Scopes.antt =====
-- What a rewriting of all scopes leaves in the user store.
use shoka.Prelude.{ℕ, ◌+◌, ◌≡◌, ◌∙◌, refl, sym, ap, none, some, [], ◌∷◌, Bool-cases, inl, inr}
use shoka.Prelude.Assoc.{lookup}
use shoka.Text.{Text, text_eq}
use shoka.Text.Keys.{text_key}
use shoka.Text.Laws.{text_eq_iff}
use shoka.Users.{UserRecord, InviteRecord, Bucket, Store, UserError, Result, err, ok}
use shoka.Users.Admin.{
  cons_rewritten, rewrite_bucket, user_with_scope, invite_with_scope, rewritten_both,
  rewrite_user_scopes,
}

module _ {A : Type 0} (scope_of : A → Text) (with_scope : Text → A → A) (fn : Text → Text)
    (law : (x : Text) (rec : A) → scope_of (with_scope x rec) ≡ x) where
  -- The row that a rewrite leaves has the rewritten scope.
  cons_rewritten-eq-ok :
      (k : Text) (rec : A) (o : Result UserError (Bucket A × ℕ)) (out : Bucket A) (n : ℕ)
      → cons_rewritten
          (text_eq (fn (scope_of rec)) (scope_of rec))
          k
          rec
          (with_scope (fn (scope_of rec)) rec)
          o
        ≡ ok (out, n)
      → (l : Bucket A) × (j : ℕ) × (new : A) × (o ≡ ok (l, j))
        × (out ≡ (k, some new) ∷ l)
        × (scope_of new ≡ fn (scope_of rec))
  cons_rewritten-eq-ok k rec (err x) out n e = cc
  cons_rewritten-eq-ok k rec (ok (l, j)) out n e =
      elim (Bool-cases (text_eq (fn (scope_of rec)) (scope_of rec))) [
        | inl same ↦
            let g : ok ((k, some rec) ∷ l, j) ≡ ok (out, n) = sym (rw same refl) ∙ e in
            (l, j, rec, refl, cc g, sym ((text_eq_iff _ _).0 same))
        | inr other ↦
            let g : ok ((k, some (with_scope (fn (scope_of rec)) rec)) ∷ l, j + 1) ≡ ok (out, n) =
              sym (rw other refl) ∙ e in
            (l, j, with_scope (fn (scope_of rec)) rec, refl, cc g, law (fn (scope_of rec)) rec)
      ]

  rewrite_bucket-found :
      (rows out : Bucket A) (n : ℕ)
      → rewrite_bucket scope_of with_scope fn rows ≡ ok (out, n)
      → (k : Text) (rec : A) → lookup k out ≡ some (some rec)
      → (was : A) × (lookup k rows ≡ some (some was)) × (scope_of rec ≡ fn (scope_of was))
  unfolding rewrite_bucket lookup
  rewrite_bucket-found [] out n e k rec f =
      let is : [] ≡ out = cc e in let bad : none ≡ some (some rec) = ap (lookup k) is ∙ f in cc bad
  rewrite_bucket-found ((j, none) ∷ rows) out n e k rec f = cc
  rewrite_bucket-found ((j, some old) ∷ rows) out n e k rec f =
      let (l, m, new, rest, is, scope) =
        cons_rewritten-eq-ok j old (rewrite_bucket scope_of with_scope fn rows) out n e in
      let found : lookup k ((j, some new) ∷ l) ≡ some (some rec) = ap (lookup k) (sym is) ∙ f in
      elim (Bool-cases (text_eq j k)) [
        | inl same ↦
            let g : some (some new) ≡ some (some rec) = sym (rw same refl) ∙ found in
            let rec_is : new ≡ rec = cc g in (old, rw same refl, sym (ap scope_of rec_is) ∙ scope)
        | inr other ↦
            let (was, there, s) =
              rewrite_bucket-found rows l m rest k rec (sym (rw other refl) ∙ found) in
            (was, rw other there, s)
      ]

  rewrite_bucket-kept :
      (rows out : Bucket A) (n : ℕ)
      → rewrite_bucket scope_of with_scope fn rows ≡ ok (out, n)
      → (k : Text) (was : A) → lookup k rows ≡ some (some was)
      → (rec : A) × (lookup k out ≡ some (some rec)) × (scope_of rec ≡ fn (scope_of was))
  unfolding rewrite_bucket lookup
  rewrite_bucket-kept [] out n e k was f = cc f
  rewrite_bucket-kept ((j, none) ∷ rows) out n e k was f = cc
  rewrite_bucket-kept ((j, some old) ∷ rows) out n e k was f =
      let (l, m, new, rest, is, scope) =
        cons_rewritten-eq-ok j old (rewrite_bucket scope_of with_scope fn rows) out n e in
      elim (Bool-cases (text_eq j k)) [
        | inl same ↦
            let g : some (some old) ≡ some (some was) = sym (rw same refl) ∙ f in
            let was_is : old ≡ was = cc g in
            (new, ap (lookup k) is ∙ rw same refl, scope ∙ ap (λ x. fn (scope_of x)) was_is)
        | inr other ↦
            let (rec, there, s) =
              rewrite_bucket-kept rows l m rest k was (sym (rw other refl) ∙ f) in
            (rec, ap (lookup k) is ∙ rw other there, s)
      ]

-- After a rewriting that succeeds, every account and every invitation has the rewritten scope of the
-- one that stood under its key.
pub rewrite_user_scopes_lem :
    (fn : Text → Text) (now : ℕ) (s : Store) (n : ℕ)
    → (rewrite_user_scopes fn now s).0 ≡ ok n
    → ((k : Text) (rec : UserRecord)
        → lookup k (rewrite_user_scopes fn now s).1.users ≡ some (some rec)
        → (was : UserRecord) × (lookup k s.users ≡ some (some was)) × (rec.scope ≡ fn was.scope))
      × ((k : Text) (rec : InviteRecord)
          → lookup k (rewrite_user_scopes fn now s).1.invites ≡ some (some rec)
          → (was : InviteRecord) × (lookup k s.invites ≡ some (some was))
            × (rec.scope ≡ fn was.scope))
unfolding rewrite_user_scopes
rewrite_user_scopes_lem fn now s n =
    go (rewrite_bucket (λ (rec : UserRecord). rec.scope) (user_with_scope now) fn s.users)
      (rewrite_bucket (λ (rec : InviteRecord). rec.scope) invite_with_scope fn s.invites) refl refl
  where
    go :
        (u : Result UserError (Bucket UserRecord × ℕ))
        (i : Result UserError (Bucket InviteRecord × ℕ))
        → rewrite_bucket (λ (rec : UserRecord). rec.scope) (user_with_scope now) fn s.users ≡ u
        → rewrite_bucket (λ (rec : InviteRecord). rec.scope) invite_with_scope fn s.invites ≡ i
        → (rewritten_both s u i).0 ≡ ok n
        → ((k : Text) (rec : UserRecord)
            → lookup k (rewritten_both s u i).1.users ≡ some (some rec)
            → (was : UserRecord) × (lookup k s.users ≡ some (some was))
              × (rec.scope ≡ fn was.scope))
          × ((k : Text) (rec : InviteRecord)
              → lookup k (rewritten_both s u i).1.invites ≡ some (some rec)
              → (was : InviteRecord) × (lookup k s.invites ≡ some (some was))
                × (rec.scope ≡ fn was.scope))
    go (err x) i f g e = cc
    go (ok (us, a)) (err x) f g e = cc
    go (ok (us, a)) (ok (is, b)) f g e = (
      rewrite_bucket-found (λ (rec : UserRecord). rec.scope) (user_with_scope now) fn
          (λ x rec. refl) s.users us a f,
      rewrite_bucket-found (λ (rec : InviteRecord). rec.scope) invite_with_scope fn (λ x rec. refl)
          s.invites is b g,
    )

-- A rewriting that succeeds keeps every account and every invitation.
pub rewrite_user_scopes_kept :
    (fn : Text → Text) (now : ℕ) (s : Store) (n : ℕ)
    → (rewrite_user_scopes fn now s).0 ≡ ok n
    → ((k : Text) (was : UserRecord)
        → lookup k s.users ≡ some (some was)
        → (rec : UserRecord) × (lookup k (rewrite_user_scopes fn now s).1.users ≡ some (some rec))
          × (rec.scope ≡ fn was.scope))
      × ((k : Text) (was : InviteRecord)
          → lookup k s.invites ≡ some (some was)
          → (rec : InviteRecord) × (lookup k (rewrite_user_scopes fn now s).1.invites
              ≡ some (some rec))
            × (rec.scope ≡ fn was.scope))
unfolding rewrite_user_scopes
rewrite_user_scopes_kept fn now s n =
    go (rewrite_bucket (λ (rec : UserRecord). rec.scope) (user_with_scope now) fn s.users)
      (rewrite_bucket (λ (rec : InviteRecord). rec.scope) invite_with_scope fn s.invites) refl refl
  where
    go :
        (u : Result UserError (Bucket UserRecord × ℕ))
        (i : Result UserError (Bucket InviteRecord × ℕ))
        → rewrite_bucket (λ (rec : UserRecord). rec.scope) (user_with_scope now) fn s.users ≡ u
        → rewrite_bucket (λ (rec : InviteRecord). rec.scope) invite_with_scope fn s.invites ≡ i
        → (rewritten_both s u i).0 ≡ ok n
        → ((k : Text) (was : UserRecord)
            → lookup k s.users ≡ some (some was)
            → (rec : UserRecord) × (lookup k (rewritten_both s u i).1.users ≡ some (some rec))
              × (rec.scope ≡ fn was.scope))
          × ((k : Text) (was : InviteRecord)
              → lookup k s.invites ≡ some (some was)
              → (rec : InviteRecord) × (lookup k (rewritten_both s u i).1.invites ≡ some (some rec))
                × (rec.scope ≡ fn was.scope))
    go (err x) i f g e = cc
    go (ok (us, a)) (err x) f g e = cc
    go (ok (us, a)) (ok (is, b)) f g e = (
      rewrite_bucket-kept (λ (rec : UserRecord). rec.scope) (user_with_scope now) fn (λ x rec. refl)
          s.users us a f,
      rewrite_bucket-kept (λ (rec : InviteRecord). rec.scope) invite_with_scope fn (λ x rec. refl)
          s.invites is b g,
    )
