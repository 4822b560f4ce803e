-- ===== src/Users/Accounts.antt =====
-- pkg/userstore: who may open an account: the first registrant, and an invitee once.
use shoka.Prelude.{
  ℕ, ◌≡◌, ◌∙◌, refl, sym, ap, Bool, true, false, Option, none, some, [], ◌∷◌, if◌then◌else◌,
  Bool-cases, inl, inr,
}
use shoka.Prelude.Assoc.{lookup, put}
use shoka.Prelude.Lookup.{put_same}
use shoka.Text.{
  Text, text_eq, trim_space, split, trim_right, trim_left, is_space, index, has_suffix,
  strip_suffix, trim_suffix,
}
use shoka.Authz.{parse_scope}
use shoka.Text.Buckets.{bucket_put-eq-some}
use shoka.Text.Keys.{text_key}
use shoka.ScopeOps.{is_super_user}
use shoka.Users.{
  admin_scope, UserRecord, Bucket, Store, UserError, users_exist, Result, err, ok, Calls,
  normalize_email, stamped, with_handle, has_admin_grant, is_admin, email_required, no_rows,
  is_empty, put_user_in, guarded_put, create_stamped, create_with_guard, create_first_admin,
  bucket_put,
}

put-filled : {A : Type 0} (k : Text) (v : Option A) (b : Bucket A) → no_rows (put k v b) ≡ false
unfolding put
put-filled k v [] = refl
put-filled k v ((j, w) ∷ b) = elim (Bool-cases (text_eq j k)) [
  | inl e ↦ rw e refl
  | inr e ↦ rw e refl
]

-- What the transaction of createWithGuard has done where it succeeds.
create_stamped-eq-ok :
    (guard : UserRecord → Option UserError) (now : ℕ) (s : Store) (o : Option UserRecord)
    (acc : UserRecord)
    → (create_stamped guard now s o).0 ≡ ok acc
    → (rec : UserRecord) × (o ≡ some rec)
      × (guard rec ≡ none)
      × (acc ≡ stamped now rec)
      × ((create_stamped guard now s o).1 ≡ record s { users = put acc.email (some acc) s.users })
create_stamped-eq-ok guard now s none acc e = cc
create_stamped-eq-ok guard now s (some rec) acc e = checked (guard rec) refl e
  where
    Made : Option UserError → Type 0
    Made g =
        (r : UserRecord) × (some rec ≡ some r)
        × (guard r ≡ none)
        × (acc ≡ stamped now r)
        × ((guarded_put (stamped now rec) s g).1
            ≡ record s { users = put acc.email (some acc) s.users })

    stored :
        (b : Option (Bucket UserRecord))
        → bucket_put (stamped now rec).email (some (stamped now rec)) s.users ≡ b
        → (put_user_in (stamped now rec) s b).0 ≡ ok acc
        → (acc ≡ stamped now rec)
          × ((put_user_in (stamped now rec) s b).1
              ≡ record s { users = put acc.email (some acc) s.users })
    stored none f g = cc
    stored (some b) f g =
        let is : stamped now rec ≡ acc = cc g in
        (
          sym is,
          ap (λ u. record s { users = u })
              ((bucket_put-eq-some (stamped now rec).email (some (stamped now rec)) s.users b f).0
                ∙ ap (λ (x : UserRecord). put x.email (some x) s.users) is),
        )

    checked :
        (g : Option UserError)
        → guard rec ≡ g
        → (guarded_put (stamped now rec) s g).0 ≡ ok acc
        → Made g
    checked (some x) f k = cc
    checked none f k =
        let (is, after) =
          stored (bucket_put (stamped now rec).email (some (stamped now rec)) s.users) refl k in
        (rec, refl, f, is, after)

with_handle_scope :
    (handle : Option Text) (rec out : UserRecord)
    → with_handle handle rec ≡ some out
    → out.scope ≡ rec.scope
with_handle_scope none rec out e = elim (Bool-cases (text_eq rec.handle [])) [
  | inl f ↦
      absurd (let bad : ◌≡◌ {A = Option UserRecord} none (some out) = sym (rw f refl) ∙ e in cc bad)
  | inr f ↦
      let good : some rec ≡ some out = sym (rw f refl) ∙ e in
      let is : rec ≡ out = cc good in sym (ap (λ (x : UserRecord). x.scope) is)
]
with_handle_scope (some h) rec out e = elim (Bool-cases (text_eq rec.handle [])) [
  | inl f ↦
      let good : some (record rec { handle = h }) ≡ some out = sym (rw f refl) ∙ e in
      let is : record rec { handle = h } ≡ out = cc good in
      sym (ap (λ (x : UserRecord). x.scope) is)
  | inr f ↦
      let good : some rec ≡ some out = sym (rw f refl) ∙ e in
      let is : rec ≡ out = cc good in sym (ap (λ (x : UserRecord). x.scope) is)
]

first_admin_refused :
    (c : Calls) (handle : Text) (now : ℕ) (rec : UserRecord) (s : Store)
    → text_eq rec.email [] ≡ false
    → is_empty s ≡ false
    → create_first_admin c (some handle) now rec s ≡ (err users_exist, s)
unfolding create_first_admin create_with_guard
first_admin_refused c handle now rec s named filled = rw named (rw filled refl)

admin_scope-has_admin_grant : has_admin_grant (split b',' admin_scope) ≡ true
unfolding split text_eq trim_space trim_right trim_left is_space
admin_scope-has_admin_grant = refl

admin_scope-is_super_user : is_super_user admin_scope ≡ true
unfolding is_super_user parse_scope split text_eq trim_space trim_right trim_left is_space index
    has_suffix strip_suffix trim_suffix
admin_scope-is_super_user = refl

-- Where the first registration succeeds the store was empty and the account is stored as a super-
-- user; a registration of a named address that comes after it is refused and changes nothing.
pub create_first_admin-create_first_admin :
    (c : Calls) (handle : Option Text) (now : ℕ) (rec acc : UserRecord) (s : Store)
    (handle_again : Text) (later : ℕ) (other : UserRecord)
    → (create_first_admin c handle now rec s).0 ≡ ok acc
    → text_eq other.email [] ≡ false
    → (is_empty s ≡ true)
      × (is_admin acc ≡ true)
      × (is_super_user acc.scope ≡ true)
      × (lookup acc.email (create_first_admin c handle now rec s).1.users ≡ some (some acc))
      × (create_first_admin c
            (some handle_again)
            later
            other
            (create_first_admin c handle now rec s).1
          ≡ (err users_exist, (create_first_admin c handle now rec s).1))
unfolding create_first_admin create_with_guard stamped is_empty is_admin
create_first_admin-create_first_admin c handle now rec acc s again later other e named =
    elim (Bool-cases (text_eq rec.email [])) [
      | inl unnamed ↦ absurd (
          let bad : ◌≡◌ {A = Result UserError UserRecord} (err email_required) (ok acc) =
            sym (rw unnamed refl) ∙ e in
          cc bad)
      | inr fine ↦
          let new = record rec { email = normalize_email c rec.email; scope = admin_scope } in
          let guard : UserRecord → Option UserError =
            λ r. if is_empty s then none else some users_exist in
          let made : (create_stamped guard now s (with_handle handle new)).0 ≡ ok acc =
            sym (rw fine refl) ∙ e in
          let (filled, handled, open_, is, after) =
            create_stamped-eq-ok guard now s (with_handle handle new) acc made in
          let scope_is : acc.scope ≡ admin_scope =
            ap (λ (x : UserRecord). x.scope) is ∙ with_handle_scope handle new filled handled in
          let users_is = ap (λ (x : Store). x.users) after in
          rw fine (
            was_empty (is_empty s) open_,
            ap (λ x. has_admin_grant (split b',' x)) scope_is ∙ admin_scope-has_admin_grant,
            ap is_super_user scope_is ∙ admin_scope-is_super_user,
            ap (lookup acc.email) users_is ∙ put_same acc.email (some acc) s.users,
            first_admin_refused c again later other _ named
                (ap no_rows users_is ∙ put-filled acc.email (some acc) s.users),
          )
    ]
  where
    was_empty : (b : Bool) → (if b then none else some users_exist) ≡ none → b ≡ true
    was_empty true f = refl
    was_empty false f = cc
