-- ===== src/Users/Redemption.antt =====
-- pkg/userstore/admin.go, RedeemInvite: what an invitation gives, and that it gives it once.
use shoka.Prelude.{
  ℕ, ◌≡◌, ◌∙◌, refl, sym, ap, true, false, Option, none, some, Bool-cases, inl, inr,
}
use shoka.Prelude.Assoc.{lookup, put}
use shoka.Prelude.Lookup.{put_same}
use shoka.Text.{Text}
use shoka.Text.Keys.{text_key}
use shoka.Users.{
  UserRecord, InviteRecord, Bucket, Store, UserError, invalid_invite, Result, err, ok, Done, Calls,
  stamped, with_handle, bucket_put,
}
use shoka.Text.Buckets.{bucket_put-eq-some}
use shoka.Users.Invites.{
  is_spent, invited, redeemed, redeem_account, redeem_found, redeem_with, redeem_invite,
}

-- What a redemption that succeeds has read and written.
abbrev pub HasRedeemed : Text → ℕ → Store → Done UserRecord → UserRecord → Type 0
HasRedeemed key now s r acc =
    (inv : InviteRecord) × (lookup key s.invites ≡ some (some inv))
    × (is_spent now inv ≡ false)
    × (lookup inv.email s.users ≡ none)
    × (acc.email ≡ inv.email)
    × (acc.scope ≡ inv.scope)
    × (r.1.users ≡ put acc.email (some acc) s.users)
    × (r.1.invites ≡ put key (some (record inv { used = true })) s.invites)

redeemed-HasRedeemed :
    (key : Text) (now : ℕ) (inv : InviteRecord) (rec acc : UserRecord) (s : Store)
    → lookup key s.invites ≡ some (some inv)
    → is_spent now inv ≡ false
    → lookup inv.email s.users ≡ none
    → rec.email ≡ inv.email
    → rec.scope ≡ inv.scope
    → (users : Option (Bucket UserRecord)) (invites : Option (Bucket InviteRecord))
    → bucket_put rec.email (some rec) s.users ≡ users
    → bucket_put key (some (record inv { used = true })) s.invites ≡ invites
    → (redeemed key inv rec s users invites).0 ≡ ok acc
    → HasRedeemed key now s (redeemed key inv rec s users invites) acc
redeemed-HasRedeemed key now inv rec acc s there live absent email scope none invites f g e = cc
redeemed-HasRedeemed key now inv rec acc s there live absent email scope (some u) none f g e = cc
redeemed-HasRedeemed key now inv rec acc s there live absent email scope (some u) (some i) f g e =
    let is : rec ≡ acc = cc e in
    (
      inv,
      there,
      live,
      absent,
      sym (ap (λ (x : UserRecord). x.email) is) ∙ email,
      sym (ap (λ (x : UserRecord). x.scope) is) ∙ scope,
      (bucket_put-eq-some rec.email (some rec) s.users u f).0
          ∙ ap (λ (x : UserRecord). put x.email (some x) s.users) is,
      (bucket_put-eq-some key (some (record inv { used = true })) s.invites i g).0,
    )

redeem_found-HasRedeemed :
    (key : Text) (now : ℕ) (rec acc : UserRecord) (s : Store) (o : Option (Option InviteRecord))
    → lookup key s.invites ≡ o
    → (redeem_found key now rec s o).0 ≡ ok acc
    → HasRedeemed key now s (redeem_found key now rec s o) acc
unfolding stamped
redeem_found-HasRedeemed key now rec acc s none f e = cc
redeem_found-HasRedeemed key now rec acc s (some none) f e = cc
redeem_found-HasRedeemed key now rec acc s (some (some inv)) f e =
    elim (Bool-cases (is_spent now inv)) [
      | inl spent ↦ absurd (
          let bad : ◌≡◌ {A = Result UserError UserRecord} (err invalid_invite) (ok acc) =
            sym (rw spent refl) ∙ e in
          cc bad)
      | inr live ↦ rw live (opened (lookup inv.email s.users) refl live (sym (rw live refl) ∙ e))
    ]
  where
    opened :
        (o : Option (Option UserRecord))
        → lookup inv.email s.users ≡ o
        → is_spent now inv ≡ false
        → (redeem_account key inv (invited inv now rec) s o).0 ≡ ok acc
        → HasRedeemed key now s (redeem_account key inv (invited inv now rec) s o) acc
    opened (some taken) g live k = cc
    opened none g live k =
        redeemed-HasRedeemed key now inv (invited inv now rec) acc s f live g refl refl
          (bucket_put inv.email (some (invited inv now rec)) s.users)
          (bucket_put key (some (record inv { used = true })) s.invites) refl refl k

module _ (c : Calls) (code : Text) where
  redeem_invite-HasRedeemed :
      (now : ℕ) (handle : Option Text) (rec acc : UserRecord) (s : Store)
      → (redeem_invite c code now handle rec s).0 ≡ ok acc
      → HasRedeemed (c.digest code) now s (redeem_invite c code now handle rec s) acc
  unfolding redeem_invite
  redeem_invite-HasRedeemed now handle rec acc s = go (with_handle handle rec)
    where
      go :
          (o : Option UserRecord)
          → (redeem_with (c.digest code) now s o).0 ≡ ok acc
          → HasRedeemed (c.digest code) now s (redeem_with (c.digest code) now s o) acc
      go none e = cc
      go (some filled) e =
          redeem_found-HasRedeemed (c.digest code) now filled acc s
            (lookup (c.digest code) s.invites) refl e

  used_up :
      (now : ℕ) (handle : Text) (rec : UserRecord) (s : Store) (inv : InviteRecord)
      → lookup (c.digest code) s.invites ≡ some (some (record inv { used = true }))
      → redeem_invite c code now (some handle) rec s ≡ (err invalid_invite, s)
  unfolding redeem_invite is_spent
  used_up now handle rec s inv e = rw e refl

  -- A redemption that succeeds opens the account of the invited address, which had none, with the
  -- scope of a live invite, and every later redemption of the code is refused and changes nothing.
  pub redeem_invite-redeem_invite :
      (now : ℕ) (handle : Option Text) (rec acc : UserRecord) (s : Store) (later : ℕ)
      (handle_again : Text) (other : UserRecord)
      → (redeem_invite c code now handle rec s).0 ≡ ok acc
      → ((inv : InviteRecord) × (lookup (c.digest code) s.invites ≡ some (some inv))
          × (is_spent now inv ≡ false)
          × (lookup inv.email s.users ≡ none)
          × (acc.email ≡ inv.email)
          × (acc.scope ≡ inv.scope))
        × (lookup acc.email (redeem_invite c code now handle rec s).1.users ≡ some (some acc))
        × (redeem_invite c code later
              (some handle_again)
              other
              (redeem_invite c code now handle rec s).1
            ≡ (err invalid_invite, (redeem_invite c code now handle rec s).1))
  redeem_invite-redeem_invite now handle rec acc s later again other e =
      let (inv, there, live, absent, email, scope, users, invites) =
        redeem_invite-HasRedeemed now handle rec acc s e in
      (
        (inv, there, live, absent, email, scope),
        ap (lookup acc.email) users ∙ put_same acc.email (some acc) s.users,
        used_up later again other _ inv (
            ap (lookup (c.digest code)) invites
            ∙ put_same (c.digest code) (some (record inv { used = true })) s.invites),
      )
