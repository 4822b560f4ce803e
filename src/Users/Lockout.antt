-- ===== src/Users/Lockout.antt =====
-- pkg/userstore/admin.go: the operations that log a user out everywhere.
use shoka.Prelude.{
  ℕ, ◌≡◌, ◌∙◌, ◌↔◌, refl, sym, ap, true, false, Option, none, some, [], ltb, Bool-cases, inl, inr,
}
use shoka.Prelude.Assoc.{lookup, remove, Distinct}
use shoka.Text.{Text, text_eq}
use shoka.Text.Buckets.{drop_rows_iff}
use shoka.Text.Keys.{text_key}
use shoka.Users.{
  UserRecord, SessionRecord, Bucket, Store, ok, Done, Calls, normalize_email, bucket_put,
}
use shoka.Users.Sessions.{session_found, lookup_session}
use shoka.Users.Admin.{
  drop_sessions, edited_in, edited, edit_user, removed, remove_user, set_user_disabled,
  set_user_password, clear_totp,
}

session_found-eq-ok :
    (id : Text) (now : ℕ) (s : Store) (o : Option (Option SessionRecord)) (sess : SessionRecord)
    → ((session_found id now s o).0 ≡ ok sess)
      ↔ ((o ≡ some (some sess)) × (ltb sess.expiry now ≡ false))
session_found-eq-ok id now s none sess = (λ e. cc e, λ x. cc (x.0))
session_found-eq-ok id now s (some none) sess = (λ e. cc e, λ x. cc (x.0))
session_found-eq-ok id now s (some (some rec)) sess = elim (Bool-cases (ltb rec.expiry now)) [
  | inl late ↦ rw late (
    λ e. cc e,
    λ x.
        let is : some (some rec) ≡ some (some sess) = x.0 in
        let rec_is : rec ≡ sess = cc is in
        let early = ap (λ (y : SessionRecord). ltb y.expiry now) rec_is ∙ x.1 in cc (early, late),
  )
  | inr early ↦ rw early (
    λ e.
        let is : ok rec ≡ ok sess = e in
        let rec_is : rec ≡ sess = cc is in
        (
          ap (λ y. some (some y)) rec_is,
          sym (ap (λ (y : SessionRecord). ltb y.expiry now) rec_is) ∙ early,
        ),
    λ x. let is : some (some rec) ≡ some (some sess) = x.0 in cc is,
  )
]

-- A session is accepted exactly where it stands in the bucket and has not expired.
pub lookup_session_iff :
    (id : Text) (now : ℕ) (s : Store) (sess : SessionRecord)
    → ((lookup_session id now s).0 ≡ ok sess)
      ↔ ((lookup id s.sessions ≡ some (some sess)) × (ltb sess.expiry now ≡ false))
unfolding lookup_session
lookup_session_iff id now s sess = session_found-eq-ok id now s (lookup id s.sessions) sess

drop_sessions-lookup_session :
    (key : Text) (s : Store)
    → Distinct s.sessions
    → (id : Text) (now : ℕ) (sess : SessionRecord)
    → ((lookup_session id now (drop_sessions key s)).0 ≡ ok sess)
      ↔ (((lookup_session id now s).0 ≡ ok sess) × (text_eq sess.email key ≡ false))
unfolding drop_sessions
drop_sessions-lookup_session key s d id now sess =
    let after = lookup_session_iff id now (drop_sessions key s) sess in
    let before = lookup_session_iff id now s sess in
    let left = drop_rows_iff (λ (x : SessionRecord). text_eq x.email key) s.sessions id sess d in
    (
      λ e. let (row, alive) = after.0 e in (before.1 ((left.0 row).0, alive), (left.0 row).1),
      λ x. let (row, alive) = before.0 x.0 in after.1 (left.1 (row, x.1), alive),
    )

-- The operations that end the sessions of an account, with their results.
pub data LogsOut (c : Calls) (email : Text) (s : Store) : Done (Unit {0}) → Type 0 where
  by_removal : LogsOut c email s (remove_user c email s)
  by_disabling : (now : ℕ) → LogsOut c email s (set_user_disabled c email true now s)
  by_password :
      (password_hash : Text) (now : ℕ)
      → LogsOut c email s (set_user_password c email password_hash now s)
  by_totp : (now : ℕ) → LogsOut c email s (clear_totp c email now s)

-- What a sweep of the sessions has left, whatever else has changed.
abbrev pub HasDropped : Text → Store → Done (Unit {0}) → Type 0
HasDropped key s r = (t : Store) × (r.1 ≡ drop_sessions key t) × (t.sessions ≡ s.sessions)

edited-HasDropped :
    (f : UserRecord → UserRecord) (key : Text) (s : Store)
    → (edit_user f true key s).0 ≡ ok tt
    → HasDropped key s (edit_user f true key s)
unfolding edit_user
edited-HasDropped f key s = go (lookup key s.users)
  where
    stored :
        (o : Option (Bucket UserRecord))
        → (edited_in true key s o).0 ≡ ok tt
        → HasDropped key s (edited_in true key s o)
    stored none e = cc
    stored (some b) e = (record s { users = b }, refl, refl)

    go :
        (o : Option (Option UserRecord))
        → (edited f true key s o).0 ≡ ok tt
        → HasDropped key s (edited f true key s o)
    go none e = cc
    go (some none) e = cc
    go (some (some rec)) e = stored (bucket_put key (some (f rec)) s.users) e

removed-HasDropped :
    (c : Calls) (key : Text) (s : Store) (o : Option (Option UserRecord))
    → (removed c key s o).0 ≡ ok tt
    → HasDropped key s (removed c key s o)
removed-HasDropped c key s none e = cc
removed-HasDropped c key s (some row) e = (record s { users = remove key s.users }, refl, refl)

LogsOut-HasDropped :
    {c : Calls} {email : Text} {s : Store} {r : Done (Unit {0})}
    → LogsOut c email s r
    → r.0 ≡ ok tt
    → HasDropped (normalize_email c email) s r
unfolding remove_user set_user_disabled set_user_password clear_totp
LogsOut-HasDropped {c = c} {email = email} {s = s} by_removal e =
    removed-HasDropped c (normalize_email c email) s (lookup (normalize_email c email) s.users) e
LogsOut-HasDropped {c = c} {email = email} {s = s} (by_disabling now) e =
    edited-HasDropped (λ rec. record rec { disabled = true; updated_at = now })
      (normalize_email c email) s e
LogsOut-HasDropped {c = c} {email = email} {s = s} (by_password hash now) e =
    edited-HasDropped (λ rec. record rec { password_hash = hash; updated_at = now })
      (normalize_email c email) s e
LogsOut-HasDropped {c = c} {email = email} {s = s} (by_totp now) e =
    edited-HasDropped (λ rec. record rec { totp_secret_enc = []; updated_at = now })
      (normalize_email c email) s e

-- Where removing or disabling an account, setting its password or clearing its second factor
-- succeeds, and the sessions have distinct keys, exactly the sessions of other addresses are still
-- accepted.
pub LogsOut-lookup_session :
    {c : Calls} {email : Text} {s : Store} {r : Done (Unit {0})}
    → LogsOut c email s r
    → r.0 ≡ ok tt
    → Distinct s.sessions
    → (id : Text) (now : ℕ) (sess : SessionRecord)
    → ((lookup_session id now r.1).0 ≡ ok sess) ↔ (
        ((lookup_session id now s).0 ≡ ok sess)
        × (text_eq sess.email (normalize_email c email) ≡ false))
LogsOut-lookup_session {c = c} {email = email} {s = s} {r = r} l e d id now sess =
    let key = normalize_email c email in
    let (t, is, same) = LogsOut-HasDropped l e in
    let on_t = drop_sessions-lookup_session key t (rw same d) id now sess in
    let after = lookup_session_iff id now r.1 sess in
    let on_drop = lookup_session_iff id now (drop_sessions key t) sess in
    let before = lookup_session_iff id now s sess in
    let at_t = lookup_session_iff id now t sess in
    let rows : r.1.sessions ≡ (drop_sessions key t).sessions = ap (λ (x : Store). x.sessions) is in
    (
      λ f.
          let (row, alive) = after.0 f in
          let (was, other) = on_t.0 (on_drop.1 (sym (ap (lookup id) rows) ∙ row, alive)) in
          let (there, _) = at_t.0 was in
          (before.1 (sym (ap (lookup id) same) ∙ there, alive), other),
      λ x.
          let (row, alive) = before.0 x.0 in
          let (there, _) = on_drop.0 (on_t.1 (at_t.1 (ap (lookup id) same ∙ row, alive), x.1)) in
          after.1 (ap (lookup id) rows ∙ there, alive),
    )
