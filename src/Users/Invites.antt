-- ===== src/Users/Invites.antt =====
-- pkg/userstore/admin.go: invitations.
use shoka.Prelude.{ℕ, ◌+◌, Bool, true, false, ◌||◌, Option, none, some, ltb, if◌then◌else◌}
use shoka.Prelude.Assoc.{lookup, remove}
use shoka.Text.{Text}
use shoka.Text.Keys.{text_key}
use shoka.Users.{
  UserRecord, InviteRecord, Bucket, Store, UserError, exists, invalid_invite, undecodable,
  key_required, no_entropy, Result, err, ok, Done, Calls, normalize_email, stamped, with_handle,
  bucket_put,
}

pub record InviteInfo : Type 0 where
  pub code_hash : Text
  pub email : Text
  pub scope : Text
  pub expiry : ℕ
  pub used : Bool
  pub created_at : ℕ

abbrev pub invite_info : InviteRecord → InviteInfo
invite_info rec = record {
  code_hash = rec.code_hash;
  email = rec.email;
  scope = rec.scope;
  expiry = rec.expiry;
  used = rec.used;
  created_at = rec.created_at;
}

abbrev pub put_invite_in :
    Text → InviteRecord → Store → Option (Bucket InviteRecord) → Done (Text × InviteRecord)
put_invite_in code rec s none = (err key_required, s)
put_invite_in code rec s (some b) = (ok (code, rec), record s { invites = b })

-- rec.Used || now.After(rec.Expiry)
unfoldable pub is_spent : ℕ → InviteRecord → Bool
is_spent now inv = inv.used || ltb inv.expiry now

abbrev pub invite_read : ℕ → Option (Option InviteRecord) → Result UserError InviteInfo
invite_read now none = err invalid_invite
invite_read now (some none) = err undecodable
invite_read now (some (some rec)) =
    if is_spent now rec then err invalid_invite else ok (invite_info rec)

-- The account that is stored: its address and scope are those of the invite.
abbrev pub invited : InviteRecord → ℕ → UserRecord → UserRecord
invited inv now rec = stamped now (record rec { email = inv.email; scope = inv.scope })

abbrev pub redeemed :
    Text
    → InviteRecord
    → UserRecord
    → Store
    → Option (Bucket UserRecord)
    → Option (Bucket InviteRecord)
    → Done UserRecord
redeemed key inv rec s (some users) (some invites) =
    (ok rec, record s { users = users; invites = invites })
redeemed key inv rec s _ _ = (err key_required, s)

abbrev pub redeem_account :
    Text → InviteRecord → UserRecord → Store → Option (Option UserRecord) → Done UserRecord
redeem_account key inv rec s (some taken) = (err exists, s)
redeem_account key inv rec s none =
    redeemed key inv rec s (bucket_put rec.email (some rec) s.users)
      (bucket_put key (some (record inv { used = true })) s.invites)

abbrev pub redeem_found :
    Text → ℕ → UserRecord → Store → Option (Option InviteRecord) → Done UserRecord
redeem_found key now rec s none = (err invalid_invite, s)
redeem_found key now rec s (some none) = (err undecodable, s)
redeem_found key now rec s (some (some inv)) =
    if is_spent now inv
    then (err invalid_invite, s)
    else redeem_account key inv (invited inv now rec) s (lookup inv.email s.users)

abbrev pub redeem_with : Text → ℕ → Store → Option UserRecord → Done UserRecord
redeem_with key now s none = (err no_entropy, s)
redeem_with key now s (some rec) = redeem_found key now rec s (lookup key s.invites)

module _ (c : Calls) where
  -- The invite and its code; the code is the handle that NewHandle returns.
  unfoldable pub create_invite :
      Option Text → Text → Text → Text → ℕ → ℕ → Store → Done (Text × InviteRecord)
  unfolding normalize_email bucket_put
  create_invite none email scope created_by now ttl s = (err no_entropy, s)
  create_invite (some code) email scope created_by now ttl s =
      let rec : InviteRecord = record {
        code_hash = c.digest code;
        email = normalize_email c email;
        scope = scope;
        expiry = now + ttl;
        used = false;
        created_by = normalize_email c created_by;
        created_at = now;
      } in
      put_invite_in code rec s (bucket_put rec.code_hash (some rec) s.invites)

  unfoldable pub invite_by_code : Text → ℕ → Store → Result UserError InviteInfo
  unfolding is_spent
  invite_by_code code now s = invite_read now (lookup (c.digest code) s.invites)

  unfoldable pub redeem_invite : Text → ℕ → Option Text → UserRecord → Store → Done UserRecord
  unfolding is_spent stamped bucket_put
  redeem_invite code now handle rec s = redeem_with (c.digest code) now s (with_handle handle rec)

unfoldable pub revoke_invite : Text → Store → Store
revoke_invite code_hash s = record s { invites = remove code_hash s.invites }
