-- ===== src/FileLock/Leases.antt =====
-- Which leases the reaper and the end of a session remove.
use mathlib.Core.List.{Memᴰ}
use shoka.Prelude.{
  ℕ, ◌+◌, ◌-◌, ◌≤◌, ◌≡◌, ◌≢◌, ◌↔◌, ◌⊎◌, refl, ap, sym, ◌∙◌, Bool, true, not, List, [], ◌∷◌, arith,
  ltb, Bool-cases, inl, inr, length, keep,
}
use shoka.Text.{Text, text_eq}
use shoka.Text.Laws.{text_eq_iff}
use shoka.PartialEdit.{Bytes}
use shoka.FileLock.Steps.{Lease, of_session, release_all_for_session, reap_once}

abbrev Leases : Type 0
Leases = List (Bytes × Lease)

keep_back :
    (p : Bytes × Lease → Bool) (m : Leases) (e : Bytes × Lease)
    → Memᴰ e (keep p m)
    → Memᴰ e m × (p e ≡ true)
keep_back p [] e x = elim x [ ]
keep_back p (d ∷ m) e x = elim (Bool-cases (p d)) [
  | inl f ↦ first f (keep_back p m e) (rw f at x)
  | inr f ↦ let (k, h) = keep_back p m e (rw f at x) in (Memᴰ.tail k, h)
]
  where
    first :
        p d ≡ true
        → (Memᴰ e (keep p m) → Memᴰ e m × (p e ≡ true))
        → Memᴰ e (d ∷ keep p m)
        → Memᴰ e (d ∷ m) × (p e ≡ true)
    first f ih (Memᴰ.head same) = (Memᴰ.head same, ap p same ∙ f)
    first f ih (Memᴰ.tail k) = (Memᴰ.tail ((ih k).0), (ih k).1)

keep_on :
    (p : Bytes × Lease → Bool) (m : Leases) (e : Bytes × Lease)
    → Memᴰ e m
    → p e ≡ true
    → Memᴰ e (keep p m)
keep_on p [] e x h = x
keep_on p (d ∷ m) e (Memᴰ.head same) h = rw (ap p (sym same) ∙ h) (Memᴰ.head same)
keep_on p (d ∷ m) e (Memᴰ.tail x) h = elim (Bool-cases (p d)) [
  | inl f ↦ rw f (Memᴰ.tail (keep_on p m e x h))
  | inr f ↦ rw f (keep_on p m e x h)
]

abbrev is_young : ℕ → ℕ → Bytes × Lease → Bool
is_young max now (path, lease) = not (ltb max (now - lease.acquired_at))

reap_once_lem : (max now : ℕ) (m : Leases) → (reap_once max now m).0 ≡ keep (is_young max now) m
unfolding reap_once
reap_once_lem max now [] = refl
reap_once_lem max now (e ∷ m) = ground (arith, reap_once_lem max now m)

reap_once_count :
    (max now : ℕ) (m : Leases) → length m ≡ length (reap_once max now m).0 + (reap_once max now m).1
unfolding reap_once
reap_once_count max now [] = refl
reap_once_count max now (e ∷ m) = ground (arith, reap_once_count max now m)

-- A lease survives a reap exactly when it is not older than the limit, and the leases removed are
-- counted.
pub reap_once_iff :
    (max now : ℕ) (m : Leases)
    → ((path : Bytes) (lease : Lease)
        → Memᴰ (path, lease) (reap_once max now m).0
          ↔ (Memᴰ (path, lease) m × (now - lease.acquired_at ≤ max)))
      × (length m ≡ length (reap_once max now m).0 + (reap_once max now m).1)
reap_once_iff max now m = (
  λ path lease. rw (reap_once_lem max now m) (
    λ x. let (k, h) = keep_back (is_young max now) m (path, lease) x in (k, ground (arith, h)),
    λ x. keep_on (is_young max now) m (path, lease) x.0 (ground (arith, x.1)),
  ),
  reap_once_count max now m,
)

other_session :
    (session_id : Text) (path : Bytes) (lease : Lease)
    → (not (of_session session_id (path, lease)) ≡ true) ↔ (lease.session_id ≢ session_id)
unfolding of_session
other_session session_id path lease = (
  λ h same. let e = (text_eq_iff lease.session_id session_id).1 same in cc (h, e),
  λ n. elim (Bool-cases (text_eq lease.session_id session_id)) [
    | inl e ↦ absurd (n ((text_eq_iff _ _).0 e))
    | inr e ↦ rw e refl
  ],
)

-- The end of a session removes exactly its own leases; an empty session id removes none.
pub release_all_for_session_iff :
    (session_id : Text) (m : Leases) (path : Bytes) (lease : Lease)
    → Memᴰ (path, lease) (release_all_for_session session_id m)
      ↔ (Memᴰ (path, lease) m × ((session_id ≡ []) ⊎ (lease.session_id ≢ session_id)))
unfolding release_all_for_session
release_all_for_session_iff session_id m path lease = elim (Bool-cases (text_eq session_id [])) [
  | inl e ↦ rw e (λ x. (x, inl ((text_eq_iff _ _).0 e)), λ x. x.0)
  | inr e ↦ rw e (
    λ x.
        let (k, h) = keep_back (λ d. not (of_session session_id d)) m (path, lease) x in
        (k, inr ((other_session session_id path lease).0 h)),
    λ x. elim x.1 [
      | inl empty ↦ absurd (let f = (text_eq_iff session_id []).1 empty in cc (e, f))
      | inr n ↦
          keep_on (λ d. not (of_session session_id d)) m (path, lease) x.0
            ((other_session session_id path lease).1 n)
    ],
  )
]
