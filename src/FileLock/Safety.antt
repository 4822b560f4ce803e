-- ===== src/FileLock/Safety.antt =====
-- Who holds the stripe mutexes, and the kinds of steps that change it.
use shoka.Prelude.{
  ℕ, ◌<◌, ◌≡◌, ◌∙◌, refl, ap, sym, true, false, not, ◌&&◌, ◌||◌, none, some, List, [], ◌∷◌, ◌++◌,
  arith, ◌==◌, if◌then◌else◌, Bool-cases, inl, inr, ==_iff, All,
}
use shoka.PartialEdit.{Bytes}
use shoka.FileLock.Order.{lock_order, has, has-append, IsAscending, lock_order-IsAscending}
use shoka.FileLock.Steps.{
  Phase, idle, locking, running, unlocking, abandoned, Manager, set, backwards,
}

-- The stripes that a goroutine holds.
abbrev pub held : Phase → List ℕ
held idle = []
held (locking session_id paths taken todo) = taken
held (running paths taken) = taken
held (unlocking l) = l
held (abandoned i) = []

abbrev pub IsOnce : List ℕ → Type 0
IsOnce [] = Unit
IsOnce (i ∷ l) = (has i l ≡ false) × IsOnce l

-- What a goroutine holds and waits for is the lock order of its paths.
abbrev pub IsOrderly : Phase → Type 0
IsOrderly idle = Unit
IsOrderly (locking session_id paths taken todo) = taken ++ todo ≡ lock_order paths
IsOrderly (running paths taken) = taken ≡ lock_order paths
IsOrderly (unlocking l) = IsOnce l
IsOrderly (abandoned i) = Unit

-- A stripe mutex is locked by a goroutine exactly while the goroutine counts it among its own.
pub record IsSafe (m : Manager) : Type 0 where
  pub owner : (i t : ℕ) → m.stripes i ≡ some t → has i (held (m.phase t)) ≡ true
  pub locked : (i t : ℕ) → has i (held (m.phase t)) ≡ true → m.stripes i ≡ some t
  pub orderly : (t : ℕ) → IsOrderly (m.phase t)

pub has-backwards : (k : ℕ) (l : List ℕ) → has k (backwards l) ≡ has k l
unfolding backwards
has-backwards k [] = refl
has-backwards k (i ∷ l) = ground (arith, has-append k (backwards l) (i ∷ []), has-backwards k l)

append-IsOnce : (i : ℕ) (l : List ℕ) → has i l ≡ false → IsOnce l → IsOnce (l ++ i ∷ [])
append-IsOnce i [] h o = (refl, tt)
append-IsOnce i (j ∷ l) h o =
    (has-append j l (i ∷ []) ∙ ground (arith, o.0), append-IsOnce i l (ground (arith, h)) o.1)

pub backwards-IsOnce : (l : List ℕ) → IsOnce l → IsOnce (backwards l)
unfolding backwards
backwards-IsOnce [] o = tt
backwards-IsOnce (i ∷ l) o =
    append-IsOnce i (backwards l) (has-backwards i l ∙ o.0) (backwards-IsOnce l o.1)

above_absent : (i : ℕ) (l : List ℕ) → All (λ j. i < j) l → has i l ≡ false
above_absent i [] a = refl
above_absent i (j ∷ l) a = ground (arith, above_absent i l a.1)

ascending-IsOnce : (l : List ℕ) → IsAscending l → IsOnce l
ascending-IsOnce [] a = tt
ascending-IsOnce (i ∷ l) a = (above_absent i l a.0, ascending-IsOnce l a.1)

pub append-IsOnce_left : (l r : List ℕ) → IsOnce (l ++ r) → IsOnce l
append-IsOnce_left [] r o = tt
append-IsOnce_left (i ∷ l) r o = (ground (arith, has-append i l r, o.0), append-IsOnce_left l r o.1)

pub lock_order-IsOnce : (paths : List Bytes) → IsOnce (lock_order paths)
lock_order-IsOnce paths = ascending-IsOnce _ (lock_order-IsAscending paths).0

pub has-set :
    (k t u : ℕ) (b : Phase) (f : ℕ → Phase)
    → has k (held (set t b f u)) ≡ (if t == u then has k (held b) else has k (held (f u)))
unfolding set
has-set k t u b f = elim (Bool-cases (t == u)) [ inl e ↦ rw e refl | inr e ↦ rw e refl ]

module _ (m : Manager) (t : ℕ) (b : Phase) (h : IsSafe m) (fits : IsOrderly b) where
  set-IsOrderly : (u : ℕ) → IsOrderly (set t b m.phase u)
  unfolding set
  set-IsOrderly u = elim (Bool-cases (t == u)) [ inl e ↦ rw e fits | inr e ↦ rw e (h.orderly u) ]

  same_stripe : (i k : ℕ) → (i == k) ≡ true → m.stripes i ≡ m.stripes k
  same_stripe i k e = ap m.stripes ((==_iff i k).0 e)

  same_phase : (k u : ℕ) → (t == u) ≡ true → has k (held (m.phase t)) ≡ has k (held (m.phase u))
  same_phase k u e = ap (λ x. has k (held (m.phase x))) ((==_iff t u).0 e)

  -- A step of a goroutine that holds the same stripes after it.
  pub same-IsSafe :
      (leases : _) (n : ℕ)
      → ((k : ℕ) → has k (held b) ≡ has k (held (m.phase t)))
      → IsSafe (record m { phase = set t b m.phase; leases = leases; forced_releases = n })
  same-IsSafe leases n same = record {
    owner = λ k u e. kept k u ∙ h.owner k u e;
    locked = λ k u e. h.locked k u (sym (kept k u) ∙ e);
    orderly = set-IsOrderly;
  }
    where
      kept : (k u : ℕ) → has k (held (set t b m.phase u)) ≡ has k (held (m.phase u))
      kept k u = has-set k t u b m.phase ∙ elim (Bool-cases (t == u)) [
        | inl e ↦ rw e (rw (← (==_iff t u).0 e) (same k))
        | inr e ↦ rw e refl
      ]

  -- A step that takes one stripe, which was free.
  pub take-IsSafe :
      (i : ℕ)
      → m.stripes i ≡ none
      → ((k : ℕ) → has k (held b) ≡ (k == i || has k (held (m.phase t))))
      → IsSafe (record m { stripes = set i (some t) m.stripes; phase = set t b m.phase })
  unfolding set
  take-IsSafe i free more = record {
    owner = λ k u e. ground (
      arith,
      e,
      more k,
      h.owner k u,
      h.locked k u,
      h.owner k t,
      h.locked k t,
      same_stripe i k,
      same_phase k u,
      has-set k t u b m.phase,
    );
    locked = λ k u e. ground (
      arith,
      e,
      more k,
      h.owner k u,
      h.locked k u,
      h.owner k t,
      h.locked k t,
      same_stripe i k,
      same_phase k u,
      has-set k t u b m.phase,
    );
    orderly = set-IsOrderly;
  }

  -- A step that gives one stripe back.
  pub give-IsSafe :
      (i : ℕ)
      → has i (held (m.phase t)) ≡ true
      → ((k : ℕ) → has k (held b) ≡ (not (k == i) && has k (held (m.phase t))))
      → IsSafe (record m { stripes = set i none m.stripes; phase = set t b m.phase })
  unfolding set
  give-IsSafe i mine fewer = record {
    owner = λ k u e. ground (
      arith,
      e,
      fewer k,
      h.owner k u,
      h.locked k u,
      h.owner k t,
      h.locked k t,
      same_stripe i k,
      same_phase k u,
      has-set k t u b m.phase,
    );
    locked = λ k u e. ground (
      arith,
      e,
      fewer k,
      h.owner k u,
      h.locked k u,
      h.owner k t,
      h.locked k t,
      same_stripe i k,
      same_phase k u,
      has-set k t u b m.phase,
    );
    orderly = set-IsOrderly;
  }
