-- ===== src/FileLock/Exclusion.antt =====
-- The ownership of the mutexes over steps of goroutines, and functions under a common path.
use mathlib.Core.Path.{subst}
use mathlib.Core.List.{Memᴰ}
use shoka.Prelude.{
  ℕ, ◌≡◌, ◌≢◌, ◌∙◌, refl, ap, sym, true, false, not, ◌&&◌, ◌||◌, none, some, List, [], ◌∷◌, ◌++◌,
  arith, ◌==◌, Bool-cases, inl, inr, ==_iff, All,
}
use shoka.PartialEdit.{Bytes}
use shoka.FileLock.Order.{stripe_of, lock_order, has, has-append, lock_order-covers}
use shoka.FileLock.Steps.{
  Phase, idle, locking, running, unlocking, abandoned, Manager, set, backwards, Move, Step, move,
  request, end_context, acquire, acquire_done, cancel, take_abandoned, enter, finish, unlock, leave,
  release_session, reap, new_manager, Reach, start, next,
}
use shoka.FileLock.Safety.{
  held, IsOnce, IsOrderly, IsSafe, has-backwards, backwards-IsOnce, append-IsOnce_left,
  lock_order-IsOnce, has-set, same-IsSafe, take-IsSafe, give-IsSafe,
}

append_assoc : (l : List ℕ) (i : ℕ) (r : List ℕ) → (l ++ i ∷ []) ++ r ≡ l ++ i ∷ r
append_assoc [] i r = refl
append_assoc (j ∷ l) i r = ap (λ x. j ∷ x) (append_assoc l i r)

append_nil : (l : List ℕ) → l ++ [] ≡ l
append_nil [] = refl
append_nil (j ∷ l) = ap (λ x. j ∷ x) (append_nil l)

module _ (m : Manager) (h : IsSafe m) where
  pub phase-IsOrderly : (t : ℕ) (p : Phase) → m.phase t ≡ p → IsOrderly p
  phase-IsOrderly t p e = subst IsOrderly e (h.orderly t)

  pub held_at :
      (t : ℕ) (p : Phase) → m.phase t ≡ p → (k : ℕ) → has k (held (m.phase t)) ≡ has k (held p)
  held_at t p e k = ap (λ x. has k (held x)) e

  taken-IsOnce :
      (t : ℕ) (s : _) (paths : List Bytes) (taken todo : List ℕ)
      → m.phase t ≡ locking s paths taken todo
      → IsOnce taken
  taken-IsOnce t s paths taken todo e =
      append-IsOnce_left taken todo (rw (phase-IsOrderly t _ e) (lock_order-IsOnce paths))

  free_absent :
      (t i : ℕ) (taken : List ℕ)
      → m.stripes i ≡ none
      → has i (held (m.phase t)) ≡ has i taken
      → has i taken ≡ false
  free_absent t i taken free e = elim (Bool-cases (has i taken)) [
    | inl mine ↦
        absurd (let owned : m.stripes i ≡ some t = h.locked i t (e ∙ mine) in cc (owned, free))
    | inr other ↦ other
  ]

  unlocked_same :
      (k i : ℕ) (rest : List ℕ)
      → has i rest ≡ false
      → has k rest ≡ (not (k == i) && (k == i || has k rest))
  unlocked_same k i rest absent = elim (Bool-cases (k == i)) [
    | inl e ↦ rw e (ap (λ x. has x rest) ((==_iff k i).0 e) ∙ absent)
    | inr e ↦ rw e refl
  ]

-- The goroutine that goes on waiting holds nothing, as before.
nothing_new :
    (m : Manager) (t u k : ℕ) (b p : Phase) (i : ℕ)
    → m.phase t ≡ p
    → m.phase u ≡ idle
    → p ≢ idle
    → has k (held (abandoned i)) ≡ has k (held (set t b m.phase u))
nothing_new m t u k b p i e f busy = sym (
    has-set k t u b m.phase ∙ elim (Bool-cases (t == u)) [
      | inl same ↦ absurd (busy (sym e ∙ ap m.phase ((==_iff t u).0 same) ∙ f))
      | inr other ↦ rw other (ap (λ x. has k (held x)) f)
    ])

Move-IsSafe : {m n : Manager} → Move m n → IsSafe m → IsSafe n
Move-IsSafe (acquire m t i s paths taken todo e free) h =
    take-IsSafe m t (locking s paths (taken ++ i ∷ []) todo) h
      (append_assoc taken i todo ∙ phase-IsOrderly m h t _ e) i free
      (λ k. ground (arith, has-append k taken (i ∷ []), held_at m h t _ e k))
Move-IsSafe (take_abandoned m u i e free) h =
    take-IsSafe m u (unlocking (i ∷ [])) h (refl, tt) i free
      (λ k. ground (arith, held_at m h u _ e k))
Move-IsSafe (enter m t now s paths taken e) h =
    same-IsSafe m t (running paths taken) h (sym (append_nil taken) ∙ phase-IsOrderly m h t _ e) _
      m.forced_releases (λ k. sym (held_at m h t _ e k))
Move-IsSafe (finish m t paths taken e) h =
    same-IsSafe m t (unlocking (backwards taken)) h
      (backwards-IsOnce taken (rw (phase-IsOrderly m h t _ e) (lock_order-IsOnce paths))) _
      m.forced_releases (λ k. has-backwards k taken ∙ sym (held_at m h t _ e k))
Move-IsSafe (unlock m t i rest e) h =
    give-IsSafe m t (unlocking rest) h (phase-IsOrderly m h t _ e).1 i
      (held_at m h t _ e i ∙ ground arith)
      (λ k.
        unlocked_same m h k i rest (phase-IsOrderly m h t _ e).0
        ∙ ground (arith, held_at m h t _ e k))
Move-IsSafe (leave m t e) h =
    same-IsSafe m t idle h tt m.leases m.forced_releases (λ k. sym (held_at m h t _ e k))

-- Every step keeps the ownership of the stripes: a mutex is locked by a goroutine exactly while the
-- goroutine counts it among its own, and what it holds and waits for is the order of its paths.
pub Step-IsSafe : {max_lease : ℕ} {m n : Manager} → Step max_lease m n → IsSafe m → IsSafe n
Step-IsSafe (move s) h = Move-IsSafe s h
Step-IsSafe (request m t s paths over e) h =
    let k =
      same-IsSafe m t (locking s paths [] (lock_order paths)) h refl m.leases m.forced_releases
        (λ k. sym (held_at m h t idle e k)) in
    record { owner = k.owner; locked = k.locked; orderly = k.orderly }
Step-IsSafe (end_context m t) h = record { owner = h.owner; locked = h.locked; orderly = h.orderly }
Step-IsSafe (acquire_done m t i s paths taken todo e free over) h =
    take-IsSafe m t (unlocking (i ∷ backwards taken)) h
      (
        has-backwards i taken ∙ free_absent m h t i taken free (held_at m h t _ e i),
        backwards-IsOnce taken (taken-IsOnce m h t s paths taken _ e),
      )
      i free (λ k. ground (arith, has-backwards k taken, held_at m h t _ e k))
Step-IsSafe (cancel m t u i s paths taken todo e f over) h =
    same-IsSafe (record m { phase = set t (unlocking (backwards taken)) m.phase }) u (abandoned i)
      (same-IsSafe m t (unlocking (backwards taken)) h
        (backwards-IsOnce taken (taken-IsOnce m h t s paths taken _ e)) m.leases m.forced_releases
        (λ k. has-backwards k taken ∙ sym (held_at m h t _ e k)))
      tt m.leases m.forced_releases
      (λ k. nothing_new m t u k (unlocking (backwards taken)) _ i e f (λ x. cc))
Step-IsSafe (release_session m s) h = record {
  owner = h.owner;
  locked = h.locked;
  orderly = h.orderly;
}
Step-IsSafe (reap m now) h = record { owner = h.owner; locked = h.locked; orderly = h.orderly }

new_manager-IsSafe : IsSafe new_manager
new_manager-IsSafe = record { owner = λ i t e. cc; locked = λ i t e. cc; orderly = λ t. tt }

-- In every state that the goroutines reach, the ownership of the stripes is as it should be.
pub Reach-IsSafe : {max_lease : ℕ} {m : Manager} → Reach max_lease m → IsSafe m
Reach-IsSafe start = new_manager-IsSafe
Reach-IsSafe (next r s) = Step-IsSafe s (Reach-IsSafe r)

in_order :
    (p : Bytes) (ps : List Bytes) (l : List ℕ)
    → All (λ q. has (stripe_of q) l ≡ true) ps
    → Memᴰ p ps
    → has (stripe_of p) l ≡ true
in_order p [] l a x = elim x [ ]
in_order p (q ∷ ps) l a (Memᴰ.head e) = rw e a.0
in_order p (q ∷ ps) l a (Memᴰ.tail x) = in_order p ps l a.1 x

holds_path :
    (m : Manager) (h : IsSafe m) (t : ℕ) (ps : List Bytes) (l : List ℕ) (p : Bytes)
    → m.phase t ≡ running ps l
    → Memᴰ p ps
    → m.stripes (stripe_of p) ≡ some t
holds_path m h t ps l p e x = h.locked (stripe_of p) t (held_at m h t _ e (stripe_of p) ∙ mine)
  where
    mine : has (stripe_of p) l ≡ true
    mine =
        ap (has (stripe_of p)) (phase-IsOrderly m h t _ e)
        ∙ in_order p ps (lock_order ps) (lock_order-covers ps) x

-- Mutual exclusion: in every state that the goroutines reach, whatever contexts end and leases are
-- reaped or released, two functions that run under a common path are run by the same goroutine.
pub exclusion :
    {max_lease : ℕ} {m : Manager} (t u : ℕ) (ps qs : List Bytes) (l r : List ℕ) (p : Bytes)
    → Reach max_lease m
    → m.phase t ≡ running ps l
    → m.phase u ≡ running qs r
    → Memᴰ p ps
    → Memᴰ p qs
    → t ≡ u
exclusion {m = m} t u ps qs l r p reached runs_t runs_u x y =
    let h = Reach-IsSafe reached in
    cc (holds_path m h t ps l p runs_t x, holds_path m h u qs r p runs_u y)
