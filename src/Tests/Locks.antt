-- ===== src/Tests/Locks.antt =====
-- internal/storage/filelock on concrete paths and goroutines.
use shoka.Prelude.{◌≡◌, refl, List, [], ◌∷◌}
use mathlib.Core.List.{Memᴰ}
use shoka.Prelude.{ℕ, ◌≢◌, AnyOf, none, some, true, false}
use shoka.Text.{Text, codes}
use shoka.FileLock.Steps.{
  idle, locking, running, Manager, set, put_leases, move, request, acquire, enter, new_manager,
  Reach, start, next,
}
use shoka.FileLock.Leases.{reap_once_iff}
use shoka.Prelude.{◌-◌, ◌+◌, ◌≤◌, ◌↔◌, length}
use shoka.FileLock.Steps.{Lease, reap_once}
use shoka.FileLock.Safety.{IsSafe}
use shoka.FileLock.Exclusion.{Reach-IsSafe, exclusion}
use shoka.FileLock.Progress.{CanMove, progress}
use shoka.PartialEdit.{Bytes}
use shoka.FileLock.Order.{
  lock_order, IsAscending, IsBounded, has, stripe_of, lock_order_iff, fnv32a,
}

abbrev paths : List Bytes
paths = codes "b.md" ∷ codes "a.md" ∷ codes "b.md" ∷ []

-- The published value of FNV-1a for "a".
fnv32a_test : fnv32a (codes "a") ≡ 0xe40c292c
unfolding fnv32a
fnv32a_test = refl

lock_order_iff_example :
    IsAscending (lock_order paths)
    × IsBounded (lock_order paths)
    × ((i : ℕ) → (has i (lock_order paths) ≡ true) ↔ AnyOf (λ p. i ≡ stripe_of p) paths)
lock_order_iff_example = lock_order_iff paths

-- Goroutine 0 runs under the lock of one path, and goroutine 1 waits for it.
abbrev one_path : List Bytes
one_path = codes "a" ∷ []

abbrev session : Text
session = codes "s"

abbrev requested : Manager
requested = record new_manager {
  phase = set 0 (locking session one_path [] (lock_order one_path)) new_manager.phase;
  ended = set 0 false new_manager.ended;
}

abbrev acquired : Manager
acquired = record requested {
  stripes = set 44 (some 0) requested.stripes;
  phase = set 0 (locking session one_path (44 ∷ []) []) requested.phase;
}

abbrev entered : Manager
entered = record acquired {
  phase = set 0 (running one_path (44 ∷ [])) acquired.phase;
  leases = put_leases one_path session (λ p. 5) [];
}

abbrev contended : Manager
contended = record entered {
  phase = set 1 (locking session one_path [] (lock_order one_path)) entered.phase;
  ended = set 1 false entered.ended;
}

one_stripe : requested.phase 0 ≡ locking session one_path [] (44 ∷ [])
unfolding lock_order fnv32a set
one_stripe = refl

both_done : acquired.phase 0 ≡ locking session one_path (44 ∷ []) []
unfolding set
both_done = refl

other_idle : entered.phase 1 ≡ idle
unfolding set
other_idle = refl

first_free : requested.stripes 44 ≡ none
first_free = refl

contended-Reach : Reach 300 contended
contended-Reach =
    next
      (next
        (next (next start (request new_manager 0 session one_path false refl))
          (move (acquire requested 0 44 session one_path [] [] one_stripe first_free)))
        (move (enter acquired 0 (λ p. 5) session one_path (44 ∷ []) both_done)))
      (request entered 1 session one_path false other_idle)

holder_runs : contended.phase 0 ≡ running one_path (44 ∷ [])
unfolding set
holder_runs = refl

waiter_waits : contended.phase 1 ≡ locking session one_path [] (lock_order one_path)
unfolding set
waiter_waits = refl

waiter_busy : contended.phase 1 ≢ idle
waiter_busy e = cc (waiter_waits, e)

Reach-IsSafe_example : IsSafe contended
Reach-IsSafe_example = Reach-IsSafe contended-Reach

exclusion_example : ◌≡◌ {A = ℕ} 0 0
exclusion_example =
    exclusion 0 0 one_path one_path (44 ∷ []) (44 ∷ []) (codes "a") contended-Reach holder_runs
      holder_runs (Memᴰ.head refl) (Memᴰ.head refl)

progress_example : (u : ℕ) × CanMove contended u
progress_example = progress 1 contended-Reach waiter_busy

-- A lease of time 5 under a limit of 300, at time 400.
reap_once_iff_example :
    ((path : Bytes) (lease : Lease)
      → Memᴰ (path, lease) (reap_once 300 400 entered.leases).0
        ↔ (Memᴰ (path, lease) entered.leases × (400 - lease.acquired_at ≤ 300)))
    × (length entered.leases
        ≡ length (reap_once 300 400 entered.leases).0 + (reap_once 300 400 entered.leases).1)
reap_once_iff_example = reap_once_iff 300 400 entered.leases
