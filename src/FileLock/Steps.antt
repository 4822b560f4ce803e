-- ===== src/FileLock/Steps.antt =====
-- Goroutines in WithLock and WithLocks as a step relation over the stripe mutexes and the leases.
-- WithLock is WithLocks on one path. A panic of the function under the locks is its end.
use shoka.Prelude.{
  ℕ, ◌+◌, ◌-◌, ◌≡◌, Bool, true, false, not, Option, none, some, List, [], ◌∷◌, ◌++◌, ltb, ◌==◌,
  if◌then◌else◌, keep,
}
use shoka.Prelude.Assoc.{nat_key, put, remove}
use shoka.Text.{Text, text_eq}
use shoka.Text.Keys.{text_key}
use shoka.PartialEdit.{Bytes}
use shoka.FileLock.Order.{lock_order}

pub record Lease : Type 0 where
  pub session_id : Text
  pub acquired_at : ℕ

-- Where a goroutine stands. `locking` has the stripes that it holds and those still to come,
-- `unlocking` the stripes that it gives back, the next one first. `abandoned` is the goroutine that
-- lockCtx leaves behind: it waits for one stripe, to give it back.
pub data Phase : Type 0 where
  idle : Phase
  locking : Text → List Bytes → List ℕ → List ℕ → Phase
  running : List Bytes → List ℕ → Phase
  unlocking : List ℕ → Phase
  abandoned : ℕ → Phase

-- `ended` says of each goroutine whether the context of its call has ended.
pub record Manager : Type 0 where
  pub stripes : ℕ → Option ℕ
  pub phase : ℕ → Phase
  pub ended : ℕ → Bool
  pub leases : List (Bytes × Lease)
  pub forced_releases : ℕ

-- f, but x at i
unfoldable pub set {ℓ} : {X : Type ℓ} → ℕ → X → (ℕ → X) → ℕ → X
set i x f j = if i == j then x else f j

unfoldable pub backwards : List ℕ → List ℕ
backwards [] = []
backwards (i ∷ l) = backwards l ++ i ∷ []

-- The time of the entry of each path is its own.
unfoldable pub put_leases :
    List Bytes → Text → (Bytes → ℕ) → List (Bytes × Lease) → List (Bytes × Lease)
put_leases [] session_id now m = m
put_leases (p ∷ paths) session_id now m =
    put_leases paths session_id now
      (put p (record { session_id = session_id; acquired_at = now p }) m)

unfoldable pub delete_leases : List Bytes → List (Bytes × Lease) → List (Bytes × Lease)
delete_leases [] m = m
delete_leases (p ∷ paths) m = delete_leases paths (remove p m)

unfoldable pub of_session : Text → Bytes × Lease → Bool
of_session session_id (path, lease) = text_eq lease.session_id session_id

unfoldable pub release_all_for_session : Text → List (Bytes × Lease) → List (Bytes × Lease)
unfolding of_session
release_all_for_session session_id m =
    if text_eq session_id [] then m else keep (λ e. not (of_session session_id e)) m

-- The leases left, and how many were removed. A lease of the future has age 0 here, below any limit.
unfoldable pub reap_once : ℕ → ℕ → List (Bytes × Lease) → List (Bytes × Lease) × ℕ
reap_once max now [] = ([], 0)
reap_once max now (e ∷ m) =
    let (rest, n) = reap_once max now m in
    if ltb max (now - e.1.acquired_at) then (rest, n + 1) else (e ∷ rest, n)

-- The steps that a goroutine makes whatever its context does. A goroutine that waits may get the mutex
-- also where its context has ended, since the select of lockCtx takes either.
pub data Move : Manager → Manager → Type 0 where
  acquire :
      (m : Manager) (t i : ℕ) (session_id : Text) (paths : List Bytes) (taken todo : List ℕ)
      → m.phase t ≡ locking session_id paths taken (i ∷ todo)
      → m.stripes i ≡ none
      → Move m (record m {
        stripes = set i (some t) m.stripes;
        phase = set t (locking session_id paths (taken ++ i ∷ []) todo) m.phase;
      })
  take_abandoned :
      (m : Manager) (u i : ℕ)
      → m.phase u ≡ abandoned i
      → m.stripes i ≡ none
      → Move m (record m {
        stripes = set i (some u) m.stripes;
        phase = set u (unlocking (i ∷ [])) m.phase;
      })
  enter :
      (m : Manager) (t : ℕ) (now : Bytes → ℕ) (session_id : Text) (paths : List Bytes)
      (taken : List ℕ)
      → m.phase t ≡ locking session_id paths taken []
      → Move m (record m {
        phase = set t (running paths taken) m.phase;
        leases = put_leases paths session_id now m.leases;
      })
  finish :
      (m : Manager) (t : ℕ) (paths : List Bytes) (taken : List ℕ)
      → m.phase t ≡ running paths taken
      → Move m (record m {
        phase = set t (unlocking (backwards taken)) m.phase;
        leases = delete_leases paths m.leases;
      })
  unlock :
      (m : Manager) (t i : ℕ) (rest : List ℕ)
      → m.phase t ≡ unlocking (i ∷ rest)
      → Move m (record m { stripes = set i none m.stripes; phase = set t (unlocking rest) m.phase })
  leave :
      (m : Manager) (t : ℕ)
      → m.phase t ≡ unlocking []
      → Move m (record m { phase = set t idle m.phase })

pub data Step (max_lease : ℕ) : Manager → Manager → Type 0 where
  move : {m n : Manager} → Move m n → Step max_lease m n
  -- A call with a context of its own, which may have ended already.
  request :
      (m : Manager) (t : ℕ) (session_id : Text) (paths : List Bytes) (over : Bool)
      → m.phase t ≡ idle
      → Step max_lease m (record m {
        phase = set t (locking session_id paths [] (lock_order paths)) m.phase;
        ended = set t over m.ended;
      })
  end_context : (m : Manager) (t : ℕ) → Step max_lease m (record m { ended = set t true m.ended })
  -- The mutex was free, but the context has ended.
  acquire_done :
      (m : Manager) (t i : ℕ) (session_id : Text) (paths : List Bytes) (taken todo : List ℕ)
      → m.phase t ≡ locking session_id paths taken (i ∷ todo)
      → m.stripes i ≡ none
      → m.ended t ≡ true
      → Step max_lease m (record m {
        stripes = set i (some t) m.stripes;
        phase = set t (unlocking (i ∷ backwards taken)) m.phase;
      })
  -- The context has ended while the goroutine waits: goroutine `u` goes on waiting for it.
  cancel :
      (m : Manager) (t u i : ℕ) (session_id : Text) (paths : List Bytes) (taken todo : List ℕ)
      → m.phase t ≡ locking session_id paths taken (i ∷ todo)
      → m.phase u ≡ idle
      → m.ended t ≡ true
      → Step max_lease m
          (record m { phase = set u (abandoned i) (set t (unlocking (backwards taken)) m.phase) })
  release_session :
      (m : Manager) (session_id : Text)
      → Step max_lease m (record m { leases = release_all_for_session session_id m.leases })
  reap :
      (m : Manager) (now : ℕ)
      → Step max_lease m (record m {
        leases = (reap_once max_lease now m.leases).0;
        forced_releases = m.forced_releases + (reap_once max_lease now m.leases).1;
      })

-- NewManager, with no goroutine under way.
abbrev pub new_manager : Manager
new_manager = record {
  stripes = λ i. none;
  phase = λ t. idle;
  ended = λ t. false;
  leases = [];
  forced_releases = 0;
}

pub data Reach (max_lease : ℕ) : Manager → Type 0 where
  start : Reach max_lease new_manager
  next : {m n : Manager} → Reach max_lease m → Step max_lease m n → Reach max_lease n
