-- ===== src/FileLock/Progress.antt =====
-- Which goroutine can make a step.
use mathlib.Core.Path.{subst}
use shoka.Prelude.{
  ℕ, zero, suc, ◌+◌, ◌≤◌, ◌<◌, ◌≡◌, ◌≢◌, ◌∙◌, refl, ap, sym, true, Option, none, some, List, [],
  ◌∷◌, ◌++◌, arith, ==_iff, length,
}
use shoka.PartialEdit.{Bytes}
use shoka.FileLock.Order.{
  lock_order, has, num_stripes, IsAscending, IsBounded, lock_order-IsAscending, earlier_lt,
}
use shoka.FileLock.Steps.{
  Phase, idle, locking, running, unlocking, abandoned, Manager, set, Move, acquire, take_abandoned,
  enter, finish, unlock, leave, Reach,
}
use shoka.FileLock.Safety.{held, IsSafe}
use shoka.FileLock.Exclusion.{Reach-IsSafe, phase-IsOrderly}

-- A goroutine that is under way can make a step of its own, whether or not any context ends.
pub record CanMove (m : Manager) (u : ℕ) : Type 0 where
  pub busy : m.phase u ≢ idle
  pub after : Manager
  pub step : Move m after
  pub moved : after.phase u ≢ m.phase u

-- The stripes that a goroutine still has to take.
abbrev to_take : Phase → List ℕ
to_take (locking s paths taken todo) = todo
to_take _ = []

no_cycle : (i : ℕ) (l : List ℕ) → l ≢ i ∷ l
no_cycle i l e = let longer : length l ≡ suc (length l) = ap length e in omega (arith, longer)

moved_to : (f : ℕ → Phase) (u : ℕ) (b p : Phase) → f u ≡ p → b ≢ p → set u b f u ≢ f u
unfolding set
moved_to f u b p e n k = n (sym (rw ((==_iff u u).1 refl) refl) ∙ k ∙ e)

bounded_at : (j : ℕ) (l r : List ℕ) → IsBounded (l ++ j ∷ r) → j < num_stripes
bounded_at j [] r b = b.0
bounded_at j (i ∷ l) r b = bounded_at j l r b.1

module _ (m : Manager) (h : IsSafe m) where
  busy_at : (u : ℕ) (p : Phase) → m.phase u ≡ p → p ≢ idle → m.phase u ≢ idle
  busy_at u p e n k = n (sym e ∙ k)

  takes :
      (t i : ℕ) (s : _) (paths : List Bytes) (taken todo : List ℕ)
      → m.phase t ≡ locking s paths taken (i ∷ todo)
      → m.stripes i ≡ none
      → CanMove m t
  takes t i s paths taken todo e free = record {
    busy = busy_at t _ e (λ k. cc);
    after = _;
    step = acquire m t i s paths taken todo e free;
    moved = moved_to m.phase t _ _ e (λ k. no_cycle i todo (ap to_take k));
  }

  takes_abandoned : (t i : ℕ) → m.phase t ≡ abandoned i → m.stripes i ≡ none → CanMove m t
  takes_abandoned t i e free = record {
    busy = busy_at t _ e (λ k. cc);
    after = _;
    step = take_abandoned m t i e free;
    moved = moved_to m.phase t _ _ e (λ k. cc);
  }

  enters :
      (t : ℕ) (s : _) (paths : List Bytes) (taken : List ℕ)
      → m.phase t ≡ locking s paths taken []
      → CanMove m t
  enters t s paths taken e = record {
    busy = busy_at t _ e (λ k. cc);
    after = _;
    step = enter m t (λ p. 0) s paths taken e;
    moved = moved_to m.phase t _ _ e (λ k. cc);
  }

  finishes :
      (t : ℕ) (paths : List Bytes) (taken : List ℕ) → m.phase t ≡ running paths taken → CanMove m t
  finishes t paths taken e = record {
    busy = busy_at t _ e (λ k. cc);
    after = _;
    step = finish m t paths taken e;
    moved = moved_to m.phase t _ _ e (λ k. cc);
  }

  unlocks : (t : ℕ) (l : List ℕ) → m.phase t ≡ unlocking l → CanMove m t
  unlocks t [] e = record {
    busy = busy_at t _ e (λ k. cc);
    after = _;
    step = leave m t e;
    moved = moved_to m.phase t _ _ e (λ k. cc);
  }
  unlocks t (i ∷ rest) e = record {
    busy = busy_at t _ e (λ k. cc);
    after = _;
    step = unlock m t i rest e;
    moved = moved_to m.phase t _ _ e (λ k. no_cycle i rest (ap held k));
  }

  -- A goroutine waits for stripes above those that it holds.
  waits_above :
      (u i j : ℕ) (s : _) (paths : List Bytes) (taken todo : List ℕ)
      → m.phase u ≡ locking s paths taken (j ∷ todo)
      → has i taken ≡ true
      → (i < j) × (j < num_stripes)
  waits_above u i j s paths taken todo e mine =
      let order : taken ++ j ∷ todo ≡ lock_order paths = phase-IsOrderly m h u _ e in
      let (up, below) = lock_order-IsAscending paths in
      (
        earlier_lt i j taken todo (subst IsAscending (sym order) up) mine,
        bounded_at j taken todo (subst IsBounded (sym order) below),
      )

  abbrev Found : Type 0
  Found = (u : ℕ) × CanMove m u

  -- Who holds a stripe can move, or waits for a stripe above it.
  holder_moves :
      (u i : ℕ) (p : Phase)
      → ((j : ℕ) → i < j → j < num_stripes → (m.stripes j ≡ none → CanMove m u) → Found)
      → m.phase u ≡ p
      → has i (held p) ≡ true
      → Found
  holder_moves u i idle above e mine = cc mine
  holder_moves u i (locking s paths taken []) above e mine = (u, enters u s paths taken e)
  holder_moves u i (locking s paths taken (j ∷ todo)) above e mine =
      let (higher, small) = waits_above u i j s paths taken todo e mine in
      above j higher small (takes u j s paths taken todo e)
  holder_moves u i (running paths taken) above e mine = (u, finishes u paths taken e)
  holder_moves u i (unlocking l) above e mine = (u, unlocks u l e)
  holder_moves u i (abandoned j) above e mine = cc mine

  free_or_held :
      (t i : ℕ)
      → (m.stripes i ≡ none → CanMove m t)
      → (o : Option ℕ) → m.stripes i ≡ o
      → ((u j : ℕ) → i < j → j < num_stripes → (m.stripes j ≡ none → CanMove m u) → Found)
      → Found
  free_or_held t i can none e above = (t, can e)
  free_or_held t i can (some u) e above =
      holder_moves u i (m.phase u) (above u) refl (h.owner i u e)

  -- From stripe to stripe upwards, the holders lead to one that can move.
  follow : (fuel t i : ℕ) → num_stripes ≤ fuel + i → (m.stripes i ≡ none → CanMove m t) → Found
  follow zero t i enough can =
      free_or_held t i can (m.stripes i) refl (λ u j higher small c. absurd (omega arith))
  follow (suc fuel) t i enough can =
      free_or_held t i can (m.stripes i) refl
        (λ u j higher small c. follow fuel u j (omega arith) c)

  moves_from : (t : ℕ) (p : Phase) → p ≢ idle → m.phase t ≡ p → Found
  moves_from t idle n e = absurd (n refl)
  moves_from t (locking s paths taken []) n e = (t, enters t s paths taken e)
  moves_from t (locking s paths taken (i ∷ todo)) n e =
      follow num_stripes t i (omega arith) (takes t i s paths taken todo e)
  moves_from t (running paths taken) n e = (t, finishes t paths taken e)
  moves_from t (unlocking l) n e = (t, unlocks t l e)
  moves_from t (abandoned i) n e = follow num_stripes t i (omega arith) (takes_abandoned t i e)

-- No deadlock: in every state that the goroutines reach, as long as one of them is under way, one of
-- those under way can get its next mutex, enter or end its function, give a mutex back or return,
-- also where no context ends.
pub progress :
    {max_lease : ℕ} {m : Manager} (t : ℕ)
    → Reach max_lease m
    → m.phase t ≢ idle
    → (u : ℕ) × CanMove m u
progress {m = m} t reached busy = moves_from m (Reach-IsSafe reached) t (m.phase t) busy refl
