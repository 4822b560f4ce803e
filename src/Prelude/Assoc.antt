-- ===== src/Prelude/Assoc.antt =====
-- Maps as association lists over a key type with a Boolean equality: Go's map, a directory by file
-- names, a bucket of a key-value store.
use shoka.Prelude.Tests.{◌==◌, ==_iff, if◌then◌else◌, Bool-cases}
use Prim.Native.Nat.{ℕ, ◌+◌}
use mathlib.Core.Path.{◌≡◌, refl}
use mathlib.Core.Logic.{◌↔◌, inl, inr}
use mathlib.Core.Bool.{Bool, true}
use mathlib.Core.Option.{Option, none, some}
use mathlib.Core.List.{List, [], ◌∷◌}
use native.Mathlib.Omega.{arith}

pub record Key {ℓ} (K : Type ℓ) : Type ℓ where
  pub beq : K → K → Bool
  pub beq_iff : (a b : K) → (beq a b ≡ true) ↔ (a ≡ b)

instance abbrev pub nat_key : Key ℕ
nat_key = record { beq = ◌==◌; beq_iff = ==_iff }

module _ {ℓ} {K : Type ℓ} ⦃key : Key K⦄ where
  beq_same : (a b c : K) → key.beq a b ≡ true → key.beq a c ≡ key.beq b c
  beq_same a b c e = rw ((key.beq_iff a b).0 e)

  beq_sym : (a b : K) → key.beq a b ≡ key.beq b a
  beq_sym a b = ground (arith, key.beq_iff a b, key.beq_iff b a)

module _ {ℓ κ} {K : Type ℓ} {V : Type κ} ⦃key : Key K⦄ where
  unfoldable pub lookup : K → List (K × V) → Option V
  lookup k [] = none
  lookup k ((j, v) ∷ m) = let rest = lookup k m in if key.beq j k then some v else rest

  unfoldable pub put : K → V → List (K × V) → List (K × V)
  put k v [] = (k, v) ∷ []
  put k v ((j, w) ∷ m) = let rest = put k v m in if key.beq j k then (k, v) ∷ m else (j, w) ∷ rest

  unfoldable pub remove : K → List (K × V) → List (K × V)
  remove k [] = []
  remove k ((j, w) ∷ m) = let rest = remove k m in if key.beq j k then rest else (j, w) ∷ rest

  -- Every key stands once.
  abbrev pub Distinct : List (K × V) → Type κ
  Distinct [] = Unit
  Distinct ((k, v) ∷ m) = (lookup k m ≡ none) × Distinct m

  pub lookup-put :
      (k j : K) (v : V) (m : List (K × V))
      → lookup j (put k v m) ≡ (if key.beq k j then some v else lookup j m)
  unfolding lookup put
  lookup-put k j v [] = refl
  lookup-put k j v ((i, w) ∷ m) =
      ground (arith, lookup-put k j v m, beq_same i k j, beq_same i j k, beq_sym k j)

  pub lookup-remove :
      (k j : K) (m : List (K × V))
      → lookup j (remove k m) ≡ (if key.beq k j then none else lookup j m)
  unfolding lookup remove
  lookup-remove k j [] = ground arith
  lookup-remove k j ((i, w) ∷ m) =
      ground (arith, lookup-remove k j m, beq_same i k j, beq_same i j k, beq_sym k j)

  pub Distinct-put : (k : K) (v : V) (m : List (K × V)) → Distinct m → Distinct (put k v m)
  unfolding put lookup
  Distinct-put k v [] d = (refl, tt)
  Distinct-put k v ((j, w) ∷ m) d = elim (Bool-cases (key.beq j k)) [
    | inl e ↦ rw e (rw ((key.beq_iff j k).0 e) at d.0, d.1)
    | inr e ↦
        rw e (rw (lookup-put k j v m) (ground (arith, d.0, beq_sym k j)), Distinct-put k v m d.1)
  ]

  pub Distinct-remove : (k : K) (m : List (K × V)) → Distinct m → Distinct (remove k m)
  unfolding remove
  Distinct-remove k [] d = tt
  Distinct-remove k ((j, w) ∷ m) d = elim (Bool-cases (key.beq j k)) [
    | inl e ↦ rw e (Distinct-remove k m d.1)
    | inr e ↦
        rw e (rw (lookup-remove k j m) (ground (arith, d.0, beq_sym k j)), Distinct-remove k m d.1)
  ]

  module _ (f : V → ℕ) where
    unfoldable pub total : List (K × V) → ℕ
    total [] = 0
    total ((k, v) ∷ m) = f v + total m

    pub total-put_fresh :
        (k : K) (v : V) (m : List (K × V)) → lookup k m ≡ none → total (put k v m) ≡ total m + f v
    unfolding total put lookup
    total-put_fresh k v [] h = omega arith
    total-put_fresh k v ((j, w) ∷ m) h = ground (arith, total-put_fresh k v m)

    remove_absent : (k : K) (m : List (K × V)) → lookup k m ≡ none → remove k m ≡ m
    unfolding remove lookup
    remove_absent k [] h = refl
    remove_absent k ((j, w) ∷ m) h = ground (arith, remove_absent k m)

    pub total-remove :
        (k : K) (v : V) (m : List (K × V))
        → Distinct m
        → lookup k m ≡ some v
        → total (remove k m) + f v ≡ total m
    unfolding total remove lookup
    total-remove k v [] d h = cc
    total-remove k v ((j, w) ∷ m) d h =
        ground (arith, total-remove k v m d.1, remove_absent k m, d.0, key.beq_iff j k)
