-- ===== src/Prelude/Lookup.antt =====
-- Looking up what was put or removed, by cases on the keys.
use mathlib.Core.Path.{◌≡◌, refl, ap, sym, ◌∙◌}
use mathlib.Core.Logic.{◌≢◌, ◌⊎◌, inl, inr}
use mathlib.Core.Bool.{true, false}
use mathlib.Core.Option.{none, some}
use mathlib.Core.List.{List, ◌∷◌}
use shoka.Prelude.Tests.{Bool-cases}
use shoka.Prelude.Assoc.{Key, lookup, put, remove, lookup-put, lookup-remove}

module _ {ℓ} {K : Type ℓ} ⦃key : Key K⦄ where
  beq_refl : (k : K) → key.beq k k ≡ true
  beq_refl k = (key.beq_iff k k).1 refl

  beq_differ : (k j : K) → k ≢ j → key.beq k j ≡ false
  beq_differ k j n = elim (Bool-cases (key.beq k j)) [
    | inl e ↦ absurd (n ((key.beq_iff k j).0 e))
    | inr e ↦ e
  ]

  pub same_or_not : (k j : K) → (k ≡ j) ⊎ (k ≢ j)
  same_or_not k j = elim (Bool-cases (key.beq k j)) [
    | inl e ↦ inl ((key.beq_iff k j).0 e)
    | inr e ↦ inr (λ s. let t = (key.beq_iff k j).1 s in cc (t, e))
  ]

module _ {ℓ κ} {K : Type ℓ} {V : Type κ} ⦃key : Key K⦄ where
  pub put_same : (k : K) (v : V) (m : List (K × V)) → lookup k (put k v m) ≡ some v
  put_same k v m = lookup-put k k v m ∙ rw (beq_refl k) refl

  pub put_other : (k j : K) (v : V) (m : List (K × V)) → k ≢ j → lookup j (put k v m) ≡ lookup j m
  put_other k j v m n = lookup-put k j v m ∙ rw (beq_differ k j n) refl

  pub remove_same : (k : K) (m : List (K × V)) → lookup k (remove k m) ≡ none
  remove_same k m = lookup-remove k k m ∙ rw (beq_refl k) refl

  pub remove_other : (k j : K) (m : List (K × V)) → k ≢ j → lookup j (remove k m) ≡ lookup j m
  remove_other k j m n = lookup-remove k j m ∙ rw (beq_differ k j n) refl

  -- What is found after a put is what was put, or was there under another key.
  pub found-put :
      (k j : K) (v w : V) (m : List (K × V))
      → lookup j (put k v m) ≡ some w
      → ((k ≡ j) × (v ≡ w)) ⊎ ((k ≢ j) × (lookup j m ≡ some w))
  found-put k j v w m e = elim (same_or_not k j) [
    | inl s ↦
        let here : lookup j (put k v m) ≡ some v =
          ap (λ x. lookup x (put k v m)) (sym s) ∙ put_same k v m in
        inl (s, cc (here, e))
    | inr n ↦ inr (n, sym (put_other k j v m n) ∙ e)
  ]

  -- What is found after a removal was there under another key.
  pub found-remove :
      (k j : K) (w : V) (m : List (K × V))
      → lookup j (remove k m) ≡ some w
      → (k ≢ j) × (lookup j m ≡ some w)
  found-remove k j w m e = elim (same_or_not k j) [
    | inl s ↦ absurd (
        let gone : lookup j (remove k m) ≡ none =
          ap (λ x. lookup x (remove k m)) (sym s) ∙ remove_same k m in
        cc (gone, e))
    | inr n ↦ (n, sym (remove_other k j m n) ∙ e)
  ]

  pub lookup_head : (k : K) (v : V) (m : List (K × V)) → lookup k ((k, v) ∷ m) ≡ some v
  unfolding lookup
  lookup_head k v m = rw (beq_refl k) refl

  pub lookup_tail :
      (k j : K) (v w : V) (m : List (K × V))
      → lookup k m ≡ none
      → lookup j m ≡ some w
      → lookup j ((k, v) ∷ m) ≡ some w
  unfolding lookup
  lookup_tail k j v w m absent e =
      rw (beq_differ k j (λ s. let gone = ap (λ x. lookup x m) s in cc (gone, absent, e))) e

  -- What is not there is not there after a removal.
  pub removed_none : (k j : K) (m : List (K × V)) → lookup j m ≡ none → lookup j (remove k m) ≡ none
  removed_none k j m absent =
      lookup-remove k j m
      ∙ elim (Bool-cases (key.beq k j)) [ inl e ↦ rw e refl | inr e ↦ rw e absent ]
