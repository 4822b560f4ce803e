-- ===== src/FileLock/Order.antt =====
-- The stripes of a set of paths in the order in which WithLocks takes them.
use Prim.Native.Nat.{bit_xor}
use shoka.Prelude.{
  ℕ, ◌*◌, ◌%◌, ◌^◌, ◌<◌, ◌≡◌, ◌∙◌, ◌↔◌, AnyOf, sym, ap, refl, Bool, true, false, ◌||◌, List, [],
  ◌∷◌, ◌++◌, arith, ltb, ◌==◌, if◌then◌else◌, All, Bool-cases, inl, inr,
}
use shoka.PartialEdit.{Bytes}

abbrev pub num_stripes : ℕ
num_stripes = 256

-- The loop of FNV-1a over the bytes, on a uint32.
unfoldable pub fnv_from : ℕ → Bytes → ℕ
fnv_from h [] = h
fnv_from h (b ∷ s) = fnv_from (bit_xor h b * 16777619 % 2 ^ 32) s

unfoldable pub fnv32a : Bytes → ℕ
unfolding fnv_from
fnv32a s = fnv_from 2166136261 s

unfoldable pub stripe_of : Bytes → ℕ
stripe_of path = fnv32a path % num_stripes

-- A new index of the ascending list of distinct ones.
unfoldable pub insert_index : ℕ → List ℕ → List ℕ
insert_index i [] = i ∷ []
insert_index i (j ∷ l) =
    let rest = insert_index i l in if ltb i j then i ∷ j ∷ l else if i == j then j ∷ l else j ∷ rest

-- The distinct stripe indices of the paths, sorted: the set does not depend on the way it is sorted.
unfoldable pub lock_order : List Bytes → List ℕ
unfolding stripe_of insert_index
lock_order [] = []
lock_order (p ∷ paths) = insert_index (stripe_of p) (lock_order paths)

abbrev pub has : ℕ → List ℕ → Bool
has i [] = false
has i (j ∷ l) = i == j || has i l

-- Strictly ascending.
abbrev pub IsAscending : List ℕ → Type 0
IsAscending [] = Unit
IsAscending (i ∷ l) = All (λ j. i < j) l × IsAscending l

abbrev pub IsBounded : List ℕ → Type 0
IsBounded = All (λ i. i < num_stripes)

insert_index-above :
    (k i : ℕ) (l : List ℕ) → k < i → All (λ j. k < j) l → All (λ j. k < j) (insert_index i l)
unfolding insert_index
insert_index-above k i [] h a = (h, tt)
insert_index-above k i (j ∷ l) h a = ground (arith, insert_index-above k i l h a.1)

above_trans : (i j : ℕ) (l : List ℕ) → i < j → All (λ x. j < x) l → All (λ x. i < x) l
above_trans i j [] h a = tt
above_trans i j (x ∷ l) h a = (omega (arith, a.0), above_trans i j l h a.1)

insert_index-IsAscending : (i : ℕ) (l : List ℕ) → IsAscending l → IsAscending (insert_index i l)
unfolding insert_index
insert_index-IsAscending i [] h = (tt, tt)
insert_index-IsAscending i (j ∷ l) h = elim (Bool-cases (ltb i j)) [
  | inl e ↦ rw e ((ground arith, above_trans i j l (ground arith) h.0), h)
  | inr e ↦ rw e (elim (Bool-cases (i == j)) [
    | inl f ↦ rw f h
    | inr f ↦ rw f (insert_index-above j i l (ground arith) h.0, insert_index-IsAscending i l h.1)
  ])
]

insert_index-IsBounded :
    (i : ℕ) (l : List ℕ) → i < num_stripes → IsBounded l → IsBounded (insert_index i l)
unfolding insert_index
insert_index-IsBounded i [] b h = (b, tt)
insert_index-IsBounded i (j ∷ l) b h = ground (arith, insert_index-IsBounded i l b h.1)

has-insert_index : (k i : ℕ) (l : List ℕ) → has k (insert_index i l) ≡ (k == i || has k l)
unfolding insert_index
has-insert_index k i [] = refl
has-insert_index k i (j ∷ l) = ground (arith, has-insert_index k i l)

-- The stripes are in range and ascending.
pub lock_order-IsAscending :
    (paths : List Bytes) → IsAscending (lock_order paths) × IsBounded (lock_order paths)
unfolding lock_order
lock_order-IsAscending [] = (tt, tt)
lock_order-IsAscending (p ∷ paths) =
    let (up, below) = lock_order-IsAscending paths in
    (
      insert_index-IsAscending (stripe_of p) _ up,
      insert_index-IsBounded (stripe_of p) _ (omega arith) below,
    )

has-lock_order :
    (i : ℕ) (paths : List Bytes)
    → (has i (lock_order paths) ≡ true) ↔ AnyOf (λ p. i ≡ stripe_of p) paths
unfolding lock_order
has-lock_order i [] = (λ e. cc e, λ b. absurd b)
has-lock_order i (p ∷ paths) =
    let (from, to) = has-lock_order i paths in
    let step = has-insert_index i (stripe_of p) (lock_order paths) in
    elim (Bool-cases (i == stripe_of p)) [
      | inl e ↦ (λ k. inl (ground (arith, e)), λ b. step ∙ rw e refl)
      | inr e ↦ (
        λ k. inr (from (sym (ap (λ b. b || has i (lock_order paths)) e) ∙ sym step ∙ k)),
        λ b. elim b [
          | inl same ↦ ground (arith, e, same)
          | inr rest ↦ step ∙ ap (λ b. b || has i (lock_order paths)) e ∙ to rest
        ],
      )
    ]

-- The stripe of every path is among them.
pub lock_order-covers :
    (paths : List Bytes) → All (λ p. has (stripe_of p) (lock_order paths) ≡ true) paths
unfolding lock_order
lock_order-covers paths = go paths (λ k h. h)
  where
    go :
        (ps : List Bytes)
        → ((k : ℕ) → has k (lock_order ps) ≡ true → has k (lock_order paths) ≡ true)
        → All (λ p. has (stripe_of p) (lock_order paths) ≡ true) ps
    go [] h = tt
    go (p ∷ ps) h = (
      h (stripe_of p) (has-insert_index (stripe_of p) (stripe_of p) (lock_order ps) ∙ ground arith),
      go ps (λ k e. h k (has-insert_index k (stripe_of p) (lock_order ps) ∙ ground (arith, e))),
    )

-- The order of a set of paths is strictly ascending and in range, and an index stands in it exactly
-- where it is the stripe of one of the paths: every stripe of the paths is taken, once, and no other.
pub lock_order_iff :
    (paths : List Bytes)
    → IsAscending (lock_order paths)
      × IsBounded (lock_order paths)
      × ((i : ℕ) → (has i (lock_order paths) ≡ true) ↔ AnyOf (λ p. i ≡ stripe_of p) paths)
lock_order_iff paths =
    let (up, below) = lock_order-IsAscending paths in (up, below, λ i. has-lock_order i paths)

pub has-append : (k : ℕ) (l r : List ℕ) → has k (l ++ r) ≡ (has k l || has k r)
has-append k [] r = refl
has-append k (j ∷ l) r = ground (arith, has-append k l r)

All_has : (P : ℕ → Type 0) (k : ℕ) (l : List ℕ) → has k l ≡ true → All P l → P k
All_has P k [] h a = cc
All_has P k (j ∷ l) h a = elim (Bool-cases (k == j)) [
  | inl e ↦ let same : k ≡ j = ground (arith, e) in rw same a.0
  | inr e ↦ All_has P k l (ground (arith, e)) a.1
]

-- What stands earlier in an ascending list is smaller.
pub earlier_lt : (k j : ℕ) (l r : List ℕ) → IsAscending (l ++ j ∷ r) → has k l ≡ true → k < j
earlier_lt k j [] r a h = cc
earlier_lt k j (i ∷ l) r a h = elim (Bool-cases (k == i)) [
  | inl e ↦
      let first : i < j =
        All_has (λ x. i < x) j (l ++ j ∷ r) (has-append j l (j ∷ r) ∙ ground arith) a.0 in
      ground (arith, e)
  | inr e ↦ earlier_lt k j l r a.1 (ground (arith, e))
]
