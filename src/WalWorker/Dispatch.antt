-- ===== src/WalWorker/Dispatch.antt =====
-- Which pending entries the dispatcher hands out: one of a project, its oldest.
use shoka.Prelude.{
  ℕ, ◌≡◌, ◌∙◌, ◌⊎◌, refl, sym, ap, Bool, true, false, List, [], ◌∷◌, Bool-cases, inl, inr, All,
  AnyOf, ◌↔◌, arith,
}
use shoka.Text.{Text, text_eq}
use shoka.Text.Laws.{text_eq_iff}
use shoka.Wal.Wire.{EntryHead}
use shoka.Wal.Log.{Log}
use shoka.Wal.Log.Listing.{signed_leb, insert_head, sort_heads, list_pending}
use shoka.WalWorker.{project_key, is_in_flight, assign_heads, dispatch}

-- No two of a list belong to one project.
abbrev pub AreApart : List EntryHead → Type 0
AreApart [] = Unit
AreApart (h ∷ heads) =
    All (λ g. text_eq (project_key h) (project_key g) ≡ false) heads × AreApart heads

abbrev pub AreFree : List Text → List EntryHead → Type 0
AreFree in_flight heads = All (λ h. is_in_flight (project_key h) in_flight ≡ false) heads

free_tail :
    (k : Text) (keys : List Text) (heads : List EntryHead)
    → AreFree (k ∷ keys) heads
    → AreFree keys heads × All (λ g. text_eq k (project_key g) ≡ false) heads
unfolding is_in_flight
free_tail k keys [] f = (tt, tt)
free_tail k keys (h ∷ heads) f =
    let (a, b) = free_tail k keys heads f.1 in
    elim (Bool-cases (text_eq k (project_key h))) [
      | inl same ↦ (let bad : true ≡ false = sym (rw same refl) ∙ f.0 in cc bad)
      | inr other ↦ ((sym (rw other refl) ∙ f.0, a), (other, b))
    ]

module _ (takes : EntryHead → Bool) where
  assign_heads-AreFree :
      (heads : List EntryHead) (keys : List Text)
      → AreFree keys (assign_heads takes heads keys).0 × AreApart (assign_heads takes heads keys).0
  unfolding assign_heads
  assign_heads-AreFree [] keys = (tt, tt)
  assign_heads-AreFree (h ∷ heads) keys = elim (Bool-cases (is_in_flight (project_key h) keys)) [
    | inl busy ↦ rw busy (assign_heads-AreFree heads keys)
    | inr free ↦ rw free (elim (Bool-cases (takes h)) [
      | inl taken ↦ rw taken (
          let (f, apart) = assign_heads-AreFree heads (project_key h ∷ keys) in
          let (rest, other) =
            free_tail (project_key h) keys (assign_heads takes heads (project_key h ∷ keys)).0 f in
          ((free, rest), (other, apart)))
      | inr full ↦ rw full (tt, tt)
    ])
  ]

-- The number of a head as the int64 that it is.
abbrev IsBefore : EntryHead → EntryHead → Type 0
IsBefore h g = signed_leb h.seq g.seq ≡ true

-- Of another project, or not older.
abbrev pub IsFirst : EntryHead → EntryHead → Type 0
IsFirst h g = (text_eq (project_key g) (project_key h) ≡ false) ⊎ (signed_leb h.seq g.seq ≡ true)

abbrev IsSorted : List EntryHead → Type 0
IsSorted [] = Unit
IsSorted (h ∷ heads) = All (IsBefore h) heads × IsSorted heads

signed_leb_refl : (x : ℕ) → signed_leb x x ≡ true
unfolding signed_leb
signed_leb_refl x = ground arith

signed_leb_trans :
    (x y z : ℕ) → signed_leb x y ≡ true → signed_leb y z ≡ true → signed_leb x z ≡ true
unfolding signed_leb
signed_leb_trans x y z h k = ground (arith, h, k)

signed_leb_total : (x y : ℕ) → signed_leb x y ≡ false → signed_leb y x ≡ true
unfolding signed_leb
signed_leb_total x y h = ground (arith, h)

module _ (x : EntryHead) where
  below-All :
      (y : EntryHead)
      → IsBefore x y
      → (heads : List EntryHead) → All (IsBefore y) heads
      → All (IsBefore x) heads
  below-All y l [] a = tt
  below-All y l (h ∷ heads) a = (signed_leb_trans _ _ _ l a.0, below-All y l heads a.1)

  -- What holds of all the heads after an insertion is what holds of the new one and of the others.
  insert_head-All :
      (P : EntryHead → Type 0) (heads : List EntryHead)
      → All P (insert_head x heads) ↔ (P x × All P heads)
  unfolding insert_head
  insert_head-All P [] = (λ a. (a.0, tt), λ a. (a.0, tt))
  insert_head-All P (h ∷ heads) = elim (Bool-cases (signed_leb x.seq h.seq)) [
    | inl e ↦ rw e (λ a. a, λ a. a)
    | inr e ↦
        let (from, to) = insert_head-All P heads in
        rw e (λ a. let (new, rest) = from a.1 in (new, (a.0, rest)), λ a. (a.1.0, to (a.0, a.1.1)))
  ]

  insert_head-IsSorted : (heads : List EntryHead) → IsSorted heads → IsSorted (insert_head x heads)
  unfolding insert_head
  insert_head-IsSorted [] s = (tt, tt)
  insert_head-IsSorted (h ∷ heads) s = elim (Bool-cases (signed_leb x.seq h.seq)) [
    | inl e ↦ rw e ((e, below-All h e heads s.0), s)
    | inr e ↦ rw e (
      (insert_head-All (IsBefore h) heads).1 (signed_leb_total _ _ e, s.0),
      insert_head-IsSorted heads s.1,
    )
  ]

sort_heads-IsSorted : (pending : List (ℕ × EntryHead)) → IsSorted (sort_heads pending)
unfolding sort_heads
sort_heads-IsSorted [] = tt
sort_heads-IsSorted ((seq, h) ∷ pending) =
    insert_head-IsSorted h (sort_heads pending) (sort_heads-IsSorted pending)

-- The sorted heads are those of the pending entries, all of them.
sort_heads-All :
    (P : EntryHead → Type 0) (pending : List (ℕ × EntryHead))
    → All P (sort_heads pending) ↔ All (λ row. P row.1) pending
unfolding sort_heads
sort_heads-All P [] = (λ a. a, λ a. a)
sort_heads-All P ((seq, h) ∷ pending) =
    let (apart, together) = insert_head-All h P (sort_heads pending) in
    let (from, to) = sort_heads-All P pending in
    (λ a. let (new, rest) = apart a in (new, from rest), λ a. together (a.0, to a.1))

-- Every pending entry is one of the pending entries.
each_is_pending :
    (rows pending : List (ℕ × EntryHead))
    → ((h : EntryHead) → AnyOf (λ r. r.1 ≡ h) rows → AnyOf (λ r. r.1 ≡ h) pending)
    → All (λ row. AnyOf (λ r. r.1 ≡ row.1) pending) rows
each_is_pending [] pending into = tt
each_is_pending (row ∷ rows) pending into =
    (into row.1 (inl refl), each_is_pending rows pending (λ h x. into h (inr x)))

-- What is handed out is among the heads.
assign_heads-All :
    (P : EntryHead → Type 0) (takes : EntryHead → Bool) (heads : List EntryHead) (keys : List Text)
    → All P heads
    → All P (assign_heads takes heads keys).0
unfolding assign_heads
assign_heads-All P takes [] keys a = tt
assign_heads-All P takes (h ∷ heads) keys a =
    elim (Bool-cases (is_in_flight (project_key h) keys)) [
      | inl busy ↦ rw busy (assign_heads-All P takes heads keys a.1)
      | inr free ↦ rw free (elim (Bool-cases (takes h)) [
        | inl taken ↦ rw taken (a.0, assign_heads-All P takes heads (project_key h ∷ keys) a.1)
        | inr full ↦ rw full tt
      ])
    ]

head-IsFirst :
    (x : EntryHead) (heads : List EntryHead) → All (IsBefore x) heads → All (IsFirst x) heads
head-IsFirst x [] a = tt
head-IsFirst x (g ∷ heads) a = (inr a.0, head-IsFirst x heads a.1)

-- An entry that no free one shares its project with does not stand in their way.
add_busy :
    (x : EntryHead) (keys : List Text) (heads assigned : List EntryHead)
    → is_in_flight (project_key x) keys ≡ true
    → AreFree keys assigned
    → All (λ h. All (IsFirst h) heads) assigned
    → All (λ h. All (IsFirst h) (x ∷ heads)) assigned
add_busy x keys heads [] busy f a = tt
add_busy x keys heads (h ∷ assigned) busy f a = (
  (
    elim (Bool-cases (text_eq (project_key x) (project_key h))) [
      | inl same ↦
          let is =
            ap (λ k. is_in_flight k keys) ((text_eq_iff (project_key x) (project_key h)).0 same) in
          let free = f.0 in absurd (cc (is, busy, free))
      | inr other ↦ inl other
    ],
    a.0,
  ),
  add_busy x keys heads assigned busy f.1 a.1,
)

add_taken :
    (x : EntryHead) (heads assigned : List EntryHead)
    → All (λ g. text_eq (project_key x) (project_key g) ≡ false) assigned
    → All (λ h. All (IsFirst h) heads) assigned
    → All (λ h. All (IsFirst h) (x ∷ heads)) assigned
add_taken x heads [] apart a = tt
add_taken x heads (h ∷ assigned) apart a =
    ((inl apart.0, a.0), add_taken x heads assigned apart.1 a.1)

assign_heads-IsFirst :
    (takes : EntryHead → Bool) (heads : List EntryHead) (keys : List Text)
    → IsSorted heads
    → All (λ h. All (IsFirst h) heads) (assign_heads takes heads keys).0
unfolding assign_heads
assign_heads-IsFirst takes [] keys s = tt
assign_heads-IsFirst takes (x ∷ heads) keys s =
    elim (Bool-cases (is_in_flight (project_key x) keys)) [
      | inl busy ↦ rw busy (
          add_busy x keys heads (assign_heads takes heads keys).0 busy
            (assign_heads-AreFree takes heads keys).0 (assign_heads-IsFirst takes heads keys s.1))
      | inr free ↦ rw free (elim (Bool-cases (takes x)) [
        | inl taken ↦ rw taken (
            let (_, apart) = assign_heads-AreFree takes (x ∷ heads) keys in
            let (f, _) = assign_heads-AreFree takes heads (project_key x ∷ keys) in
            let (_, other) =
              free_tail (project_key x) keys (assign_heads takes heads (project_key x ∷ keys)).0
                f in
            (
              (inr (signed_leb_refl x.seq), head-IsFirst x heads s.0),
              add_taken x heads (assign_heads takes heads (project_key x ∷ keys)).0 other
                  (assign_heads-IsFirst takes heads (project_key x ∷ keys) s.1),
            ))
        | inr full ↦ rw full tt
      ])
    ]

-- For every assigned head, and every pending entry, in one order or the other.
swap_All :
    (P : EntryHead → EntryHead → Type 0) (pending : List (ℕ × EntryHead))
    (assigned : List EntryHead)
    → All (λ h. All (P h) (sort_heads pending)) assigned
    → All (λ h. All (λ row. P h row.1) pending) assigned
swap_All P pending [] a = tt
swap_All P pending (h ∷ assigned) a =
    ((sort_heads-All (P h) pending).0 a.0, swap_All P pending assigned a.1)

-- The entries that are handed out are pending ones, of projects with none in flight, no two of one
-- project, and none of the pending entries of its project has a smaller number as an int64, whichever
-- workers are free.
pub dispatch-IsFirst :
    (takes : EntryHead → Bool) (l : Log) (in_flight : List Text)
    → All (λ h. AnyOf (λ row. row.1 ≡ h) l.pending) (dispatch takes l in_flight).0
      × AreFree in_flight (dispatch takes l in_flight).0
      × AreApart (dispatch takes l in_flight).0
      × All (λ h. All (λ row. IsFirst h row.1) l.pending) (dispatch takes l in_flight).0
unfolding dispatch list_pending
dispatch-IsFirst takes l in_flight =
    let (free, apart) = assign_heads-AreFree takes (sort_heads l.pending) in_flight in
    (
      assign_heads-All (λ h. AnyOf (λ row. row.1 ≡ h) l.pending) takes (sort_heads l.pending)
          in_flight
          ((sort_heads-All (λ h. AnyOf (λ row. row.1 ≡ h) l.pending) l.pending).1
            (each_is_pending l.pending l.pending (λ h x. x))),
      free,
      apart,
      swap_All IsFirst l.pending _ (
          assign_heads-IsFirst takes (sort_heads l.pending) in_flight
            (sort_heads-IsSorted l.pending)),
    )
