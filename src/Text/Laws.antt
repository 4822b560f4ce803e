-- ===== src/Text/Laws.antt =====
-- Laws of the string functions.
use shoka.Prelude.{
  ℕ, ◌≡◌, refl, ◌≢◌, ◌↔◌, true, false, List, [], ◌∷◌, ◌++◌, arith, ◌==◌, All, length, ap, ◌∙◌, ◌≤◌,
  Bool-cases, inl, inr,
}
use shoka.Text.{
  Text, text_eq, is_space, trim_left, trim_right, trim_space, push_unless_space, split, join,
  push_first,
}

pub text_eq_iff : (s t : Text) → (text_eq s t ≡ true) ↔ (s ≡ t)
unfolding text_eq
text_eq_iff [] [] = ground arith
text_eq_iff [] (y ∷ ys) = ground arith
text_eq_iff (x ∷ xs) [] = ground arith
text_eq_iff (x ∷ xs) (y ∷ ys) = ground (arith, text_eq_iff xs ys)

pub text_eq_refl : (s : Text) → text_eq s s ≡ true
text_eq_refl s = (text_eq_iff s s).1 refl

-- A text that `TrimSpace` leaves as it is.
pub record IsTrimmed (s : Text) : Type 0 where
  pub left : trim_left s ≡ s
  pub right : trim_right s ≡ s

length-trim_left : (s : Text) → length (trim_left s) ≤ length s
unfolding trim_left
length-trim_left [] = omega arith
length-trim_left (c ∷ s) = ground (arith, length-trim_left s)

trim_left_idem : (s : Text) → trim_left (trim_left s) ≡ trim_left s
unfolding trim_left
trim_left_idem [] = refl
trim_left_idem (c ∷ s) = elim (Bool-cases (is_space c)) [
  | inl e ↦ rw e (trim_left_idem s)
  | inr e ↦ rw e (rw e)
]

pub trim_right_idem : (s : Text) → trim_right (trim_right s) ≡ trim_right s
unfolding trim_right
trim_right_idem [] = refl
trim_right_idem (c ∷ s) = go (trim_right s) (trim_right_idem s)
  where
    go : (r : Text) → trim_right r ≡ r → trim_right (push_unless_space c r) ≡ push_unless_space c r
    go [] h = elim (Bool-cases (is_space c)) [ inl e ↦ rw e refl | inr e ↦ rw e (rw e) ]
    go (d ∷ r) h = rw h

-- Trimming on the right keeps a first code point that is no space.
trim_left-trim_right : (s : Text) → trim_left s ≡ s → trim_left (trim_right s) ≡ trim_right s
unfolding trim_left trim_right
trim_left-trim_right [] h = refl
trim_left-trim_right (c ∷ s) h = elim (Bool-cases (is_space c)) [
  | inl e ↦ absurd (grind (arith, length-trim_left s, ap (length {A = ℕ}) h))
  | inr e ↦ go (trim_right s) e
]
  where
    go : (r : Text) → is_space c ≡ false → trim_left (push_unless_space c r) ≡ push_unless_space c r
    go [] e = rw e (rw e)
    go (d ∷ r) e = rw e

pub trim_space-IsTrimmed : (s : Text) → IsTrimmed (trim_space s)
unfolding trim_space
trim_space-IsTrimmed s = record {
  left = trim_left-trim_right (trim_left s) (trim_left_idem s);
  right = trim_right_idem (trim_left s);
}

pub trim_space_of_IsTrimmed : (s : Text) → IsTrimmed s → trim_space s ≡ s
unfolding trim_space
trim_space_of_IsTrimmed s h = rw (h.left) h.right

pub trim_left-append : (s t : Text) → s ≢ [] → trim_left s ≡ s → trim_left (s ++ t) ≡ s ++ t
unfolding trim_left
trim_left-append [] t n h = absurd (n refl)
trim_left-append (c ∷ s) t n h = elim (Bool-cases (is_space c)) [
  | inl e ↦ absurd (grind (arith, length-trim_left s, ap (length {A = ℕ}) h))
  | inr e ↦ rw e
]

pub trim_right-append : (s t : Text) → t ≢ [] → trim_right t ≡ t → trim_right (s ++ t) ≡ s ++ t
unfolding trim_right
trim_right-append [] t n h = h
trim_right-append (c ∷ s) t n h = rw (trim_right-append s t n h) (go (s ++ t) (append_nonempty s))
  where
    append_nonempty : (s : Text) → s ++ t ≢ []
    append_nonempty [] = n
    append_nonempty (d ∷ r) = λ e. cc

    go : (r : Text) → r ≢ [] → push_unless_space c r ≡ c ∷ r
    go [] m = absurd (m refl)
    go (d ∷ r) m = refl

-- Trimmed texts stay trimmed when they are put round a separator.
pub append-IsTrimmed :
    (s t : Text) (sep : ℕ) → s ≢ [] → t ≢ [] → IsTrimmed s → IsTrimmed t → IsTrimmed (s ++ sep ∷ t)
append-IsTrimmed s t sep ns nt hs ht = record {
  left = trim_left-append s (sep ∷ t) ns hs.left;
  right = trim_right-append s (sep ∷ t) (λ e. cc) (trim_right-append (sep ∷ []) t nt ht.right);
}

-- No code point of the text is the separator.
abbrev pub IsFree : ℕ → Text → Type 0
IsFree sep = All (λ c. c ≢ sep)

pub split-IsFree : (sep : ℕ) (s : Text) → All (IsFree sep) (split sep s)
unfolding split
split-IsFree sep [] = (tt, tt)
split-IsFree sep (c ∷ s) = elim (Bool-cases (c == sep)) [
  | inl e ↦ rw e (tt, split-IsFree sep s)
  | inr e ↦ rw e (go (split sep s) (split-IsFree sep s) (ground arith))
]
  where
    go : (ps : List Text) → All (IsFree sep) ps → c ≢ sep → All (IsFree sep) (push_first c ps)
    go [] h n = ((n, tt), tt)
    go (p ∷ ps) h n = ((n, h.0), h.1)

split-free : (sep : ℕ) (p : Text) → IsFree sep p → split sep p ≡ p ∷ []
unfolding split
split-free sep [] h = refl
split-free sep (c ∷ p) h = rw (split-free sep p h.1) (ground (arith, h.0))

split-append :
    (sep : ℕ) (p rest : Text) → IsFree sep p → split sep (p ++ sep ∷ rest) ≡ p ∷ split sep rest
unfolding split
split-append sep [] rest h = ground arith
split-append sep (c ∷ p) rest h = rw (split-append sep p rest h.1) (ground (arith, h.0))

-- Splitting what was joined gives the pieces back.
pub split-join :
    (sep : ℕ) (p : Text) (ps : List Text)
    → All (IsFree sep) (p ∷ ps)
    → split sep (join sep (p ∷ ps)) ≡ p ∷ ps
unfolding join
split-join sep p [] h = split-free sep p h.0
split-join sep p (q ∷ ps) h =
    split-append sep p (join sep (q ∷ ps)) h.0 ∙ ap (λ l. p ∷ l) (split-join sep q ps h.1)

-- Trimming removes code points and adds none.
trim_left-IsFree : (sep : ℕ) (s : Text) → IsFree sep s → IsFree sep (trim_left s)
unfolding trim_left
trim_left-IsFree sep [] h = tt
trim_left-IsFree sep (c ∷ s) h = elim (Bool-cases (is_space c)) [
  | inl e ↦ rw e (trim_left-IsFree sep s h.1)
  | inr e ↦ rw e h
]

trim_right-IsFree : (sep : ℕ) (s : Text) → IsFree sep s → IsFree sep (trim_right s)
unfolding trim_right
trim_right-IsFree sep [] h = tt
trim_right-IsFree sep (c ∷ s) h = go (trim_right s) (trim_right-IsFree sep s h.1)
  where
    go : (r : Text) → IsFree sep r → IsFree sep (push_unless_space c r)
    go [] k = elim (Bool-cases (is_space c)) [ inl e ↦ rw e tt | inr e ↦ rw e (h.0, tt) ]
    go (d ∷ r) k = (h.0, k)

pub trim_space-IsFree : (sep : ℕ) (s : Text) → IsFree sep s → IsFree sep (trim_space s)
unfolding trim_space
trim_space-IsFree sep s h = trim_right-IsFree sep (trim_left s) (trim_left-IsFree sep s h)

-- A text without space is trimmed.
pub solid-IsTrimmed : (s : Text) → All (λ c. is_space c ≡ false) s → IsTrimmed s
unfolding trim_left trim_right
solid-IsTrimmed [] h = record { left = refl; right = refl }
solid-IsTrimmed (c ∷ s) h = record {
  left = rw h.0 refl;
  right = rw ((solid-IsTrimmed s h.1).right) (push s);
}
  where
    push : (r : Text) → push_unless_space c r ≡ c ∷ r
    push [] = rw h.0 refl
    push (d ∷ r) = refl

-- A trimmed text starts with no space.
pub first_solid : (c : ℕ) (s : Text) → trim_left (c ∷ s) ≡ c ∷ s → is_space c ≡ false
unfolding trim_left
first_solid c s h = elim (Bool-cases (is_space c)) [
  | inl e ↦ absurd (grind (arith, length-trim_left s, ap (length {A = ℕ}) h))
  | inr e ↦ e
]

pub trim_left_solid : (c : ℕ) (s : Text) → is_space c ≡ false → trim_left (c ∷ s) ≡ c ∷ s
unfolding trim_left
trim_left_solid c s e = rw e
