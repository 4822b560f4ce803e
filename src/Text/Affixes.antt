-- ===== src/Text/Affixes.antt =====
-- Suffixes, prefixes, positions and cuts of texts that were put together.
use mathlib.Core.Option
use shoka.Prelude.{
  ℕ, ◌≡◌, ◌↔◌, true, refl, ap, sym, false, Option, none, some, [], ◌∷◌, ◌++◌, arith, ◌==◌,
  Bool-cases, ◌⊎◌, inl, inr, length, length-append, ◌≤◌,
}
use shoka.Text.{Text, text_eq, index, cut, strip_prefix, strip_suffix, has_suffix, is_some}
use shoka.Text.Laws.{text_eq_iff, text_eq_refl, IsFree}

pub strip_suffix-append : (t r : Text) → strip_suffix t (r ++ t) ≡ some r
unfolding strip_suffix
strip_suffix-append [] [] = rw (text_eq_refl []) refl
strip_suffix-append (c ∷ t) [] = rw (text_eq_refl (c ∷ t)) refl
strip_suffix-append t (c ∷ r) = elim (Bool-cases (text_eq t (c ∷ (r ++ t)))) [
  | inl e ↦
      absurd
        (omega (arith, ap (length {A = ℕ}) ((text_eq_iff t (c ∷ (r ++ t))).0 e), length-append r t))
  | inr e ↦ rw e (rw (strip_suffix-append t r) refl)
]

pub strip_suffix_sound : (t s r : Text) → strip_suffix t s ≡ some r → s ≡ r ++ t
unfolding strip_suffix
strip_suffix_sound t [] r h = ground (arith, text_eq_iff t [])
strip_suffix_sound t (c ∷ s) r h = elim (Bool-cases (text_eq t (c ∷ s))) [
  | inl e ↦
      let whole : [] ≡ r = ground (arith, h) in rw (← whole) (sym ((text_eq_iff t (c ∷ s)).0 e))
  | inr e ↦
      let (r', found, same) = (Option.map-eq-some_iff _ _).0 (rw e at h) in
      rw (← same) (ap (λ l. c ∷ l) (strip_suffix_sound t s r' found))
]

pub has_suffix_iff : (t s : Text) → (has_suffix s t ≡ true) ↔ ((r : Text) × (s ≡ r ++ t))
unfolding has_suffix
has_suffix_iff t s =
    (from (strip_suffix t s) refl, λ (r, e). rw e (rw (strip_suffix-append t r) refl))
  where
    from : (o : Option Text) → strip_suffix t s ≡ o → is_some o ≡ true → (r : Text) × (s ≡ r ++ t)
    from none e h = cc h
    from (some r) e h = (r, strip_suffix_sound t s r e)

pub strip_prefix-append : (p s : Text) → strip_prefix p (p ++ s) ≡ some s
unfolding strip_prefix
strip_prefix-append [] s = refl
strip_prefix-append (c ∷ p) s = ground (arith, strip_prefix-append p s)

pub strip_prefix_sound : (p s r : Text) → strip_prefix p s ≡ some r → s ≡ p ++ r
unfolding strip_prefix
strip_prefix_sound [] s r h = cc
strip_prefix_sound (c ∷ p) [] r h = cc
strip_prefix_sound (c ∷ p) (d ∷ s) r h = elim (Bool-cases (c == d)) [
  | inl e ↦
      let same : c ≡ d = ground arith in
      rw same (ap (λ l. d ∷ l) (strip_prefix_sound p s r (rw e at h)))
  | inr e ↦ cc (rw e at h)
]

-- The last code point.
abbrev pub last : Text → Option ℕ
last [] = none
last (c ∷ []) = some c
last (c ∷ d ∷ s) = last (d ∷ s)

pub last-append : (s : Text) (d : ℕ) (t : Text) → last (s ++ d ∷ t) ≡ last (d ∷ t)
last-append [] d t = refl
last-append (c ∷ []) d t = refl
last-append (c ∷ e ∷ s) d t = last-append (e ∷ s) d t

pub index_absent : (sep : ℕ) (s : Text) → IsFree sep s → index sep s ≡ none
unfolding index
index_absent sep [] h = refl
index_absent sep (c ∷ s) h = ground (arith, index_absent sep s h.1, h.0)

pub index-append :
    (sep : ℕ) (s t : Text) → IsFree sep s → index sep (s ++ sep ∷ t) ≡ some (length s)
unfolding index
index-append sep [] t h = ground arith
index-append sep (c ∷ s) t h = ground (arith, index-append sep s t h.1, h.0)

-- A separator is not found before the end of a text that is free of it.
pub length-le-index :
    (sep : ℕ) (s t : Text) (i : ℕ) → IsFree sep s → index sep (s ++ t) ≡ some i → length s ≤ i
unfolding index
length-le-index sep [] t i h e = omega arith
length-le-index sep (c ∷ s) t i h e =
    let differs : (c == sep) ≡ false = ground (arith, h.0) in
    let (j, found, same) = (Option.map-eq-some_iff _ _).0 (rw differs at e) in
    omega (arith, same, length-le-index sep s t j h.1 found)

pub cut_absent : (sep : ℕ) (s : Text) → IsFree sep s → cut sep s ≡ (s, [])
unfolding cut
cut_absent sep [] h = refl
cut_absent sep (c ∷ s) h = rw (cut_absent sep s h.1) (ground (arith, h.0))

pub cut-append : (sep : ℕ) (s t : Text) → IsFree sep s → cut sep (s ++ sep ∷ t) ≡ (s, t)
unfolding cut
cut-append sep [] t h = ground arith
cut-append sep (c ∷ s) t h = rw (cut-append sep s t h.1) (ground (arith, h.0))

-- Of two ways to end one text, the shorter end is the end of the longer one.
pub ends_overlap :
    (p t r s : Text)
    → p ++ t ≡ r ++ s
    → ((u : Text) × (t ≡ u ++ s)) ⊎ ((q : Text) × (s ≡ q ++ t) × (p ≡ r ++ q))
ends_overlap [] t r s h = inl (r, h)
ends_overlap (c ∷ p) t [] s h = inr (c ∷ p, sym h, refl)
ends_overlap (c ∷ p) t (d ∷ r) s h = elim (ends_overlap p t r s (cc)) [
  | inl e ↦ inl e
  | inr (q, e, f) ↦ inr (q, e, cc)
]

pub IsFree-append : (sep : ℕ) (s t : Text) → IsFree sep s → IsFree sep t → IsFree sep (s ++ t)
IsFree-append sep [] t h k = k
IsFree-append sep (c ∷ s) t h k = (h.0, IsFree-append sep s t h.1 k)

pub IsFree-right : (sep : ℕ) (s t : Text) → IsFree sep (s ++ t) → IsFree sep t
IsFree-right sep [] t h = h
IsFree-right sep (c ∷ s) t h = IsFree-right sep s t h.1

pub IsFree-left : (sep : ℕ) (s t : Text) → IsFree sep (s ++ t) → IsFree sep s
IsFree-left sep [] t h = tt
IsFree-left sep (c ∷ s) t h = (h.0, IsFree-left sep s t h.1)

-- What stands before the first separator.
pub index_sound :
    (sep : ℕ) (s : Text) (i : ℕ)
    → index sep s ≡ some i
    → (pre : Text) × (post : Text) × (s ≡ pre ++ sep ∷ post) × (length pre ≡ i) × IsFree sep pre
unfolding index
index_sound sep [] i h = cc
index_sound sep (c ∷ s) i h = elim (Bool-cases (c == sep)) [
  | inl e ↦ ([], s, ground arith, ground arith, tt)
  | inr e ↦
      let (j, found, same) = (Option.map-eq-some_iff _ _).0 (rw e at h) in
      let (pre, post, whole, len, free) = index_sound sep s j found in
      (c ∷ pre, post, ap (λ l. c ∷ l) whole, omega (arith, same, len), (ground arith, free))
]
