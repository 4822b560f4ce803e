-- ===== src/PartialEdit/Splice.antt =====
-- What the two edits do to the bytes of a file.
use mathlib.Core.Option
use mathlib.Core.List.{append_assoc}
use shoka.Prelude.{
  ℕ, suc, ◌+◌, ◌-◌, ◌≡◌, ◌≢◌, ◌<◌, refl, sym, ap, ◌∙◌, true, false, ◌||◌, some, [], ◌∷◌, ◌++◌,
  length, take, drop, arith, Bool-cases, Option-cases, inl, inr, take-length-append, length-append,
  drop-length-append, ◌⊎◌, ◌↔◌,
}
use shoka.Text.{Text, codes, text_eq, strip_prefix, is_some}
use shoka.Text.Laws.{text_eq_iff}
use shoka.Text.Affixes.{strip_prefix-append, strip_prefix_sound}
use shoka.PartialEdit.{
  Bytes, ok, count_from, count, index_of, replaced, splice_patch, inserted, splice_append,
}

index_of_sound :
    (cur old : Bytes) (i : ℕ)
    → index_of cur old ≡ some i
    → (pre : Bytes) × (post : Bytes) × (cur ≡ pre ++ (old ++ post)) × (length pre ≡ i)
unfolding index_of
index_of_sound [] old i h = ([], [], ground (arith, text_eq_iff old []), ground arith)
index_of_sound (c ∷ cur) old i h = elim (Option-cases (strip_prefix old (c ∷ cur))) [
  | inr (post, e) ↦ ([], post, strip_prefix_sound old (c ∷ cur) post e, ground arith)
  | inl e ↦
      let (j, found, same) = (Option.map-eq-some_iff _ _).0 (rw (e, is_some) at h) in
      let (pre, post, whole, len) = index_of_sound cur old j found in
      (c ∷ pre, post, ap (λ l. c ∷ l) whole, omega arith)
]

-- A match that is counted has an index.
count_pos : (cur old : Bytes) → 0 < count_from 0 old cur → (i : ℕ) × (index_of cur old ≡ some i)
unfolding count_from index_of
count_pos [] old h = absurd (omega arith)
count_pos (c ∷ cur) old h = elim (Option-cases (strip_prefix old (c ∷ cur))) [
  | inr (post, e) ↦ (0, rw e refl)
  | inl e ↦ let (i, found) = count_pos cur old (rw e at h) in (suc i, rw e (rw found refl))
]

pred_suc : (n : ℕ) → suc n - 1 ≡ n
pred_suc n = omega arith

count_from-skip :
    (old s post : Bytes) → count_from (length s) old (s ++ post) ≡ count_from 0 old post
unfolding count_from
count_from-skip old [] post = refl
count_from-skip old (c ∷ s) post = count_from-skip old s post

-- An occurrence anywhere is counted at least once.
count_from-occurs : (old x y : Bytes) → old ≢ [] → 0 < count_from 0 old (x ++ (old ++ y))
unfolding count_from
count_from-occurs [] x y n = absurd (n refl)
count_from-occurs (d ∷ old) [] y n = rw (strip_prefix-append (d ∷ old) y) (omega arith)
count_from-occurs (d ∷ old) (c ∷ x) y n =
    elim (Bool-cases (is_some (strip_prefix (d ∷ old) (c ∷ (x ++ ((d ∷ old) ++ y)))))) [
      | inl e ↦ rw e (omega arith)
      | inr e ↦ rw e (count_from-occurs (d ∷ old) x y n)
    ]

-- Behind the first match the count goes on by one less.
count_from-first :
    (old pre post : Bytes)
    → old ≢ []
    → index_of (pre ++ (old ++ post)) old ≡ some (length pre)
    → count_from 0 old (pre ++ (old ++ post)) ≡ suc (count_from 0 old post)
unfolding count_from index_of
count_from-first [] pre post n h = absurd (n refl)
count_from-first (d ∷ old) [] post n h =
    rw (strip_prefix-append (d ∷ old) post)
      (rw pred_suc (ap suc (count_from-skip (d ∷ old) old post)))
count_from-first (d ∷ old) (c ∷ pre) post n h =
    elim (Bool-cases (is_some (strip_prefix (d ∷ old) (c ∷ (pre ++ ((d ∷ old) ++ post)))))) [
      | inl e ↦ absurd (cc (rw e at h))
      | inr e ↦
          let (j, found, same) = (Option.map-eq-some_iff _ _).0 (rw e at h) in
          rw e (count_from-first (d ∷ old) pre post n (rw found (ap some (omega (arith, same)))))
    ]

cut_at :
    (pre mid post : Bytes)
    → (take (length pre) (pre ++ (mid ++ post)) ≡ pre)
      × (drop (length pre + length mid) (pre ++ (mid ++ post)) ≡ post)
cut_at pre mid post = (take-length-append pre (mid ++ post), go pre)
  where
    go : (p : Bytes) → drop (length p + length mid) (p ++ (mid ++ post)) ≡ post
    go [] =
        rw (let e : 0 + length mid ≡ length mid = omega arith in e) (drop-length-append mid post)
    go (c ∷ p) =
        rw (let e : suc (length p) + length mid ≡ suc (length p + length mid) = omega arith in e)
          (go p)

replaced-eq :
    (cur old new pre post : Bytes)
    → cur ≡ pre ++ (old ++ post)
    → index_of cur old ≡ some (length pre)
    → replaced cur old new (index_of cur old) ≡ ok (pre ++ (new ++ post))
replaced-eq cur old new pre post whole found =
    rw found (rw whole (rw ((cut_at pre old post).0, (cut_at pre old post).1) refl))

-- The first occurrence of a span, behind whose end it does not stand again. It may overlap another.
pub record FirstAt (cur old pre post : Bytes) : Type 0 where
  pub whole : cur ≡ pre ++ (old ++ post)
  pub first : index_of cur old ≡ some (length pre)
  pub last : (x y : Bytes) → post ≢ x ++ (old ++ y)

counted_once :
    (cur old : Bytes)
    → old ≢ []
    → count cur old ≡ 1
    → (pre : Bytes) × (post : Bytes) × FirstAt cur old pre post
unfolding count
counted_once cur old n h =
    let (i, found) = count_pos cur old (omega arith) in
    let (pre, post, whole, len) = index_of_sound cur old i found in
    let first : index_of cur old ≡ some (length pre) = rw len found in
    (
      pre,
      post,
      record {
        whole = whole;
        first = first;
        last = λ x y e. absurd (
            omega (
              arith,
              h,
              ap (λ c. count_from 0 old c) whole,
              count_from-first old pre post n (sym (ap (λ c. index_of c old) whole) ∙ first),
              ap (λ c. count_from 0 old c) e,
              count_from-occurs old x y n,
            ));
      },
    )

-- A patch succeeds exactly where the old string is not empty and is counted once. Then the file is
-- split round its first occurrence, behind which there is no other, and that occurrence alone is
-- replaced.
pub splice_patch_iff :
    (cur old new out : Bytes)
    → (splice_patch cur old new ≡ ok out) ↔ (
        (old ≢ [])
        × (count cur old ≡ 1)
        × ((pre : Bytes) × (post : Bytes) × FirstAt cur old pre post
            × (out ≡ pre ++ (new ++ post))))
unfolding splice_patch
splice_patch_iff cur old new out = (sound, complete)
  where
    sound :
        splice_patch cur old new ≡ ok out
        → (old ≢ [])
          × (count cur old ≡ 1)
          × ((pre : Bytes) × (post : Bytes) × FirstAt cur old pre post
              × (out ≡ pre ++ (new ++ post)))
    sound h =
        let n : old ≢ [] = ground (arith, text_eq_iff old []) in
        let one : count cur old ≡ 1 = ground arith in
        let (pre, post, u) = counted_once cur old n one in
        let here = replaced-eq cur old new pre post u.whole u.first in
        (n, one, (pre, post, u, ground (arith, here)))

    complete :
        (old ≢ [])
          × (count cur old ≡ 1)
          × ((pre : Bytes) × (post : Bytes) × FirstAt cur old pre post
              × (out ≡ pre ++ (new ++ post)))
        → splice_patch cur old new ≡ ok out
    complete (n, one, (pre, post, u, e)) =
        ground (arith, text_eq_iff old [], replaced-eq cur old new pre post u.whole u.first)

-- A match that overlaps the one before it is not counted: with three equal bytes, a patch of two of
-- them succeeds on the first occurrence, though a second one starts a byte later.
pub splice_patch_overlap :
    (b : ℕ) (new : Bytes)
    → (splice_patch (b ∷ b ∷ b ∷ []) (b ∷ b ∷ []) new ≡ ok (new ++ b ∷ []))
      × (b ∷ b ∷ b ∷ [] ≡ [] ++ (b ∷ b ∷ []) ++ b ∷ [])
      × (b ∷ b ∷ b ∷ [] ≡ (b ∷ []) ++ (b ∷ b ∷ []) ++ [])
unfolding splice_patch strip_prefix text_eq
splice_patch_overlap b new = (ground arith, refl, refl)

-- Where a position puts the content: at the end, or round the first occurrence of an anchor that is
-- counted once.
pub data Placed (cur content : Bytes) (position : Text) (a out : Bytes) : Type 0 where
  at_end :
      (position ≡ []) ⊎ (position ≡ codes "end")
      → a ≡ []
      → out ≡ cur ++ content
      → Placed cur content position a out
  before_anchor :
      (pre post : Bytes)
      → position ≡ codes "before"
      → a ≢ []
      → count cur a ≡ 1
      → FirstAt cur a pre post
      → out ≡ pre ++ (content ++ (a ++ post))
      → Placed cur content position a out
  after_anchor :
      (pre post : Bytes)
      → position ≡ codes "after"
      → a ≢ []
      → count cur a ≡ 1
      → FirstAt cur a pre post
      → out ≡ pre ++ (a ++ (content ++ post))
      → Placed cur content position a out

inserted-before :
    (cur content a pre post : Bytes)
    → FirstAt cur a pre post
    → inserted cur content false (length a) (index_of cur a) ≡ ok (pre ++ (content ++ (a ++ post)))
inserted-before cur content a pre post u =
    rw u.first (
      rw u.whole (rw (take-length-append pre (a ++ post), drop-length-append pre (a ++ post)) refl))

inserted-after :
    (cur content a pre post : Bytes)
    → FirstAt cur a pre post
    → inserted cur content true (length a) (index_of cur a) ≡ ok (pre ++ (a ++ (content ++ post)))
inserted-after cur content a pre post u =
    rw u.first (rw u.whole (rw (drop_at, take_at) (simp append_assoc)))
  where
    drop_at : drop (length pre + length a) (pre ++ (a ++ post)) ≡ post
    drop_at = (cut_at pre a post).1

    take_at : take (length pre + length a) (pre ++ (a ++ post)) ≡ pre ++ a
    take_at =
        rw (← length-append pre a)
          (rw (← append_assoc pre a post) (take-length-append (pre ++ a) post))

filled : (a : Bytes) → a ≢ [] → text_eq a [] ≡ false
filled a n = ground (arith, text_eq_iff a [])

before_not_after :
    (position : Text) → position ≡ codes "before" → text_eq position (codes "after") ≡ false
unfolding text_eq
before_not_after position e = rw e refl

splice_append-Placed :
    (cur content a out : Bytes) (position : Text)
    → splice_append cur content position a ≡ ok out
    → Placed cur content position a out
unfolding splice_append
splice_append-Placed cur content a out position h =
    elim (Bool-cases (text_eq position [] || text_eq position (codes "end"))) [
      | inl e ↦
          at_end (ground (arith, text_eq_iff position [], text_eq_iff position (codes "end")))
            (ground (arith, text_eq_iff a [])) (ground arith)
      | inr e ↦ elim (Bool-cases (text_eq position (codes "before"))) [
        | inl before ↦
            let n : a ≢ [] = ground (arith, text_eq_iff a []) in
            let one : count cur a ≡ 1 = ground arith in
            let (pre, post, u) = counted_once cur a n one in
            let name : position ≡ codes "before" =
              (text_eq_iff position (codes "before")).0 before in
            before_anchor pre post name n one u (
              ground
                (arith, before_not_after position name, inserted-before cur content a pre post u))
        | inr other ↦
            let n : a ≢ [] = ground (arith, text_eq_iff a []) in
            let one : count cur a ≡ 1 = ground arith in
            let (pre, post, u) = counted_once cur a n one in
            let name : position ≡ codes "after" =
              ground (arith, text_eq_iff position (codes "after")) in
            after_anchor pre post name n one u
              (ground (arith, inserted-after cur content a pre post u))
      ]
    ]

Placed-splice_append :
    (cur content a out : Bytes) (position : Text)
    → Placed cur content position a out
    → splice_append cur content position a ≡ ok out
unfolding splice_append text_eq
Placed-splice_append cur content a out position (at_end (inl p) e o) = rw (p, e) (ap ok (sym o))
Placed-splice_append cur content a out position (at_end (inr p) e o) = rw (p, e) (ap ok (sym o))
Placed-splice_append cur content a out position (before_anchor pre post p n one u o) =
    rw p (rw (filled a n) (rw one (inserted-before cur content a pre post u ∙ ap ok (sym o))))
Placed-splice_append cur content a out position (after_anchor pre post p n one u o) =
    rw p (rw (filled a n) (rw one (inserted-after cur content a pre post u ∙ ap ok (sym o))))

-- An append succeeds exactly where the position is the end and no anchor is given, or the position is
-- before or after an anchor that is not empty and is counted once. Then the content stands at the end,
-- or before or after the first occurrence of the anchor, behind whose end there is no other, and every
-- other byte is kept.
pub splice_append_iff :
    (cur content a out : Bytes) (position : Text)
    → (splice_append cur content position a ≡ ok out) ↔ Placed cur content position a out
splice_append_iff cur content a out position = (
  splice_append-Placed cur content a out position,
  Placed-splice_append cur content a out position,
)
