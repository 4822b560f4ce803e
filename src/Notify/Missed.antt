-- ===== src/Notify/Missed.antt =====
-- What Since returns, and when it says that events were missed.
use shoka.Prelude.{
  ℕ, zero, suc, ◌+◌, ◌-◌, ◌^◌, ◌<◌, ◌≤◌, ◌≡◌, ◌∙◌, refl, sym, ap, true, false, List, [], ◌∷◌, ◌++◌,
  length, ltb, leb, if◌then◌else◌, Bool-cases, inl, inr, arith,
}
use shoka.Notify.{Event, Center, newer, since_in, since}
use shoka.Notify.Window.{last_events, oldest_first, last_events-whole}
use shoka.Notify.Refines.{
  History, ring_size, snapshot-last_events, AreNumbered, History-AreNumbered, ring_size_pos,
}

newer-append : (n : ℕ) (xs ys : List Event) → newer n (xs ++ ys) ≡ newer n xs ++ newer n ys
unfolding newer
newer-append n [] ys = refl
newer-append n (e ∷ xs) ys = elim (Bool-cases (ltb n e.seq)) [
  | inl k ↦ rw k (ap (λ l. e ∷ l) (newer-append n xs ys))
  | inr k ↦ rw k (newer-append n xs ys)
]

newer_one : (n : ℕ) (e : Event) → newer n (e ∷ []) ≡ (if ltb n e.seq then e ∷ [] else [])
unfolding newer
newer_one n e = refl

newer_empty : (n : ℕ) → newer n [] ≡ []
unfolding newer
newer_empty n = refl

none_newer : (n : ℕ) (h : List Event) → AreNumbered h → length h ≤ n → newer n (oldest_first h) ≡ []
unfolding oldest_first
none_newer n [] a l = newer_empty n
none_newer n (e ∷ h) a l =
    let s = a.0 in
    let old : ltb n e.seq ≡ false = (ground (arith, l, s)) in
    newer-append n (oldest_first h) (e ∷ [])
    ∙ ap (λ x. x ++ newer n (e ∷ [])) (none_newer n h a.1 (ground (arith, l)))
    ∙ newer_one n e
    ∙ rw old refl

-- Events that the window has dropped are not newer.
newer-last_events :
    (n m : ℕ) (h : List Event)
    → AreNumbered h
    → length h ≤ n + m
    → newer n (last_events m h) ≡ newer n (oldest_first h)
unfolding last_events oldest_first
newer-last_events n zero h a l = newer_empty n ∙ sym (none_newer n h a (ground (arith, l)))
newer-last_events n (suc m) [] a l = refl
newer-last_events n (suc m) (e ∷ h) a l =
    newer-append n (last_events m h) (e ∷ [])
    ∙ ap (λ x. x ++ newer n (e ∷ [])) (newer-last_events n m h a.1 (ground (arith, l)))
    ∙ sym (newer-append n (oldest_first h) (e ∷ []))

all_newer :
    (n m : ℕ) (h : List Event)
    → AreNumbered h
    → n + m ≤ length h
    → newer n (last_events m h) ≡ last_events m h
unfolding last_events
all_newer n zero h a l = newer_empty n
all_newer n (suc m) [] a l = newer_empty n
all_newer n (suc m) (e ∷ h) a l =
    let s = a.0 in
    let young : ltb n e.seq ≡ true = (ground (arith, l, s)) in
    newer-append n (last_events m h) (e ∷ [])
    ∙ ap (λ x. x ++ newer n (e ∷ [])) (all_newer n m h a.1 (ground (arith, l)))
    ∙ ap (λ x. last_events m h ++ x) (newer_one n e ∙ rw young refl)

-- The oldest event of a window.
oldest_seq :
    (m : ℕ) (h : List Event)
    → AreNumbered h
    → suc m ≤ length h
    → (x : Event) × (rest : List Event) × (last_events (suc m) h ≡ x ∷ rest)
      × (x.seq ≡ length h - m)
unfolding last_events
oldest_seq m [] a l = ground (arith, l)
oldest_seq zero (e ∷ h) a l = (e, [], refl, a.0 ∙ ground (arith))
oldest_seq (suc m) (e ∷ h) a l =
    let (x, rest, is, s) = oldest_seq m h a.1 (ground (arith, l)) in
    (x, rest ++ e ∷ [], ap (λ y. y ++ e ∷ []) is, s ∙ ground (arith))

since_in_window :
    (n m : ℕ) (h : List Event)
    → AreNumbered h
    → 0 < m
    → m ≤ length h
    → n + 1 < 2 ^ 64
    → since_in n (last_events m h) ≡ (newer n (last_events m h), ltb (n + m) (length h))
since_in_window n zero h a p l w = ground (arith, p)
since_in_window n (suc m) h a p l w =
    let (x, rest, is, s) = oldest_seq m h a l in
    rw is (ap (λ b. (newer n (x ∷ rest), b)) (ground (arith, s, w, l)))

since_in_whole :
    (n : ℕ) (h : List Event)
    → AreNumbered h
    → n + 1 < 2 ^ 64
    → since_in n (oldest_first h) ≡ (newer n (oldest_first h), false)
unfolding oldest_first
since_in_whole n [] a w = ap (λ x. (x, false)) (sym (newer_empty n))
since_in_whole n (e ∷ h) a w =
    let whole = last_events-whole (length (e ∷ h)) (e ∷ h) (ground arith) in
    let seen : ltb (n + length (e ∷ h)) (length (e ∷ h)) ≡ false = (ground arith) in
    ap (since_in n) (sym whole)
    ∙ since_in_window n (length (e ∷ h)) (e ∷ h) a (ground arith) (ground arith) w
    ∙ rw seen (ap (λ x. (newer n x, false)) whole)

-- The answer of Since on the latest m events of a history.
since_in-last_events :
    (n m : ℕ) (h : List Event)
    → AreNumbered h
    → 0 < m
    → n + 1 < 2 ^ 64
    → since_in n (last_events m h) ≡ (
        if leb (length h) (n + m)
        then (newer n (oldest_first h), false)
        else (last_events m h, true))
since_in-last_events n m h a p w = elim (Bool-cases (ltb (length h) m)) [
  | inl few ↦
      let all : leb (length h) (n + m) ≡ true = (ground (arith, few)) in
      let same : last_events m h ≡ oldest_first h = last_events-whole m h (ground (arith, few)) in
      rw all (ap (since_in n) same ∙ since_in_whole n h a w)
  | inr many ↦
      since_in_window n m h a p (ground (arith, many)) w
      ∙ elim (Bool-cases (leb (length h) (n + m))) [
        | inl all ↦
            let kept = newer-last_events n m h a (ground (arith, all)) in
            let seen : ltb (n + m) (length h) ≡ false = (ground (arith, all)) in
            rw (all, seen) (ap (λ x. (x, false)) kept)
        | inr lost ↦
            let young = all_newer n m h a (ground (arith, lost)) in
            let gone : ltb (n + m) (length h) ≡ true = (ground (arith, lost)) in
            rw (lost, gone) (ap (λ x. (x, true)) young)
      ]
]

-- Of fewer than 2^64 - 1 events, and for a number below 2^64 - 1, Since returns all events past the
-- number and says that none was missed where the ring has lost none of them; otherwise it returns
-- what the ring holds and says that some were missed.
pub since-newer :
    {max_entries : ℕ} {c : Center} {h : List Event} (n : ℕ)
    → History max_entries c h
    → length h + 1 < 2 ^ 64
    → n + 1 < 2 ^ 64
    → since n c ≡ (
        if leb (length h) (n + ring_size max_entries)
        then (newer n (oldest_first h), false)
        else (last_events (ring_size max_entries) h, true))
unfolding since
since-newer {max_entries = m} {h = h} n x l w =
    ap (since_in n) (snapshot-last_events x)
    ∙ since_in-last_events n (ring_size m) h (History-AreNumbered x l).0 (ring_size_pos m) w
