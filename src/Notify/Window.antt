-- ===== src/Notify/Window.antt =====
-- The latest events of a history, oldest first, as the ring gives them.
use shoka.Prelude.{
  ℕ, zero, suc, ◌+◌, ◌-◌, ◌%◌, ◌<◌, ◌≤◌, ◌≡◌, ◌∙◌, refl, ap, ◌==◌, true, List, [], ◌∷◌, ◌++◌,
  length, ltb, Bool-cases, inl, inr, arith,
}
use shoka.Notify.{Event, Center, ordered_from, oldest_slot, snapshot}
use shoka.Notify.Ring.{back, wrap_once, slot_in, slot, IsRing}

-- A history is newest first; this is its latest n events, oldest first.
unfoldable pub last_events : ℕ → List Event → List Event
last_events zero h = []
last_events (suc n) [] = []
last_events (suc n) (e ∷ h) = last_events n h ++ e ∷ []

-- The whole history, oldest first.
unfoldable pub oldest_first : List Event → List Event
oldest_first [] = []
oldest_first (e ∷ h) = oldest_first h ++ e ∷ []

pub last_events-whole : (n : ℕ) (h : List Event) → length h ≤ n → last_events n h ≡ oldest_first h
unfolding last_events oldest_first
last_events-whole zero [] l = refl
last_events-whole zero (e ∷ h) l = ground (arith, l)
last_events-whole (suc n) [] l = refl
last_events-whole (suc n) (e ∷ h) l =
    ap (λ x. x ++ e ∷ []) (last_events-whole n h (ground (arith, l)))

module _ (c : Center) (start : ℕ) where
  ordered_from-last :
      (i n : ℕ)
      → ordered_from c start i (suc n)
        ≡ ordered_from c start i n ++ c.buf ((start + (i + n)) % c.size) ∷ []
  unfolding ordered_from
  ordered_from-last i zero = ap (λ k. c.buf ((start + k) % c.size) ∷ []) (ground arith)
  ordered_from-last i (suc n) =
      ap (λ x. c.buf ((start + i) % c.size) ∷ x)
        (ordered_from-last (i + 1) n
          ∙ ap (λ k. ordered_from c start (i + 1) n ++ c.buf ((start + k) % c.size) ∷ [])
              (ground arith))

  ordered_from-last_events :
      (n : ℕ) (h : List Event)
      → n ≤ length h
      → ((j : ℕ) → j < n → c.buf ((start + (n - 1 - j)) % c.size) ≡ back h j)
      → ordered_from c start 0 n ≡ last_events n h
  unfolding last_events
  ordered_from-last_events zero h l at = unfold ordered_from in refl
  ordered_from-last_events (suc n) [] l at = ground (arith, l)
  ordered_from-last_events (suc n) (e ∷ h) l at =
      let newest : c.buf ((start + (0 + n)) % c.size) ≡ e =
        ap (λ k. c.buf ((start + k) % c.size)) (ground arith)
        ∙ at 0 (ground arith)
        ∙ (unfold back in refl) in
      let older = ordered_from-last_events n h (ground (arith, l)) (λ j k.
        ap (λ x. c.buf ((start + x) % c.size)) (ground (arith, k))
        ∙ at (suc j) (ground (arith, k))
        ∙ (unfold back in refl)) in
      ordered_from-last 0 n
      ∙ ap (λ x. ordered_from c start 0 n ++ x ∷ []) newest
      ∙ ap (λ x. x ++ e ∷ []) older

full_slot : (w n j : ℕ) → w < n → j < n → (w + (n - 1 - j)) % n ≡ slot_in w n j
full_slot w n j h k = wrap_once (w + (n - 1 - j)) n (ground (arith, h, k)) ∙ ground (arith, h, k)

partial_slot : (w n j : ℕ) → w < n → j < w → (0 + (w - 1 - j)) % n ≡ slot_in w n j
partial_slot w n j h k = wrap_once (0 + (w - 1 - j)) n (ground (arith, h, k)) ∙ ground (arith, h, k)

oldest_slot_lem :
    (c : Center) (h : List Event)
    → IsRing c h
    → (j : ℕ) → j < c.count
    → (oldest_slot c + (c.count - 1 - j)) % c.size ≡ slot c j
oldest_slot_lem c h r j l =
    let i = r.inside in
    let f = r.filled in
    elim (Bool-cases (c.count == c.size)) [
      | inl full ↦
          let same : c.count ≡ c.size = (ground (arith, full)) in
          rw full (rw same (full_slot c.write_ix c.size j i (ground (arith, l, same))))
      | inr part ↦
          let short : ltb (length h) c.size ≡ true = (ground (arith, f, part)) in
          let z = r.from_zero short in
          let same : c.count ≡ c.write_ix = (ground (arith, f, short, z)) in
          rw part (
            ap (λ k. (0 + (k - 1 - j)) % c.size) same
            ∙ partial_slot c.write_ix c.size j i (ground (arith, l, same)))
    ]

-- The snapshot of a ring is the latest events of its history.
pub IsRing-snapshot :
    (c : Center) (h : List Event) → IsRing c h → snapshot c ≡ last_events c.count h
unfolding snapshot
IsRing-snapshot c h r =
    ordered_from-last_events c (oldest_slot c) c.count h (let f = r.filled in ground (arith, f))
      (λ j l. ap c.buf (oldest_slot_lem c h r j l) ∙ r.held j l)
