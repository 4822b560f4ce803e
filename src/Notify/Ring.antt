-- ===== src/Notify/Ring.antt =====
-- The ring buffer against the history of the published events, newest first.
use native.Mathlib.Nat.{mod-eq_of_lt, mod-eq-sub-mod}
use shoka.Prelude.{
  ℕ, zero, suc, ◌+◌, ◌-◌, ◌%◌, ◌<◌, ◌≤◌, ◌≡◌, ◌∙◌, refl, ◌==◌, true, false, List, [], ◌∷◌, length,
  ltb, leb, if◌then◌else◌, Bool-cases, inl, inr, arith,
}
use shoka.Notify.{
  default_max_entries, Event, zero_event, Center, new_center, set_slot, stamped, recorded,
}

-- The j-th newest event.
unfoldable pub back : List Event → ℕ → Event
back [] j = zero_event
back (e ∷ h) zero = e
back (e ∷ h) (suc j) = back h j

pub wrap_once : (a n : ℕ) → a < n + n → a % n ≡ (if ltb a n then a else a - n)
wrap_once a n h = elim (Bool-cases (ltb a n)) [
  | inl e ↦ rw e (mod-eq_of_lt (ground (arith, e)))
  | inr e ↦ rw e (mod-eq-sub-mod (ground (arith, e)) ∙ mod-eq_of_lt (ground (arith, e, h)))
]

-- Where the j-th newest event stands, in a ring of n slots with write index w.
abbrev pub slot_in : ℕ → ℕ → ℕ → ℕ
slot_in w n j = if ltb j w then w - 1 - j else w + n - 1 - j

abbrev pub slot : Center → ℕ → ℕ
slot c j = slot_in c.write_ix c.size j

abbrev next_index : ℕ → ℕ → ℕ
next_index w n = if ltb (w + 1) n then w + 1 else 0

slot_newest : (w n : ℕ) → w < n → slot_in (next_index w n) n 0 ≡ w
slot_newest w n h = ground (arith, h)

slot_older : (w n j : ℕ) → w < n → j + 1 < n → slot_in (next_index w n) n (suc j) ≡ slot_in w n j
slot_older w n j h k = ground (arith, h, k)

slot_apart : (w n j : ℕ) → w < n → j + 1 < n → (w == slot_in w n j) ≡ false
slot_apart w n j h k = ground (arith, h, k)

-- The ring holds the newest events of the history, up to its size.
pub record IsRing (c : Center) (h : List Event) : Type 0 where
  pub inside : c.write_ix < c.size
  pub filled : c.count ≡ (if ltb (length h) c.size then length h else c.size)
  pub from_zero : ltb (length h) c.size ≡ true → c.write_ix ≡ length h
  pub held : (j : ℕ) → j < c.count → c.buf (slot c j) ≡ back h j

-- The step of the write index.
write_next : (w n : ℕ) → w < n → (w + 1) % n ≡ (if ltb (w + 1) n then w + 1 else 0)
write_next w n h = wrap_once (w + 1) n (ground (arith, h)) ∙ ground (arith, h)

==_refl : (n : ℕ) → (n == n) ≡ true
==_refl n = ground arith

size_of_new : (m : ℕ) → 0 < (if leb m 0 then default_max_entries else m)
size_of_new m = ground arith

pub new_center-IsRing : (max_entries : ℕ) → IsRing (new_center max_entries) []
unfolding new_center
new_center-IsRing m = record {
  inside = size_of_new m;
  filled = (let h = size_of_new m in ground (arith, h));
  from_zero = λ e. refl;
  held = λ j l. ground (arith, l);
}

-- Where the newest event was, and the others as before.
held_after :
    (now : ℕ) (ev : Event) (c : Center) (h : List Event)
    → IsRing c h
    → (j : ℕ) → j < (if ltb c.count c.size then c.count + 1 else c.count)
    → set_slot c.write_ix (stamped now ev c) c.buf (slot_in (next_index c.write_ix c.size) c.size j)
      ≡ back (stamped now ev c ∷ h) j
unfolding back set_slot
held_after now ev c h r zero l =
    rw (slot_newest c.write_ix c.size r.inside) (rw (==_refl c.write_ix) refl)
held_after now ev c h r (suc j) l =
    let few : c.count ≤ c.size = (let f = r.filled in ground (arith, f)) in
    let near : j + 1 < c.size = (let i = r.inside in ground (arith, l, few, i)) in
    rw (slot_older c.write_ix c.size j r.inside near)
      (rw (slot_apart c.write_ix c.size j r.inside near) (r.held j (ground (arith, l, few))))

pub recorded-IsRing :
    (now : ℕ) (ev : Event) (c : Center) (h : List Event)
    → IsRing c h
    → IsRing (recorded now ev c) (stamped now ev c ∷ h)
recorded-IsRing now ev c h r =
    let w = write_next c.write_ix c.size r.inside in
    let i = r.inside in
    let f = r.filled in
    record {
      inside = rw w (ground (arith, i));
      filled = ground (arith, f);
      from_zero = λ e. rw w (let z = r.from_zero (ground (arith, e)) in ground (arith, z, e));
      held = λ j l. rw w (held_after now ev c h r j l);
    }
