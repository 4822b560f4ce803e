-- ===== src/Notify/Refines.antt =====
-- The center gives what a list of all events would, as long as the ring reaches back far enough.
use shoka.Prelude.{
  ℕ, suc, ◌+◌, ◌^◌, ◌<◌, ◌≡◌, ◌∙◌, refl, sym, ap, List, [], ◌∷◌, length, ltb, if◌then◌else◌,
  Bool-cases, inl, inr, arith,
}
use shoka.Text.{Text}
use shoka.Notify.{Event, Center, new_center, publish_from, subscribe_as, unsubscribe, snapshot}
use shoka.Notify.Ring.{IsRing, new_center-IsRing, recorded-IsRing}
use shoka.Notify.Window.{last_events, last_events-whole, IsRing-snapshot}

-- The centers that the operations reach, with the events sent so far, newest first.
pub data History (max_entries : ℕ) : Center → List Event → Type 0 where
  opened : History max_entries (new_center max_entries) []
  published :
      {c : Center} {h : List Event} (sender : Text) (now : ℕ) (ev : Event)
      → History max_entries c h
      → History max_entries (publish_from sender now ev c).0 ((publish_from sender now ev c).1 ∷ h)
  subscribed :
      {c : Center} {h : List Event} (id : Text)
      → History max_entries c h
      → History max_entries (subscribe_as id c).0 h
  unsubscribed :
      {c : Center} {h : List Event} (sid : ℕ)
      → History max_entries c h
      → History max_entries (unsubscribe sid c) h

-- The subscribers are no part of the ring.
same-IsRing :
    (c d : Center) (h : List Event)
    → d.size ≡ c.size
    → d.write_ix ≡ c.write_ix
    → d.count ≡ c.count
    → d.buf ≡ c.buf
    → IsRing c h
    → IsRing d h
same-IsRing c d h s w n b r = record {
  inside = rw (s, w) r.inside;
  filled = rw (s, n) r.filled;
  from_zero = rw (s, w) r.from_zero;
  held = rw (s, w, n, b) r.held;
}

History-IsRing : {m : ℕ} {c : Center} {h : List Event} → History m c h → IsRing c h
unfolding publish_from subscribe_as unsubscribe
History-IsRing {m = m} opened = new_center-IsRing m
History-IsRing (published {c = c} {h = h} sender now ev x) =
    recorded-IsRing now ev c h (History-IsRing x)
History-IsRing (subscribed {c = c} {h = h} id x) =
    same-IsRing c _ h refl refl refl refl (History-IsRing x)
History-IsRing (unsubscribed {c = c} {h = h} sid x) =
    same-IsRing c _ h refl refl refl refl (History-IsRing x)

abbrev pub ring_size : ℕ → ℕ
ring_size max_entries = (new_center max_entries).size

History_size : {m : ℕ} {c : Center} {h : List Event} → History m c h → c.size ≡ ring_size m
unfolding publish_from subscribe_as unsubscribe
History_size opened = refl
History_size (published sender now ev x) = History_size x
History_size (subscribed id x) = History_size x
History_size (unsubscribed sid x) = History_size x

last_events_short :
    (n k : ℕ) (h : List Event)
    → k ≡ (if ltb (length h) n then length h else n)
    → last_events k h ≡ last_events n h
last_events_short n k h e = elim (Bool-cases (ltb (length h) n)) [
  | inl short ↦
      let k_is : k ≡ length h = e ∙ (rw short refl) in
      last_events-whole k h (ground (arith, k_is))
      ∙ sym (last_events-whole n h (ground (arith, short)))
  | inr long ↦ ap (λ x. last_events x h) (e ∙ (rw long refl))
]

-- Whatever was published, subscribed and unsubscribed, a snapshot is the latest events of all that
-- were published, oldest first, as many as the ring holds.
pub snapshot-last_events :
    {max_entries : ℕ} {c : Center} {h : List Event}
    → History max_entries c h
    → snapshot c ≡ last_events (ring_size max_entries) h
snapshot-last_events {c = c} {h = h} x =
    let r = History-IsRing x in
    IsRing-snapshot c h r
    ∙ last_events_short c.size c.count h r.filled
    ∙ ap (λ n. last_events n h) (History_size x)

-- Each event has its place in the history as its number.
abbrev pub AreNumbered : List Event → Type 0
AreNumbered [] = Unit
AreNumbered (e ∷ h) = (e.seq ≡ suc (length h)) × AreNumbered h

pub History-AreNumbered :
    {m : ℕ} {c : Center} {h : List Event}
    → History m c h
    → length h + 1 < 2 ^ 64
    → AreNumbered h × (c.next ≡ suc (length h))
unfolding publish_from subscribe_as unsubscribe new_center
History-AreNumbered opened l = (tt, refl)
History-AreNumbered (published {c = c} sender now ev x) l =
    let (numbered, n) = History-AreNumbered x (ground (arith, l)) in
    ((n, numbered), ground (arith, n, l))
History-AreNumbered (subscribed id x) l = History-AreNumbered x l
History-AreNumbered (unsubscribed sid x) l = History-AreNumbered x l

pub ring_size_pos : (m : ℕ) → 0 < ring_size m
unfolding new_center
ring_size_pos m = (new_center-IsRing m).inside
