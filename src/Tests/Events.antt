-- ===== src/Tests/Events.antt =====
-- internal/notify on a concrete center.
use shoka.Prelude.{◌+◌, ◌≡◌, true, false, List, [], ◌∷◌, leb, if◌then◌else◌, arith}
use shoka.Text.{codes}
use shoka.Notify.{Event, zero_event, Center, new_center, publish_from, snapshot, newer, since}
use shoka.Notify.Window.{last_events, oldest_first}
use shoka.Notify.Refines.{History, opened, published, ring_size, snapshot-last_events}
use shoka.Notify.Missed.{since-newer}

abbrev write : Event
write = record zero_event { kind = codes "file.write"; target = codes "n/p"; path = codes "a.md" }

-- Two events in a ring of one.
abbrev one : Center
one = (publish_from [] 5 write (new_center 1)).0

abbrev two : Center
two = (publish_from [] 6 write one).0

abbrev events : List Event
events = (publish_from [] 6 write one).1 ∷ (publish_from [] 5 write (new_center 1)).1 ∷ []

abbrev history : History 1 two events
history = published [] 6 write (published [] 5 write opened)

snapshot-last_events_example : snapshot two ≡ last_events (ring_size 1) events
snapshot-last_events_example = snapshot-last_events history

since-newer_example : since 0 two ≡ (
    if leb 2 (0 + ring_size 1)
    then (newer 0 (oldest_first events), false)
    else (last_events (ring_size 1) events, true))
since-newer_example = since-newer 0 history (omega arith) (omega arith)
