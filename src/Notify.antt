-- ===== src/Notify.antt =====
-- internal/notify/center.go: the notification center: a ring of the latest events and its subscribers.
pub mod Ring
pub mod Window
pub mod Refines
pub mod Missed
use shoka.Prelude.{
  ℕ, zero, suc, ◌+◌, ◌%◌, ◌^◌, ◌==◌, Bool, true, false, not, ◌&&◌, List, [], ◌∷◌, ◌++◌, keep, ltb,
  leb, if◌then◌else◌,
}
use shoka.Prelude.Assoc.{put, remove, nat_key}
use shoka.Text.{Text, codes, text_eq}

pub record Event : Type 0 where
  pub seq : ℕ
  pub timestamp : ℕ
  pub kind : Text
  pub target : Text
  pub path : Text
  pub source_path : Text

-- The zero value of Event.
abbrev pub zero_event : Event
zero_event = record { seq = 0; timestamp = 0; kind = []; target = []; path = []; source_path = [] }

-- The buffer is a function on the slots below `size`; a subscriber is its identity, and its callback
-- is known by the subscription's number.
pub record Center : Type 0 where
  pub size : ℕ
  pub buf : ℕ → Event
  pub next : ℕ
  pub write_ix : ℕ
  pub count : ℕ
  pub subs : List (ℕ × Text)
  pub next_sub_id : ℕ

abbrev pub default_max_entries : ℕ
default_max_entries = 1000

unfoldable pub new_center : ℕ → Center
new_center max_entries = record {
  size = if leb max_entries 0 then default_max_entries else max_entries;
  buf = λ i. zero_event;
  next = 1;
  write_ix = 0;
  count = 0;
  subs = [];
  next_sub_id = 0;
}

unfoldable pub set_slot : ℕ → Event → (ℕ → Event) → ℕ → Event
set_slot i ev buf j = if i == j then ev else buf j

-- The event as it is stored and sent.
abbrev pub stamped : ℕ → Event → Center → Event
stamped now ev c = record ev { seq = c.next; timestamp = now }

-- The subscriptions whose callbacks run.
unfoldable pub fan_out : Text → List (ℕ × Text) → List ℕ
fan_out sender [] = []
fan_out sender ((sid, id) ∷ subs) =
    let rest = fan_out sender subs in
    if not (text_eq sender []) && text_eq id sender then rest else sid ∷ rest

abbrev pub recorded : ℕ → Event → Center → Center
recorded now ev c = record c {
  buf = set_slot c.write_ix (stamped now ev c) c.buf;
  next = (c.next + 1) % 2 ^ 64;
  write_ix = (c.write_ix + 1) % c.size;
  count = if ltb c.count c.size then c.count + 1 else c.count;
}

-- The center after, the event that is sent, and the subscriptions it is sent to.
unfoldable pub publish_from : Text → ℕ → Event → Center → Center × Event × List ℕ
unfolding set_slot fan_out
publish_from sender now ev c = (recorded now ev c, stamped now ev c, fan_out sender c.subs)

unfoldable pub notify_from : Text → Text → Text → Text → ℕ → Center → Center × Event × List ℕ
unfolding publish_from
notify_from sender kind target path now c =
    publish_from sender now (record zero_event { kind = kind; target = target; path = path }) c

unfoldable pub notify_move_from : Text → Text → Text → Text → ℕ → Center → Center × Event × List ℕ
unfolding publish_from
notify_move_from sender target source_path path now c =
    publish_from sender now
      (record zero_event {
        kind = codes "file.move";
        target = target;
        path = path;
        source_path = source_path;
      })
      c

unfoldable pub subscribe_as : Text → Center → Center × ℕ
subscribe_as id c =
    let sid = (c.next_sub_id + 1) % 2 ^ 64 in
    (record c { subs = put sid id c.subs; next_sub_id = sid }, sid)

unfoldable pub unsubscribe : ℕ → Center → Center
unsubscribe sid c = record c { subs = remove sid c.subs }

-- The loop of orderedLocked from index i, for n more events.
unfoldable pub ordered_from : Center → ℕ → ℕ → ℕ → List Event
ordered_from c start i zero = []
ordered_from c start i (suc n) = c.buf ((start + i) % c.size) ∷ ordered_from c start (i + 1) n

abbrev pub oldest_slot : Center → ℕ
oldest_slot c = if c.count == c.size then c.write_ix else 0

-- orderedLocked and Snapshot
unfoldable pub snapshot : Center → List Event
unfolding ordered_from
snapshot c = ordered_from c (oldest_slot c) 0 c.count

-- The events past a sequence number.
unfoldable pub newer : ℕ → List Event → List Event
newer since_seq events = keep (λ e. ltb since_seq e.seq) events

abbrev pub since_in : ℕ → List Event → List Event × Bool
since_in since_seq [] = ([], false)
since_in since_seq (oldest ∷ events) =
    (newer since_seq (oldest ∷ events), ltb ((since_seq + 1) % 2 ^ 64) oldest.seq)

unfoldable pub since : ℕ → Center → List Event × Bool
unfolding snapshot newer
since since_seq c = since_in since_seq (snapshot c)
