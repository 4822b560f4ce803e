-- ===== src/Wal/Log/Listing.antt =====
-- internal/storage/wal, ListPending: the heads of the pending entries in the order of their numbers.
use shoka.Prelude.{ℕ, ◌+◌, ◌%◌, ◌^◌, Bool, List, [], ◌∷◌, leb, if◌then◌else◌}
use shoka.Wal.Seq.{u64_mod}
use shoka.Wal.Wire.{EntryHead}
use shoka.Wal.Log.{Log}

-- x <= y of two 64-bit patterns read as int64, as which a head has its number.
unfoldable pub signed_leb : ℕ → ℕ → Bool
signed_leb x y = leb ((x + 2 ^ 63) % u64_mod) ((y + 2 ^ 63) % u64_mod)

-- sort.Slice by number: two pending entries have different numbers, so any sorting gives this list.
unfoldable pub insert_head : EntryHead → List EntryHead → List EntryHead
unfolding signed_leb
insert_head h [] = h ∷ []
insert_head h (g ∷ heads) =
    let rest = insert_head h heads in if signed_leb h.seq g.seq then h ∷ g ∷ heads else g ∷ rest

unfoldable pub sort_heads : List (ℕ × EntryHead) → List EntryHead
unfolding insert_head
sort_heads [] = []
sort_heads ((seq, h) ∷ pending) = insert_head h (sort_heads pending)

unfoldable pub list_pending : Log → List EntryHead
unfolding sort_heads
list_pending l = sort_heads l.pending
