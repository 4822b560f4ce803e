-- ===== src/Tests/Edits.antt =====
-- internal/storage/partialedit.go at concrete files.
use shoka.Prelude.{◌≡◌, ◌≢◌, ◌↔◌, refl, [], ◌++◌}
use shoka.Text.{codes, text_eq, strip_prefix}
use shoka.PartialEdit.{Bytes, ok, count, splice_patch, splice_append}
use shoka.PartialEdit.Splice.{
  FirstAt, splice_patch_iff, splice_patch_overlap, Placed, splice_append_iff,
}

abbrev file : Bytes
file = codes "a: 1, b: 2"

patch_test : splice_patch file (codes "b: 2") (codes "b: 3") ≡ ok (codes "a: 1, b: 3")
unfolding splice_patch text_eq strip_prefix
patch_test = refl

splice_patch_iff_example :
    (splice_patch file (codes "b: 2") (codes "b: 3") ≡ ok (codes "a: 1, b: 3")) ↔ (
      (codes "b: 2" ≢ [])
      × (count file (codes "b: 2") ≡ 1)
      × ((pre : Bytes) × (post : Bytes) × FirstAt file (codes "b: 2") pre post
          × (codes "a: 1, b: 3" ≡ pre ++ (codes "b: 3" ++ post))))
splice_patch_iff_example = splice_patch_iff file (codes "b: 2") (codes "b: 3") (codes "a: 1, b: 3")

splice_patch_overlap_example :
    (splice_patch (codes "aaa") (codes "aa") (codes "b") ≡ ok (codes "ba"))
    × (codes "aaa" ≡ [] ++ codes "aa" ++ codes "a")
    × (codes "aaa" ≡ codes "a" ++ codes "aa" ++ [])
splice_patch_overlap_example = splice_patch_overlap 97 (codes "b")

append_test :
    splice_append file (codes "0, ") (codes "before") (codes "b") ≡ ok (codes "a: 1, 0, b: 2")
unfolding splice_append text_eq strip_prefix
append_test = refl

splice_append_iff_example :
    (splice_append file (codes "0, ") (codes "before") (codes "b") ≡ ok (codes "a: 1, 0, b: 2"))
    ↔ Placed file (codes "0, ") (codes "before") (codes "b") (codes "a: 1, 0, b: 2")
splice_append_iff_example =
    splice_append_iff file (codes "0, ") (codes "b") (codes "a: 1, 0, b: 2") (codes "before")
