-- ===== src/PartialEdit.antt =====
-- internal/storage/partialedit.go: the byte computations of patch_file and append_to_file.
pub mod Splice
use mathlib.Core.Option
use shoka.Prelude.{
  ℕ, zero, suc, ◌+◌, ◌-◌, Bool, true, false, not, ◌||◌, Option, none, some, List, [], ◌∷◌, ◌++◌,
  ◌==◌, if◌then◌else◌, length, take, drop,
}
use shoka.Text.{Text, codes, text_eq, strip_prefix, is_some}

-- The bytes of a file.
abbrev pub Bytes : Type 0
Bytes = List ℕ

-- Which argument a MatchError names.
pub data What : Type 0 where
  old_string anchor : What

pub data EditError : Type 0 where
  match_error : What → ℕ → EditError
  empty_old_string anchor_required anchor_with_end invalid_position : EditError

pub data EditResult : Type 0 where
  ok : Bytes → EditResult
  err : EditError → EditResult

-- bytes.Count(cur, old) for a needle that is not empty: each match is skipped before the search
-- goes on. The first argument is the number of bytes of the last match still to be skipped.
unfoldable pub count_from : ℕ → Bytes → Bytes → ℕ
count_from k old [] = 0
count_from (suc k) old (c ∷ cur) = count_from k old cur
count_from zero old (c ∷ cur) =
    let found = count_from (length old - 1) old cur in
    let rest = count_from 0 old cur in
    if is_some (strip_prefix old (c ∷ cur)) then suc found else rest

unfoldable pub count : Bytes → Bytes → ℕ
unfolding count_from
count cur old = count_from 0 old cur

-- bytes.Index(cur, old): `none` is -1
unfoldable pub index_of : Bytes → Bytes → Option ℕ
index_of [] old = if text_eq old [] then some 0 else none
index_of (c ∷ cur) old =
    let rest = index_of cur old in
    if is_some (strip_prefix old (c ∷ cur)) then some 0 else Option.map suc rest

-- The output where the index is found; with exactly one match it always is.
abbrev pub replaced : Bytes → Bytes → Bytes → Option ℕ → EditResult
replaced cur old new none = err (match_error old_string 0)
replaced cur old new (some idx) = ok (take idx cur ++ (new ++ drop (idx + length old) cur))

unfoldable pub splice_patch : Bytes → Bytes → Bytes → EditResult
unfolding count index_of
splice_patch cur old new =
    if text_eq old []
    then err empty_old_string
    else if not (count cur old == 1)
    then err (match_error old_string (count cur old))
    else replaced cur old new (index_of cur old)

abbrev pub inserted : Bytes → Bytes → Bool → ℕ → Option ℕ → EditResult
inserted cur content after len none = err (match_error anchor 0)
inserted cur content after len (some idx) =
    let at = if after then idx + len else idx in ok (take at cur ++ (content ++ drop at cur))

unfoldable pub splice_append : Bytes → Bytes → Text → Bytes → EditResult
unfolding count index_of
splice_append cur content position a =
    if text_eq position [] || text_eq position (codes "end")
    then (if not (text_eq a []) then err anchor_with_end else ok (cur ++ content))
    else if text_eq position (codes "before") || text_eq position (codes "after")
    then (if text_eq a []
        then err anchor_required
        else if not (count cur a == 1)
        then err (match_error anchor (count cur a))
        else inserted cur content (text_eq position (codes "after")) (length a) (index_of cur a))
    else err invalid_position
