-- ===== src/Text.antt =====
-- Go strings as lists of code points (Unicode text) and the functions of package strings that the
-- repository calls on them.
pub mod Laws
pub mod Keys
pub mod Buckets
pub mod Affixes
use Prim.Native.Char.{code}
use Prim.Native.String.{String}
use mathlib.Core.Option
use mathlib.Core.Option.{get_or}
use shoka.Prelude.{
  ℕ, zero, suc, ◌+◌, Bool, true, false, ◌&&◌, ◌||◌, Option, none, some, List, [], ◌∷◌, ◌++◌, leb,
  ◌==◌, if◌then◌else◌,
}

abbrev pub Text : Type 0
Text = List ℕ

-- The code points of a literal.
abbrev pub codes : String → Text
codes String.[] = []
codes (String.◌∷◌ c s) = code c ∷ codes s

-- a == b
unfoldable pub text_eq : Text → Text → Bool
text_eq [] [] = true
text_eq [] (y ∷ ys) = false
text_eq (x ∷ xs) [] = false
text_eq (x ∷ xs) (y ∷ ys) = x == y && text_eq xs ys

-- unicode.IsSpace
unfoldable pub is_space : ℕ → Bool
is_space c =
    (leb 9 c && leb c 13)
    || c == 32
    || c == 0x85
    || c == 0xa0
    || c == 0x1680
    || (leb 0x2000 c && leb c 0x200a)
    || c == 0x2028
    || c == 0x2029
    || c == 0x202f
    || c == 0x205f
    || c == 0x3000

unfoldable pub trim_left : Text → Text
trim_left [] = []
trim_left (c ∷ s) = let rest = trim_left s in if is_space c then rest else c ∷ s

-- Puts a code point before a trimmed rest, unless that leaves nothing but space.
abbrev pub push_unless_space : ℕ → Text → Text
push_unless_space c [] = if is_space c then [] else c ∷ []
push_unless_space c (d ∷ s) = c ∷ d ∷ s

unfoldable pub trim_right : Text → Text
trim_right [] = []
trim_right (c ∷ s) = push_unless_space c (trim_right s)

-- strings.TrimSpace
unfoldable pub trim_space : Text → Text
trim_space s = trim_right (trim_left s)

-- Adds a code point to the first piece.
abbrev pub push_first : ℕ → List Text → List Text
push_first c [] = (c ∷ []) ∷ []
push_first c (p ∷ ps) = (c ∷ p) ∷ ps

-- strings.Split(s, sep) for a separator of one code point
unfoldable pub split : ℕ → Text → List Text
split sep [] = [] ∷ []
split sep (c ∷ s) = let rest = split sep s in if c == sep then [] ∷ rest else push_first c rest

-- strings.Join(ps, sep)
unfoldable pub join : ℕ → List Text → Text
join sep [] = []
join sep (p ∷ []) = p
join sep (p ∷ q ∷ ps) = p ++ sep ∷ join sep (q ∷ ps)

-- strings.Index(s, c): `none` is -1
unfoldable pub index : ℕ → Text → Option ℕ
index sep [] = none
index sep (c ∷ s) = let rest = index sep s in if c == sep then some 0 else Option.map suc rest

-- strings.Cut(s, c): what stands before and after the first separator
unfoldable pub cut : ℕ → Text → Text × Text
cut sep [] = ([], [])
cut sep (c ∷ s) = let rest = cut sep s in if c == sep then ([], s) else (c ∷ rest.0, rest.1)

-- What follows a prefix, if `s` starts with it.
unfoldable pub strip_prefix : Text → Text → Option Text
strip_prefix [] s = some s
strip_prefix (p ∷ ps) [] = none
strip_prefix (p ∷ ps) (c ∷ s) = if p == c then strip_prefix ps s else none

-- What stands before a suffix, if `s` ends with it.
unfoldable pub strip_suffix : Text → Text → Option Text
strip_suffix t [] = if text_eq t [] then some [] else none
strip_suffix t (c ∷ s) =
    let rest = strip_suffix t s in
    if text_eq t (c ∷ s) then some [] else Option.map (λ r. c ∷ r) rest

abbrev pub is_some {ℓ} : {A : Type ℓ} → Option A → Bool
is_some none = false
is_some (some a) = true

-- strings.HasPrefix(s, p) and strings.TrimPrefix(s, p)
unfoldable pub has_prefix : Text → Text → Bool
has_prefix s p = is_some (strip_prefix p s)

unfoldable pub trim_prefix : Text → Text → Text
trim_prefix s p = get_or (strip_prefix p s) s

-- strings.HasSuffix(s, t) and strings.TrimSuffix(s, t)
unfoldable pub has_suffix : Text → Text → Bool
has_suffix s t = is_some (strip_suffix t s)

unfoldable pub trim_suffix : Text → Text → Text
trim_suffix s t = get_or (strip_suffix t s) s
