-- ===== src/Names.antt =====
-- internal/utils: the names that namespaces and projects may have.
use shoka.Prelude.{
  All, ℕ, ◌≡◌, ◌≢◌, Bool, true, false, ◌&&◌, ◌||◌, [], ◌∷◌, arith, ltb, leb, ◌==◌, if◌then◌else◌,
  length, ap,
}
use shoka.Text.{is_space, Text, codes, text_eq, has_suffix}
use shoka.Text.Laws.{IsFree}

unfoldable pub is_name_char : ℕ → Bool
is_name_char r =
    (leb b'a' r && leb r b'z')
    || (leb b'A' r && leb r b'Z')
    || (leb b'0' r && leb r b'9')
    || r == b'-'
    || r == b'_'
    || r == b'.'

unfoldable pub all_name_chars : Text → Bool
unfolding is_name_char
all_name_chars [] = true
all_name_chars (r ∷ name) = let rest = all_name_chars name in if is_name_char r then rest else false

-- name[0] == '.'
abbrev pub starts_with_dot : Text → Bool
starts_with_dot [] = false
starts_with_dot (c ∷ s) = c == b'.'

-- A name of allowed characters is ASCII, so `len`, which counts bytes, counts code points there;
-- any other name is refused by the last test whatever its length.
unfoldable pub is_valid_name : Text → Bool
unfolding all_name_chars
is_valid_name name =
    if text_eq name [] || ltb 100 (length name)
    then false
    else if text_eq name (codes ".") || text_eq name (codes "..")
    then false
    else if starts_with_dot name
    then false
    else if has_suffix name (codes ".git")
    then false
    else all_name_chars name

all_name_chars-IsFree :
    (sep : ℕ) (name : Text)
    → is_name_char sep ≡ false
    → all_name_chars name ≡ true
    → IsFree sep name
unfolding all_name_chars
all_name_chars-IsFree sep [] n h = tt
all_name_chars-IsFree sep (c ∷ name) n h =
    (λ e. ground (arith, n, h, ap is_name_char e), all_name_chars-IsFree sep name n (ground arith))

-- A valid name holds no separator of the scope grammar, and it is not empty.
pub valid_name-IsFree :
    (sep : ℕ) (name : Text) → is_name_char sep ≡ false → is_valid_name name ≡ true → IsFree sep name
unfolding is_valid_name
valid_name-IsFree sep name n h = all_name_chars-IsFree sep name n (ground arith)

pub valid_name-filled : (name : Text) → is_valid_name name ≡ true → name ≢ []
unfolding is_valid_name text_eq
valid_name-filled [] h e = cc
valid_name-filled (c ∷ s) h e = cc

name_char-solid : (c : ℕ) → is_name_char c ≡ true → is_space c ≡ false
unfolding is_name_char is_space
name_char-solid c h = ground arith

all_name_chars-solid :
    (name : Text) → all_name_chars name ≡ true → All (λ c. is_space c ≡ false) name
unfolding all_name_chars
all_name_chars-solid [] h = tt
all_name_chars-solid (c ∷ name) h =
    (name_char-solid c (ground arith), all_name_chars-solid name (ground arith))

-- A valid name holds no space.
pub valid_name-solid :
    (name : Text) → is_valid_name name ≡ true → All (λ c. is_space c ≡ false) name
unfolding is_valid_name
valid_name-solid name h = all_name_chars-solid name (ground arith)
