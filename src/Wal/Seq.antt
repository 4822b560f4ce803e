-- ===== src/Wal/Seq.antt =====
-- The sequence numbers of the log as hexadecimal text and as file names.
use native.Mathlib.Nat.{pow-suc}
use shoka.Prelude.{
  false, ℕ, zero, suc, ◌+◌, ◌-◌, ◌*◌, ◌/◌, ◌%◌, ◌^◌, ◌<◌, ◌≡◌, ◌∙◌, ap, refl, not, ◌&&◌, Option,
  none, some, [], ◌∷◌, ◌++◌, arith, ltb, leb, ◌==◌, if◌then◌else◌, length, length-append, All,
  All-append,
}
use shoka.Text.{Text, codes, has_suffix, trim_suffix}
use shoka.Text.{is_space, trim_space}
use shoka.Text.Laws.{solid-IsTrimmed, trim_space_of_IsTrimmed}
use shoka.Text.Affixes.{strip_suffix-append}

-- The values of a uint64 are the numbers below this.
abbrev pub u64_mod : ℕ
u64_mod = 2 ^ 64

unfoldable pub hex_digit : ℕ → ℕ
hex_digit d = if ltb d 10 then b'0' + d else b'a' + (d - 10)

-- The last `k` hexadecimal digits.
unfoldable pub hex_digits : ℕ → ℕ → Text
unfolding hex_digit
hex_digits zero n = []
hex_digits (suc k) n = hex_digits k (n / 16) ++ hex_digit (n % 16) ∷ []

-- fmt.Sprintf("%016x", seq): a uint64 has at most 16 digits
unfoldable pub seq_hex : ℕ → Text
unfolding hex_digits
seq_hex seq = hex_digits 16 seq

unfoldable pub seq_name : ℕ → Text
unfolding seq_hex
seq_name seq = seq_hex seq ++ codes ".json"

unfoldable pub hex_value : ℕ → Option ℕ
hex_value c =
    if leb b'0' c && leb c b'9'
    then some (c - b'0')
    else if leb b'a' c && leb c b'f'
    then some (c - b'a' + 10)
    else if leb b'A' c && leb c b'F'
    then some (c - b'A' + 10)
    else none

-- One digit of strconv.ParseUint: a syntax error, a value out of range, or the longer value.
unfoldable pub push_digit : Option ℕ → Option ℕ → Option ℕ
push_digit none d = none
push_digit (some n) none = none
push_digit (some n) (some d) = if ltb (n * 16 + d) u64_mod then some (n * 16 + d) else none

unfoldable pub parse_digits : Option ℕ → Text → Option ℕ
unfolding push_digit hex_value
parse_digits acc [] = acc
parse_digits acc (c ∷ s) = parse_digits (push_digit acc (hex_value c)) s

-- strconv.ParseUint(s, 16, 64)
unfoldable pub parse_uint : Text → Option ℕ
unfolding parse_digits
parse_uint [] = none
parse_uint (c ∷ s) = parse_digits (some 0) (c ∷ s)

unfoldable pub parse_seq_name : Text → Option ℕ
unfolding parse_uint
parse_seq_name name =
    if not (has_suffix name (codes ".json"))
    then none
    else (let base = trim_suffix name (codes ".json") in
        if not (length base == 16) then none else parse_uint base)

hex_value-hex_digit : (d : ℕ) → d < 16 → hex_value (hex_digit d) ≡ some d
unfolding hex_value hex_digit
hex_value-hex_digit d h = ground arith

parse_digits-append :
    (acc : Option ℕ) (s t : Text) → parse_digits acc (s ++ t) ≡ parse_digits (parse_digits acc s) t
unfolding parse_digits
parse_digits-append acc [] t = refl
parse_digits-append acc (c ∷ s) t = parse_digits-append (push_digit acc (hex_value c)) s t

quotient_fits : (k n : ℕ) → n < 16 ^ suc k → n / 16 < 16 ^ k
quotient_fits k n h = omega (arith, pow-suc 16 k)

push_last : (n : ℕ) → n < u64_mod → push_digit (some (n / 16)) (some (n % 16)) ≡ some n
unfolding push_digit
push_last n b = ground arith

parse_digits-hex_digits :
    (k n : ℕ) → n < 16 ^ k → n < u64_mod → parse_digits (some 0) (hex_digits k n) ≡ some n
unfolding parse_digits hex_digits push_digit
parse_digits-hex_digits zero n h b = ap some (omega arith)
parse_digits-hex_digits (suc k) n h b =
    parse_digits-append (some 0) (hex_digits k (n / 16)) (hex_digit (n % 16) ∷ [])
    ∙ rw (parse_digits-hex_digits k (n / 16) (quotient_fits k n h) (omega arith))
        (rw (hex_value-hex_digit (n % 16) (omega arith)) (push_last n b))

pub length-hex_digits : (k n : ℕ) → length (hex_digits k n) ≡ k
unfolding hex_digits
length-hex_digits zero n = refl
length-hex_digits (suc k) n = omega (
  arith,
  length-append (hex_digits k (n / 16)) (hex_digit (n % 16) ∷ []),
  length-hex_digits k (n / 16),
)

parse_uint_lem : (s : Text) (k : ℕ) → length s ≡ suc k → parse_uint s ≡ parse_digits (some 0) s
unfolding parse_uint
parse_uint_lem [] k h = absurd (omega arith)
parse_uint_lem (c ∷ s) k h = refl

length-seq_hex : (seq : ℕ) → length (seq_hex seq) ≡ 16
unfolding seq_hex
length-seq_hex seq = length-hex_digits 16 seq

pub parse_uint-seq_hex : (seq : ℕ) → seq < u64_mod → parse_uint (seq_hex seq) ≡ some seq
unfolding seq_hex
parse_uint-seq_hex seq h =
    parse_uint_lem (hex_digits 16 seq) 15 (length-hex_digits 16 seq)
    ∙ parse_digits-hex_digits 16 seq h h

-- The name of an entry's file gives its sequence number back, for every uint64.
pub parse_seq_name-seq_name : (seq : ℕ) → seq < u64_mod → parse_seq_name (seq_name seq) ≡ some seq
unfolding parse_seq_name seq_name has_suffix trim_suffix
parse_seq_name-seq_name seq h =
    rw (strip_suffix-append (codes ".json") (seq_hex seq))
      (rw (length-seq_hex seq) (parse_uint-seq_hex seq h))

hex_digit-solid : (d : ℕ) → d < 16 → is_space (hex_digit d) ≡ false
unfolding is_space hex_digit
hex_digit-solid d h = ground arith

hex_digits-solid : (k n : ℕ) → All (λ c. is_space c ≡ false) (hex_digits k n)
unfolding hex_digits
hex_digits-solid zero n = tt
hex_digits-solid (suc k) n =
    All-append (λ c. is_space c ≡ false) (hex_digits k (n / 16)) (hex_digit (n % 16) ∷ [])
      (hex_digits-solid k (n / 16)) (hex_digit-solid (n % 16) (omega arith), tt)

pub trim_space-seq_hex : (seq : ℕ) → trim_space (seq_hex seq) ≡ seq_hex seq
unfolding seq_hex
trim_space-seq_hex seq =
    trim_space_of_IsTrimmed (hex_digits 16 seq)
      (solid-IsTrimmed (hex_digits 16 seq) (hex_digits-solid 16 seq))
