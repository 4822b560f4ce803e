-- ===== src/Authz/Tokens.antt =====
-- The tokens of a scope, and of tokens joined by commas.
use shoka.Prelude.{
  ℕ, ◌≡◌, refl, ◌≢◌, ◌∙◌, ap, sym, true, false, List, [], ◌∷◌, map, arith, ◌==◌, All, Bool-cases,
  inl, inr,
}
use shoka.Text.{
  Text, codes, text_eq, is_space, trim_left, trim_right, trim_space, push_unless_space, push_first,
  split, join, index,
}
use shoka.Text.Laws.{
  text_eq_iff, IsTrimmed, trim_space-IsTrimmed, trim_space_of_IsTrimmed, trim_right_idem, IsFree,
  split-IsFree, split-join, trim_space-IsFree,
}
use shoka.Authz.{super_user, parse_grant, tokens_of, tokens, or_super_user, parse_scope}

trim_right-trim_left : (s : Text) → trim_right (trim_left s) ≡ trim_left (trim_right s)
unfolding trim_left trim_right
trim_right-trim_left [] = refl
trim_right-trim_left (c ∷ s) = elim (Bool-cases (is_space c)) [
  | inl e ↦ rw e (trim_right-trim_left s ∙ spaced (trim_right s) e)
  | inr e ↦ rw e (solid (trim_right s) e)
]
  where
    spaced : (r : Text) → is_space c ≡ true → trim_left r ≡ trim_left (push_unless_space c r)
    spaced [] e = rw e refl
    spaced (d ∷ r) e = rw e refl

    solid :
        (r : Text) → is_space c ≡ false → push_unless_space c r ≡ trim_left (push_unless_space c r)
    solid [] e = rw e (rw e refl)
    solid (d ∷ r) e = rw e refl

trim_space-trim_right : (s : Text) → trim_space (trim_right s) ≡ trim_space s
unfolding trim_space
trim_space-trim_right s =
    trim_right-trim_left (trim_right s)
    ∙ ap trim_left (trim_right_idem s)
    ∙ sym (trim_right-trim_left s)

-- Only the trimmed pieces count.
tokens_of-trim_right : (ps : List Text) → tokens_of (map trim_right ps) ≡ tokens_of ps
unfolding tokens_of
tokens_of-trim_right [] = refl
tokens_of-trim_right (p ∷ ps) = rw (trim_space-trim_right p) (rw (tokens_of-trim_right ps))

space_ne_comma : (c : ℕ) → is_space c ≡ true → (c == b',') ≡ false
unfolding is_space
space_ne_comma c h = ground arith

push_first-map :
    (c : ℕ) (ps qs : List Text)
    → map trim_right ps ≡ map trim_right qs
    → map trim_right (push_first c ps) ≡ map trim_right (push_first c qs)
unfolding trim_right
push_first-map c [] [] h = refl
push_first-map c [] (q ∷ qs) h = cc
push_first-map c (p ∷ ps) [] h = cc
push_first-map c (p ∷ ps) (q ∷ qs) h = cc

-- A space before a piece that is all space leaves no code point of it.
spaces_only :
    (c : ℕ) (ps : List Text)
    → is_space c ≡ true
    → map trim_right ps ≡ [] ∷ []
    → map trim_right (push_first c ps) ≡ [] ∷ []
unfolding trim_right
spaces_only c [] e h = cc
spaces_only c (p ∷ ps) e h = let first : trim_right p ≡ [] = cc in rw first (rw e (cc))

split-trim_right :
    (s : Text) → map trim_right (split b',' (trim_right s)) ≡ map trim_right (split b',' s)
unfolding split trim_right
split-trim_right [] = refl
split-trim_right (c ∷ s) = go (trim_right s) (split-trim_right s)
  where
    longer :
        (r : Text)
        → map trim_right (split b',' r) ≡ map trim_right (split b',' s)
        → map trim_right (split b',' (c ∷ r)) ≡ map trim_right (split b',' (c ∷ s))
    longer r h = elim (Bool-cases (c == b',')) [
      | inl e ↦ rw e (ap (λ l. [] ∷ l) h)
      | inr e ↦ rw e (push_first-map c _ _ h)
    ]

    go :
        (r : Text)
        → map trim_right (split b',' r) ≡ map trim_right (split b',' s)
        → map trim_right (split b',' (push_unless_space c r)) ≡ map trim_right (split b',' (c ∷ s))
    go (d ∷ r) h = longer (d ∷ r) h
    go [] h = elim (Bool-cases (is_space c)) [
      | inl e ↦ rw e (rw (space_ne_comma c e) (sym (spaces_only c (split b',' s) e (sym h))))
      | inr e ↦ rw e (longer [] h)
    ]

spaced_piece :
    (c : ℕ) (ps : List Text) → is_space c ≡ true → tokens_of (push_first c ps) ≡ tokens_of ps
unfolding tokens_of trim_space trim_left trim_right text_eq
spaced_piece c [] e = rw e refl
spaced_piece c (p ∷ ps) e = rw e refl

tokens-trim_left : (s : Text) → tokens (trim_left s) ≡ tokens s
unfolding tokens split trim_left
tokens-trim_left [] = refl
tokens-trim_left (c ∷ s) = elim (Bool-cases (is_space c)) [
  | inl e ↦
      rw e (rw (space_ne_comma c e) (tokens-trim_left s ∙ sym (spaced_piece c (split b',' s) e)))
  | inr e ↦ rw e refl
]

tokens-trim_space : (s : Text) → tokens (trim_space s) ≡ tokens s
unfolding tokens trim_space
tokens-trim_space s =
    sym (tokens_of-trim_right _)
    ∙ ap tokens_of (split-trim_right (trim_left s))
    ∙ tokens_of-trim_right _
    ∙ tokens-trim_left s

no_tokens : super_user ∷ [] ≡ or_super_user (map parse_grant (tokens []))
unfolding tokens trim_space trim_left trim_right split text_eq
no_tokens = refl

star_token : super_user ∷ [] ≡ or_super_user (map parse_grant (tokens (codes "*")))
unfolding tokens parse_grant trim_space trim_left trim_right is_space split text_eq index
star_token = refl

-- The early returns of ParseScope are what its loop gives.
pub parse_scope_lem : (s : Text) → parse_scope s ≡ or_super_user (map parse_grant (tokens s))
unfolding parse_scope
parse_scope_lem s = go (trim_space s) refl
  where
    go : (t : Text) → trim_space s ≡ t → parse_scope s ≡ or_super_user (map parse_grant (tokens s))
    go t e = rw (← tokens-trim_space s) (
        rw e (elim (Bool-cases (text_eq t [])) [
          | inl empty ↦ rw empty (rw ((text_eq_iff t []).0 empty) no_tokens)
          | inr some_text ↦ rw some_text (elim (Bool-cases (text_eq t (codes "*"))) [
            | inl star ↦ rw star (rw ((text_eq_iff t (codes "*")).0 star) star_token)
            | inr other ↦ rw other refl
          ])
        ]))

-- The token list of a scope: trimmed pieces without commas, none of them empty.
pub record IsToken (t : Text) : Type 0 where
  pub trimmed : IsTrimmed t
  pub free : IsFree b',' t
  pub filled : t ≢ []

tokens_of-IsToken : (ps : List Text) → All (IsFree b',') ps → All IsToken (tokens_of ps)
unfolding tokens_of
tokens_of-IsToken [] h = tt
tokens_of-IsToken (p ∷ ps) h = elim (Bool-cases (text_eq (trim_space p) [])) [
  | inl e ↦ rw e (tokens_of-IsToken ps h.1)
  | inr e ↦ rw e (
    record {
      trimmed = trim_space-IsTrimmed p;
      free = trim_space-IsFree b',' p h.0;
      filled = λ f. cc (e, (text_eq_iff (trim_space p) []).1 f);
    },
    tokens_of-IsToken ps h.1,
  )
]

pub tokens-IsToken : (s : Text) → All IsToken (tokens s)
unfolding tokens
tokens-IsToken s = tokens_of-IsToken (split b',' s) (split-IsFree b',' s)

tokens_of_tokens : (ts : List Text) → All IsToken ts → tokens_of ts ≡ ts
unfolding tokens_of
tokens_of_tokens [] h = refl
tokens_of_tokens (t ∷ ts) h =
    rw (trim_space_of_IsTrimmed t h.0.trimmed)
      (rw (tokens_of_tokens ts h.1) (ground (arith, text_eq_iff t [], h.0.filled)))

All-IsFree : (ts : List Text) → All IsToken ts → All (IsFree b',') ts
All-IsFree [] h = tt
All-IsFree (t ∷ ts) h = (h.0.free, All-IsFree ts h.1)

-- Joined tokens are read back as they were.
pub tokens-join :
    (t : Text) (ts : List Text) → All IsToken (t ∷ ts) → tokens (join b',' (t ∷ ts)) ≡ t ∷ ts
unfolding tokens
tokens-join t ts h =
    ap tokens_of (split-join b',' t ts (All-IsFree (t ∷ ts) h)) ∙ tokens_of_tokens (t ∷ ts) h
