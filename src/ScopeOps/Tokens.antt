-- ===== src/ScopeOps/Tokens.antt =====
-- The tokens that a rewrite builds, as tokens of a scope.
use mathlib.Core.Path.{subst}
use shoka.Prelude.{
  ℕ, ◌≡◌, refl, ◌≢◌, true, false, [], ◌∷◌, ◌++◌, arith, inl, inr, ◌⊎◌, All, All-append,
}
use shoka.Text.{Text, trim_left, is_space}
use shoka.Text.Laws.{IsFree, trim_right-append, solid-IsTrimmed, first_solid, trim_left_solid}
use shoka.Text.Affixes.{IsFree-append, IsFree-left}
use shoka.Names.{is_name_char, is_valid_name, valid_name-IsFree, valid_name-solid}
use shoka.Authz.{Level, level_none, level_read, level_write, level_admin}
use shoka.Authz.Tokens.{IsToken}
use shoka.ScopeOps.{zone_prefix}
use shoka.ScopeOps.Perms.{perm_text}
use shoka.ScopeOps.Reading.{namespace_word, ZoneView}

abbrev pub IsSolid : Text → Type 0
IsSolid = All (λ c. is_space c ≡ false)

-- What follows the zone: no space, no comma.
pub record IsTail (w : Text) : Type 0 where
  pub solid : IsSolid w
  pub free : IsFree b',' w

pub IsTail-append : (s t : Text) → IsTail s → IsTail t → IsTail (s ++ t)
IsTail-append s t h k = record {
  solid = All-append (λ c. is_space c ≡ false) s t h.solid k.solid;
  free = IsFree-append b',' s t h.free k.free;
}

IsTail-char : (c : ℕ) (s : Text) → is_space c ≡ false → c ≢ b',' → IsTail s → IsTail (c ∷ s)
IsTail-char c s h n k = record { solid = (h, k.solid); free = (n, k.free) }

pub perm_text-IsTail : (lvl : Level) → IsTail (perm_text lvl)
unfolding is_space
perm_text-IsTail level_none = record { solid = tt; free = tt }
perm_text-IsTail level_read = record { solid = (refl, (refl, tt)); free = omega arith }
perm_text-IsTail level_write = record { solid = (refl, (refl, (refl, tt))); free = omega arith }
perm_text-IsTail level_admin = record {
  solid = (refl, (refl, (refl, (refl, (refl, (refl, tt))))));
  free = omega arith;
}

comma_is_no_name : is_name_char b',' ≡ false
unfolding is_name_char
comma_is_no_name = refl

pub name-IsTail : (name : Text) → is_valid_name name ≡ true → IsTail name
name-IsTail name h = record {
  solid = valid_name-solid name h;
  free = valid_name-IsFree b',' name comma_is_no_name h;
}

pub word-IsTail : IsTail namespace_word
unfolding is_space
word-IsTail = record {
  solid = (refl, (refl, (refl, (refl, (refl, (refl, (refl, (refl, (refl, (refl, tt))))))))));
  free = omega arith;
}

pub project_part-IsTail :
    (ns proj : Text) (lvl : Level)
    → is_valid_name ns ≡ true
    → is_valid_name proj ≡ true
    → IsTail (namespace_word ++ (ns ++ b'/' ∷ (proj ++ perm_text lvl)))
unfolding is_space
project_part-IsTail ns proj lvl hn hp = IsTail-append namespace_word _ word-IsTail (
    IsTail-append ns _ (name-IsTail ns hn) (
      IsTail-char b'/' _ refl (λ e. ground (arith, e))
        (IsTail-append proj _ (name-IsTail proj hp) (perm_text-IsTail lvl))))

-- With the zone of a token in front it is a token.
pub zoned-IsToken :
    (tok zone rest w : Text) (c : ℕ)
    → IsToken tok
    → ZoneView tok zone rest
    → IsTail (c ∷ w)
    → IsToken (zone_prefix zone ++ c ∷ w)
zoned-IsToken tok [] rest w c h v k = record {
  trimmed = solid-IsTrimmed (c ∷ w) k.solid;
  free = k.free;
  filled = λ e. cc;
}
zoned-IsToken tok (d ∷ z) rest w c h v k = go v.parts
  where
    go :
        ((d ∷ z ≡ []) × (tok ≡ rest)) ⊎ (tok ≡ (d ∷ z) ++ b'/' ∷ rest)
        → IsToken (zone_prefix (d ∷ z) ++ c ∷ w)
    go (inl (e, _)) = absurd (cc e)
    go (inr e) =
        let start : is_space d ≡ false =
          first_solid d (z ++ b'/' ∷ rest) (subst (λ s. trim_left s ≡ s) e h.trimmed.left) in
        let free : IsFree b',' (d ∷ z) =
          IsFree-left b',' (d ∷ z) (b'/' ∷ rest) (subst (IsFree b',') e h.free) in
        record {
          trimmed = record {
            left = trim_left_solid d _ start;
            right =
                trim_right-append (zone_prefix (d ∷ z)) (c ∷ w) (λ x. cc)
                  ((solid-IsTrimmed (c ∷ w) k.solid).right);
          };
          free =
              IsFree-append b',' (zone_prefix (d ∷ z)) (c ∷ w)
                (IsFree-append b',' (d ∷ z) (b'/' ∷ []) free (omega arith)) k.free;
          filled = λ x. cc;
        }
