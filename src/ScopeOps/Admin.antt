-- ===== src/ScopeOps/Admin.antt =====
-- The super-user test and the namespaces that a principal administers.
use mathlib.Core.List.{Memᴰ}
use shoka.Prelude.{
  ◌≡◌, refl, ◌≢◌, ◌∙◌, ap, sym, inl, inr, Bool, true, false, not, ◌&&◌, List, [], ◌∷◌, ◌++◌, arith,
  leb, if◌then◌else◌, Bool-cases,
}
use shoka.Text.{Text, text_eq}
use shoka.Text.Laws.{text_eq_iff}
use shoka.Authz.{level_admin, rank, Grant, parse_scope, matches, effective_level}
use shoka.Authz.Effective.{effective_level_greatest, rank_injective}
use shoka.ScopeOps.{
  is_super_grant, any_grant, is_super_user, is_admin_grant, contains, collect_admin, insert_text,
  sort_texts, admin_namespaces,
}

-- The effective level is admin wherever a matching grant has it.
admin_of_grant :
    (ns proj : Text) (gs : List Grant) (g : Grant)
    → Memᴰ g gs
    → matches g ns proj ≡ true
    → leb 3 (rank g.level) ≡ true
    → effective_level gs ns proj ≡ level_admin
admin_of_grant ns proj gs g k match admin =
    rank_injective ns proj _ _ (ground (arith, (effective_level_greatest ns proj gs).0 g k match))

any_grant-Memᴰ :
    (p : Grant → Bool) (gs : List Grant)
    → any_grant p gs ≡ true
    → (g : Grant) × Memᴰ g gs × (p g ≡ true)
any_grant-Memᴰ p [] h = cc
any_grant-Memᴰ p (g ∷ gs) h = elim (Bool-cases (p g)) [
  | inl e ↦ (g, Memᴰ.head refl, e)
  | inr e ↦ let (x, k, px) = any_grant-Memᴰ p gs (rw e at h) in (x, Memᴰ.tail k, px)
]

super_matches : (ns proj : Text) (g : Grant) → is_super_grant g ≡ true → matches g ns proj ≡ true
unfolding matches
super_matches ns proj g h = ground arith

-- A super-user has the admin level at every target.
pub is_super_user-admin :
    (scope ns proj : Text)
    → is_super_user scope ≡ true
    → effective_level (parse_scope scope) ns proj ≡ level_admin
unfolding is_super_user
is_super_user-admin scope ns proj h =
    let (g, k, super) = any_grant-Memᴰ is_super_grant (parse_scope scope) h in
    admin_of_grant ns proj (parse_scope scope) g k (super_matches ns proj g super)
      (ground (arith, super))

contains-insert_text :
    (x s : Text) (l : List Text)
    → contains x (insert_text s l) ≡ (if text_eq x s then true else contains x l)
unfolding contains insert_text
contains-insert_text x s [] = refl
contains-insert_text x s (t ∷ l) = ground (arith, contains-insert_text x s l)

contains-sort_texts : (x : Text) (l : List Text) → contains x (sort_texts l) ≡ contains x l
unfolding sort_texts
contains-sort_texts x [] = refl
contains-sort_texts x (t ∷ l) =
    contains-insert_text x t (sort_texts l) ∙ rw (contains-sort_texts x l) (unfold contains in refl)

contains-append_one :
    (x t : Text) (l : List Text)
    → contains x (l ++ t ∷ []) ≡ (if text_eq x t then true else contains x l)
unfolding contains
contains-append_one x t [] = refl
contains-append_one x t (u ∷ l) = ground (arith, contains-append_one x t l)

same_name : (x n : Text) (l : List Text) → text_eq x n ≡ true → contains x l ≡ contains n l
same_name x n l h = ap (λ y. contains y l) ((text_eq_iff x n).0 h)

-- What is collected was there before or is the namespace of an admin grant, and nothing is missing.
collect_admin-contains :
    (x : Text) (l : List Text) (gs : List Grant)
    → contains x (collect_admin l gs) ≡ (
        if contains x l
        then true
        else any_grant (λ g. is_admin_grant g && text_eq x g.namespace) gs)
unfolding collect_admin
collect_admin-contains x l [] = ground arith
collect_admin-contains x l (g ∷ gs) =
    elim (Bool-cases (is_admin_grant g && not (contains g.namespace l))) [
      | inl e ↦ rw e (
          collect_admin-contains x (l ++ g.namespace ∷ []) gs
          ∙ ground (arith, contains-append_one x g.namespace l, e))
      | inr e ↦ rw e (collect_admin-contains x l gs ∙ ground (arith, e, same_name x g.namespace l))
    ]

nonempty_grant :
    (ns : Text) (g : Grant) → (is_admin_grant g && text_eq ns g.namespace) ≡ true → ns ≢ []
nonempty_grant ns g h e = ground (arith, text_eq_iff ns g.namespace, text_eq_iff g.namespace [])

admin_matches :
    (ns proj : Text) (g : Grant)
    → (is_admin_grant g && text_eq ns g.namespace) ≡ true
    → matches g ns proj ≡ true
unfolding matches
admin_matches ns proj g h = ground (arith, text_eq_iff ns g.namespace, text_eq_iff g.namespace ns)

-- A scoped principal is listed exactly the namespaces on which an unzoned, namespace-wide grant
-- gives it admin, and it has the admin level at every project of each of them.
pub admin_namespaces-admin :
    (scope ns : Text)
    → is_super_user scope ≡ false
    → (contains ns (admin_namespaces scope).0
        ≡ any_grant (λ g. is_admin_grant g && text_eq ns g.namespace) (parse_scope scope))
      × (contains ns (admin_namespaces scope).0 ≡ true
          → (proj : Text) → effective_level (parse_scope scope) ns proj ≡ level_admin)
unfolding admin_namespaces
admin_namespaces-admin scope ns scoped = rw scoped (listed, λ h proj. admin h proj)
  where
    listed :
        contains ns (sort_texts (collect_admin [] (parse_scope scope)))
        ≡ any_grant (λ g. is_admin_grant g && text_eq ns g.namespace) (parse_scope scope)
    listed =
        contains-sort_texts ns _
        ∙ collect_admin-contains ns [] (parse_scope scope)
        ∙ (unfold contains in refl)

    admin :
        contains ns (sort_texts (collect_admin [] (parse_scope scope))) ≡ true
        → (proj : Text) → effective_level (parse_scope scope) ns proj ≡ level_admin
    admin h proj =
        let (g, k, found) =
          any_grant-Memᴰ (λ g. is_admin_grant g && text_eq ns g.namespace) (parse_scope scope)
            (sym listed ∙ h) in
        admin_of_grant ns proj (parse_scope scope) g k (admin_matches ns proj g found)
          (ground (arith, found))
