-- ===== src/Tests/Tokens.antt =====
-- pkg/oauthstore on concrete stores, with a digest that marks a text.
use shoka.Prelude.{◌≡◌, ◌≢◌, ◌∙◌, ◌↔◌, ◌⊎◌, refl, sym, ap, false, none, some, List, [], ◌∷◌}
use shoka.Prelude.Assoc.{lookup, put, remove, Distinct}
use shoka.Text.{
  Text, codes, text_eq, trim_space, trim_right, trim_left, is_space, has_suffix, strip_suffix,
}
use shoka.Text.Keys.{text_key}
use shoka.Oauth.{
  Principal, RegistrationEntry, CodeRecord, SeriesRecord, Store, not_found, expired, err, ok, Calls,
  bucket_put,
}
use shoka.Oauth.Series.{
  hash_handle, at_rest, drop_old, put_code, take_code, put_series, delete_series, resolve,
  new_record, new_series, renewed, rotate, lookup_token,
}
use shoka.Oauth.Linked.{IsLinked}
use shoka.Oauth.Lifecycle.{IsFresh}
use shoka.Oauth.Sweeps.{collect, delete_all, is_bound_to, drop_codes, revoke_by_principal_email}
use shoka.Oauth.Domains.{
  is_of_domain, revoke_by_domain, client_domain_tx, cimd_host, recorded_domain,
  domain_from_redirect_uris, shared_host, is_within,
}
use shoka.Oauth.Registrations.{create_registration, update_registration, plain_entry, mode_domain}
use shoka.Oauth.Histories.{StoreReach, start, next, pair_issued, new_store, StoreReach-IsLinked}
use shoka.Oauth.Tokens.{IsHeld, lookup_token_iff}
use shoka.Oauth.Rotation.{after, IsNew, rotate-lookup_token, rotate-rotate}
use shoka.Oauth.Revocation.{
  IsBelow, revoke_by_principal_email-lookup_token, revoke_by_domain-lookup_token,
}
use shoka.Oauth.Errors.{
  HasStored, IsDecided, CanCreate, CanUpdate, HasCreated, registrations-IsDecided,
  put_code-take_code,
}

abbrev calls : Calls
calls = record {
  digest = λ t. b'#' ∷ t;
  to_lower = λ t. t;
  equal_fold = text_eq;
  parse_url = λ t. some (record { scheme = codes "https"; host = t; hostname = t });
}

abbrev ann : Principal
ann = record { name = codes "Ann"; email = codes "ann@x.org" }

-- A pair for Ann's client on x.org, issued at 5, whose access lasts until 15.
abbrev issued_store : Store
issued_store =
    (new_series calls (some (codes "s")) (some (codes "a")) (some (codes "r")) (codes "x.org") ann
      [] (codes "*:read") [] 5 10 100 [] new_store).1

abbrev first_record : SeriesRecord
first_record =
    new_record calls (codes "s") (codes "a") (codes "r") (codes "x.org") ann [] (codes "*:read") []
      5 10 100 []

absent_id : (h : Text) → lookup h new_store.series ≡ none
unfolding lookup
absent_id h = refl

absent_hash : (h : Text) → lookup h new_store.access ≡ none
unfolding lookup
absent_hash h = refl

abbrev reached : StoreReach calls issued_store
reached = next start (
    pair_issued (some (codes "s")) (some (codes "a")) (some (codes "r")) (codes "x.org") ann []
      (codes "*:read") [] 5 10 100 [] (λ h e. absent_id h)
      (λ h e. absent_hash (hash_handle calls h)) (λ h e. absent_hash (hash_handle calls h)))

StoreReach-IsLinked_example : IsLinked issued_store
StoreReach-IsLinked_example = StoreReach-IsLinked reached

abbrev linked : IsLinked issued_store
linked = StoreReach-IsLinked reached

lookup_token_test : lookup_token calls (codes "a") 15 issued_store ≡ ok (at_rest first_record)
unfolding lookup_token new_series hash_handle put_series at_rest drop_old bucket_put lookup put
    resolve text_eq
lookup_token_test = refl

lookup_token_iff_example :
    (lookup_token calls (codes "a") 15 issued_store ≡ ok (at_rest first_record))
    ↔ IsHeld calls (codes "a") 15 issued_store (at_rest first_record)
lookup_token_iff_example =
    lookup_token_iff calls (codes "a") 15 issued_store (at_rest first_record) linked

abbrev second_record : SeriesRecord
second_record = renewed calls (at_rest first_record) (codes "b") (codes "q") 9 10 100

new_access : lookup (hash_handle calls (codes "b")) issued_store.access ≡ none
unfolding new_series hash_handle put_series at_rest drop_old bucket_put lookup put text_eq
new_access = refl

new_refresh : lookup (hash_handle calls (codes "q")) issued_store.refresh ≡ none
unfolding new_series hash_handle put_series at_rest drop_old bucket_put lookup put text_eq
new_refresh = refl

handle-IsFresh :
    (handle : Text) (b : List (Text × Text))
    → lookup (hash_handle calls handle) b ≡ none
    → IsFresh calls b (some handle)
handle-IsFresh handle b e h is =
    let same : handle ≡ h = cc is in ap (λ x. lookup (hash_handle calls x) b) (sym same) ∙ e

rotated_ok :
    (rotate calls (codes "r") (some (codes "b")) (some (codes "q")) 9 10 100 issued_store).0
    ≡ ok second_record
unfolding rotate new_series hash_handle put_series at_rest drop_old bucket_put lookup put remove
    resolve text_eq
rotated_ok = refl

abbrev rotated_store : Store
rotated_store = after calls (codes "r") (codes "b") (codes "q") 9 10 100 issued_store

rotate-lookup_token_example :
    (lookup_token calls (codes "b") 15 rotated_store ≡ ok (at_rest second_record)) ↔ (
      IsNew calls (codes "b") second_record (codes "b") 15 (at_rest second_record)
      ⊎ ((lookup_token calls (codes "b") 15 issued_store ≡ ok (at_rest second_record))
          × ((at_rest second_record).series_id ≢ second_record.series_id)))
rotate-lookup_token_example =
    rotate-lookup_token calls (codes "r") (codes "b") (codes "q") 9 10 100 issued_store
      second_record linked (handle-IsFresh (codes "b") issued_store.access new_access)
      (handle-IsFresh (codes "q") issued_store.refresh new_refresh) rotated_ok (codes "b") 15
      (at_rest second_record)

rotate-rotate_example :
    rotate calls (codes "r") (some (codes "c")) (some (codes "d")) 10 10 100 rotated_store
    ≡ (err not_found, rotated_store)
rotate-rotate_example =
    rotate-rotate calls (codes "r") (codes "b") (codes "q") 9 10 100 issued_store second_record
      linked (handle-IsFresh (codes "b") issued_store.access new_access)
      (handle-IsFresh (codes "q") issued_store.refresh new_refresh) rotated_ok (some (codes "c"))
      (some (codes "d")) 10 10 100

named_email : text_eq (calls.to_lower (trim_space (codes "ann@x.org"))) [] ≡ false
unfolding text_eq trim_space trim_right trim_left is_space
named_email = refl

email_ok : (revoke_by_principal_email calls (codes "ann@x.org") issued_store).0 ≡ ok 1
unfolding revoke_by_principal_email collect delete_all delete_series is_bound_to drop_codes
    new_series hash_handle put_series at_rest drop_old bucket_put lookup put remove text_eq
    trim_space trim_right trim_left is_space
email_ok = refl

abbrev some_code : CodeRecord
some_code = record {
  client_id = codes "x.org";
  redirect_uri = [];
  code_challenge = [];
  code_challenge_method = [];
  resource = [];
  principal = ann;
  expiry = 20;
}

codes_Distinct : Distinct issued_store.codes
unfolding new_series put_series bucket_put hash_handle text_eq
codes_Distinct = tt

revoke_by_principal_email-lookup_token_example :
    ((lookup_token calls
          (codes "a")
          15
          (revoke_by_principal_email calls (codes "ann@x.org") issued_store).1
        ≡ ok (at_rest first_record))
      ↔ ((lookup_token calls (codes "a") 15 issued_store ≡ ok (at_rest first_record))
          × (is_bound_to calls (trim_space (codes "ann@x.org")) (at_rest first_record).principal
              ≡ false)))
    × ((lookup
            (codes "k")
            (revoke_by_principal_email calls (codes "ann@x.org") issued_store).1.codes
          ≡ some (some some_code))
        ↔ ((lookup (codes "k") issued_store.codes ≡ some (some some_code))
            × (is_bound_to calls (trim_space (codes "ann@x.org")) ann ≡ false)))
revoke_by_principal_email-lookup_token_example =
    revoke_by_principal_email-lookup_token calls (codes "ann@x.org") issued_store 1 linked
      codes_Distinct named_email email_ok (codes "a") 15 (at_rest first_record) (codes "k")
      some_code

named_domain : text_eq (calls.to_lower (trim_space (codes "org"))) [] ≡ false
unfolding text_eq trim_space trim_right trim_left is_space
named_domain = refl

domain_ok : (revoke_by_domain calls (codes "org") issued_store).0 ≡ ok 1
unfolding revoke_by_domain is_of_domain client_domain_tx cimd_host recorded_domain
    domain_from_redirect_uris shared_host is_within has_suffix strip_suffix collect delete_all
    delete_series new_series hash_handle put_series at_rest drop_old bucket_put lookup put remove
    text_eq trim_space trim_right trim_left is_space
domain_ok = refl

revoke_by_domain-lookup_token_example :
    (lookup_token calls (codes "a") 15 (revoke_by_domain calls (codes "org") issued_store).1
      ≡ ok (at_rest first_record))
    ↔ ((lookup_token calls (codes "a") 15 issued_store ≡ ok (at_rest first_record))
        × ¬ IsBelow
            (client_domain_tx calls (at_rest first_record).client_id issued_store)
            (trim_space (codes "org")))
revoke_by_domain-lookup_token_example =
    revoke_by_domain-lookup_token calls (codes "org") issued_store 1 linked named_domain domain_ok
      (codes "a") 15 (at_rest first_record)

put_code-take_code_example :
    let t = (put_code calls (codes "k") some_code new_store).1 in
    let u = (take_code calls (codes "k") 30 t).1 in
    ((put_code calls (codes "k") some_code new_store).0 ≡ ok tt)
    × ((take_code calls (codes "k") 30 t).0 ≡ err expired)
    × (take_code calls (codes "k") 31 u ≡ (err not_found, u))
put_code-take_code_example =
    put_code-take_code calls (codes "k") some_code 30 31 new_store
      (unfold hash_handle text_eq in λ e. cc e)

abbrev some_entry : RegistrationEntry
some_entry = plain_entry (codes "i") mode_domain (codes "x.org") 5

registrations-IsDecided_example :
    IsDecided
      (CanCreate (some (codes "i")) mode_domain (codes "x.org"))
      (HasCreated (some (codes "i")) mode_domain (codes "x.org") 5 new_store)
      new_store
      (create_registration (some (codes "i")) mode_domain (codes "x.org") 5 new_store)
    × IsDecided
        (CanUpdate some_entry new_store)
        (λ u t. HasStored some_entry new_store t)
        new_store
        (update_registration some_entry new_store)
registrations-IsDecided_example =
    registrations-IsDecided (some (codes "i")) mode_domain (codes "x.org") 5 some_entry new_store
