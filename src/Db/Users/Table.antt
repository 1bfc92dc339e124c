-- ===== src/Db/Users/Table.antt =====
-- The table of users as an association of addresses with password hashes, and its two keys.
use raspi_cctv_tcp_server.Prelude.{
  Option, none, some, Bool, false, List, [], ◌∷◌, ◌++◌, map, Text, ℤ, ◌≡◌, refl, arith, find,
  text_eq, text_eq_iff, eq_ℤ_iff, if◌then◌else◌,
}
use raspi_cctv_tcp_server.Db.Model.{User}
use raspi_cctv_tcp_server.Db.Contract.{has_email, has_id, set_password}

abbrev pub hash_in : Option User → Option Text
hash_in none = none
hash_in (some u) = some u.password_hash

-- The stored hash of an address.
abbrev pub account : List User → Text → Option Text
account us e = hash_in (find (has_email e) us)

abbrev pub DistinctIds : List User → Type 0
DistinctIds [] = Unit
DistinctIds (u ∷ us) = (find (has_id u.id) us ≡ none) × DistinctIds us

abbrev pub DistinctEmails : List User → Type 0
DistinctEmails [] = Unit
DistinctEmails (u ∷ us) = (find (has_email u.email) us ≡ none) × DistinctEmails us

-- No two users share a key or an address.
pub record IsKeyed (us : List User) : Type 0 where
  pub ids : DistinctIds us
  pub emails : DistinctEmails us

pub account-append :
    (us : List User) (u : User) (e : Text)
    → find (has_email u.email) us ≡ none
    → account (us ++ u ∷ []) e ≡ (if text_eq u.email e then some u.password_hash else account us e)
account-append [] u e h = ground arith
account-append (x ∷ us) u e h = ground (
  arith,
  account-append us u e,
  text_eq_iff x.email e,
  text_eq_iff u.email e,
  text_eq_iff x.email u.email,
)

find-none→ne {ℓ} :
    {A : Type ℓ} (p q : A → Bool) (xs : List A) (a : A)
    → find p xs ≡ none
    → find q xs ≡ some a
    → p a ≡ false
find-none→ne p q [] a h k = cc
find-none→ne p q (x ∷ xs) a h k = ground (arith, find-none→ne p q xs a)

-- With distinct keys, two users that are found are one exactly when their addresses are.
same_id :
    (us : List User) (e e' : Text) (u u' : User)
    → DistinctIds us
    → find (has_email e) us ≡ some u
    → find (has_email e') us ≡ some u'
    → has_id u.id u' ≡ text_eq e e'
same_id [] e e' u u' d h k = cc
same_id (x ∷ us) e e' u u' (d, ds) h k = ground (
  arith,
  same_id us e e' u u',
  find-none→ne (has_id x.id) (has_email e) us u,
  find-none→ne (has_id x.id) (has_email e') us u',
  text_eq_iff x.email e,
  text_eq_iff x.email e',
  text_eq_iff e e',
  eq_ℤ_iff u'.id u.id,
  eq_ℤ_iff u'.id x.id,
  eq_ℤ_iff u.id x.id,
)

abbrev set_in : ℤ → Text → Option User → Option User
set_in i h none = none
set_in i h (some u) = some (set_password i h u)

find_email-set_password :
    (i : ℤ) (h e : Text) (us : List User)
    → find (has_email e) (map (set_password i h) us) ≡ set_in i h (find (has_email e) us)
find_email-set_password i h e [] = refl
find_email-set_password i h e (x ∷ us) = ground (arith, find_email-set_password i h e us)

find_id-set_password :
    (i : ℤ) (h : Text) (j : ℤ) (us : List User)
    → find (has_id j) (map (set_password i h) us) ≡ set_in i h (find (has_id j) us)
find_id-set_password i h j [] = refl
find_id-set_password i h j (x ∷ us) = ground (arith, find_id-set_password i h j us)

-- Writing to the key of one address changes the hash of that address and of no other.
pub account-set_password :
    (us : List User) (e e' h : Text) (u : User)
    → DistinctIds us
    → find (has_email e) us ≡ some u
    → account (map (set_password u.id h) us) e' ≡ (if text_eq e e' then some h else account us e')
account-set_password us e e' h u d k =
    rw find_email-set_password (at_found (find (has_email e') us) refl)
  where
    at_found :
        (o : Option User)
        → find (has_email e') us ≡ o
        → hash_in (set_in u.id h o) ≡ (if text_eq e e' then some h else hash_in o)
    at_found none q = ground (arith, text_eq_iff e e')
    at_found (some u') q = ground (arith, same_id us e e' u u' d k q)

set_password-DistinctIds :
    (i : ℤ) (h : Text) (us : List User) → DistinctIds us → DistinctIds (map (set_password i h) us)
set_password-DistinctIds i h [] d = tt
set_password-DistinctIds i h (x ∷ us) (d, ds) =
    (ground (arith, find_id-set_password i h x.id us), set_password-DistinctIds i h us ds)

set_password-DistinctEmails :
    (i : ℤ) (h : Text) (us : List User)
    → DistinctEmails us
    → DistinctEmails (map (set_password i h) us)
set_password-DistinctEmails i h [] d = tt
set_password-DistinctEmails i h (x ∷ us) (d, ds) =
    (ground (arith, find_email-set_password i h x.email us), set_password-DistinctEmails i h us ds)

pub set_password-IsKeyed :
    (i : ℤ) (h : Text) (us : List User) → IsKeyed us → IsKeyed (map (set_password i h) us)
set_password-IsKeyed i h us k = record {
  ids = set_password-DistinctIds i h us k.ids;
  emails = set_password-DistinctEmails i h us k.emails;
}

append-DistinctIds :
    (us : List User) (u : User)
    → DistinctIds us
    → find (has_id u.id) us ≡ none
    → DistinctIds (us ++ u ∷ [])
append-DistinctIds [] u d h = (refl, tt)
append-DistinctIds (x ∷ us) u (d, ds) h = (fresh us d, append-DistinctIds us u ds (ground arith))
  where
    fresh :
        (vs : List User) → find (has_id x.id) vs ≡ none → find (has_id x.id) (vs ++ u ∷ []) ≡ none
    fresh [] k = ground (arith, eq_ℤ_iff x.id u.id, eq_ℤ_iff u.id x.id)
    fresh (v ∷ vs) k = ground (arith, fresh vs)

append-DistinctEmails :
    (us : List User) (u : User)
    → DistinctEmails us
    → find (has_email u.email) us ≡ none
    → DistinctEmails (us ++ u ∷ [])
append-DistinctEmails [] u d h = (refl, tt)
append-DistinctEmails (x ∷ us) u (d, ds) h =
    (fresh us d, append-DistinctEmails us u ds (ground arith))
  where
    fresh :
        (vs : List User)
        → find (has_email x.email) vs ≡ none
        → find (has_email x.email) (vs ++ u ∷ []) ≡ none
    fresh [] k = ground (arith, text_eq_iff x.email u.email, text_eq_iff u.email x.email)
    fresh (v ∷ vs) k = ground (arith, fresh vs)

pub append-IsKeyed :
    (us : List User) (u : User)
    → IsKeyed us
    → find (has_id u.id) us ≡ none
    → find (has_email u.email) us ≡ none
    → IsKeyed (us ++ u ∷ [])
append-IsKeyed us u k i e = record {
  ids = append-DistinctIds us u k.ids i;
  emails = append-DistinctEmails us u k.emails e;
}
