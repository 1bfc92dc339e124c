-- ===== src/Server/Listener/Ownership.antt =====
-- Who owns the descriptors and the SSL objects of the server.
use raspi_cctv_tcp_server.Prelude.{
  ℕ, Bool, true, false, ◌||◌, List, [], ◌∷◌, ◌++◌, ◌≡◌, refl, arith, All, ◌==◌, ==_refl,
}
use raspi_cctv_tcp_server.Server.System.Contract.{Resources, update, demands_certificate}
use raspi_cctv_tcp_server.Server.Listener.{ClientHandlerArgs}

abbrev pub owns_fd : ℕ → List ClientHandlerArgs → Bool
owns_fd f [] = false
owns_fd f (a ∷ ts) = a.client_fd == f || owns_fd f ts

abbrev pub owns_ssl : ℕ → List ClientHandlerArgs → Bool
owns_ssl s [] = false
owns_ssl s (a ∷ ts) = a.ssl == s || owns_ssl s ts

abbrev pub Distinct : List ClientHandlerArgs → Type 0
Distinct [] = Unit
Distinct (a ∷ ts) = (owns_fd a.client_fd ts ≡ false) × (owns_ssl a.ssl ts ≡ false) × Distinct ts

abbrev pub IsVerified : (ℕ → Bool) → ClientHandlerArgs → Type 0
IsVerified v a = v a.ssl ≡ true

-- The open descriptors are the listening one and those of the running threads, the live SSL objects
-- are those of the threads, no two threads share one, and each thread's client has shown a
-- certificate that was verified, as the context demands.
pub record OwnedBy (fd ctx : ℕ) (ts : List ClientHandlerArgs) (r : Resources) : Type 0 where
  pub fds : (f : ℕ) → r.is_open f ≡ (fd == f || owns_fd f ts)
  pub tls : (s : ℕ) → r.is_live s ≡ owns_ssl s ts
  pub distinct : Distinct ts
  pub listening : owns_fd fd ts ≡ false
  pub verified : All (IsVerified r.is_verified) ts
  pub demands : r.verifies ctx ≡ demands_certificate

IsVerified-elsewhere :
    (s : ℕ) (v v' : ℕ → Bool) (ts : List ClientHandlerArgs)
    → owns_ssl s ts ≡ false
    → ((j : ℕ) → (s == j) ≡ false → v' j ≡ v j)
    → All (IsVerified v) ts
    → All (IsVerified v') ts
IsVerified-elsewhere s v v' [] h same k = tt
IsVerified-elsewhere s v v' (a ∷ ts) h same (p, k) =
    (ground (arith, same a.ssl), IsVerified-elsewhere s v v' ts (ground arith) same k)

owns_fd-append :
    (f : ℕ) (xs ys : List ClientHandlerArgs) → owns_fd f (xs ++ ys) ≡ (owns_fd f xs || owns_fd f ys)
owns_fd-append f [] ys = refl
owns_fd-append f (x ∷ xs) ys = ground (arith, owns_fd-append f xs ys)

owns_ssl-append :
    (s : ℕ) (xs ys : List ClientHandlerArgs)
    → owns_ssl s (xs ++ ys) ≡ (owns_ssl s xs || owns_ssl s ys)
owns_ssl-append s [] ys = refl
owns_ssl-append s (x ∷ xs) ys = ground (arith, owns_ssl-append s xs ys)

-- A thread taken out of the middle shares nothing with the others.
Distinct-middle :
    (before : List ClientHandlerArgs) (a : ClientHandlerArgs) (behind : List ClientHandlerArgs)
    → Distinct (before ++ a ∷ behind)
    → (owns_fd a.client_fd (before ++ behind) ≡ false)
      × (owns_ssl a.ssl (before ++ behind) ≡ false)
      × Distinct (before ++ behind)
Distinct-middle [] a behind d = d
Distinct-middle (x ∷ xs) a behind (f, s, d) =
    let (f', s', d') = Distinct-middle xs a behind d in
    (
      ground (arith, owns_fd-append x.client_fd xs (a ∷ behind)),
      ground (arith, owns_ssl-append x.ssl xs (a ∷ behind)),
      (
        ground (
          arith,
          owns_fd-append x.client_fd xs (a ∷ behind),
          owns_fd-append x.client_fd xs behind,
        ),
        ground (arith, owns_ssl-append x.ssl xs (a ∷ behind), owns_ssl-append x.ssl xs behind),
        d',
      ),
    )

All-middle :
    (P : ClientHandlerArgs → Type 0) (before : List ClientHandlerArgs) (a : ClientHandlerArgs)
    (behind : List ClientHandlerArgs)
    → All P (before ++ a ∷ behind)
    → All P (before ++ behind)
All-middle P [] a behind (h, k) = k
All-middle P (x ∷ xs) a behind (h, k) = (h, All-middle P xs a behind k)

module _ (fd ctx : ℕ) where
  -- A descriptor and an SSL object that were not in use, given to a thread.
  pub given :
      (c s : ℕ) (ts : List ClientHandlerArgs) (r r' : Resources)
      → r.is_open c ≡ false
      → r.is_live s ≡ false
      → ((f : ℕ) → r'.is_open f ≡ update c true r.is_open f)
      → ((j : ℕ) → r'.is_live j ≡ update s true r.is_live j)
      → ((j : ℕ) → (s == j) ≡ false → r'.is_verified j ≡ r.is_verified j)
      → r'.is_verified s ≡ true
      → r'.verifies ≡ r.verifies
      → OwnedBy fd ctx ts r
      → OwnedBy fd ctx (record { client_fd = c; ssl = s } ∷ ts) r'
  given c s ts r r' shut dead now_open now_live same good keeps o = record {
    fds = λ f. ground (arith, o.fds f, now_open f);
    tls = λ j. ground (arith, o.tls j, now_live j);
    distinct = (ground (arith, o.fds c), ground (arith, o.tls s), o.distinct);
    listening = ground (arith, o.fds fd, o.fds c, o.listening, ==_refl fd);
    verified = (
      good,
      IsVerified-elsewhere s r.is_verified r'.is_verified ts (ground (arith, o.tls s)) same
          o.verified,
    );
    demands = rw keeps o.demands;
  }

  -- The same, taken and given back.
  pub given_back :
      (s : ℕ) (ts : List ClientHandlerArgs) (r r' : Resources)
      → r.is_live s ≡ false
      → ((f : ℕ) → r'.is_open f ≡ r.is_open f)
      → ((j : ℕ) → r'.is_live j ≡ r.is_live j)
      → ((j : ℕ) → (s == j) ≡ false → r'.is_verified j ≡ r.is_verified j)
      → r'.verifies ≡ r.verifies
      → OwnedBy fd ctx ts r
      → OwnedBy fd ctx ts r'
  given_back s ts r r' dead now_open now_live same keeps o = record {
    fds = λ f. ground (arith, o.fds f, now_open f);
    tls = λ j. ground (arith, o.tls j, now_live j);
    distinct = o.distinct;
    listening = o.listening;
    verified =
        IsVerified-elsewhere s r.is_verified r'.is_verified ts (ground (arith, o.tls s)) same
          o.verified;
    demands = rw keeps o.demands;
  }

  -- A thread that returns.
  pub returned :
      (before : List ClientHandlerArgs) (a : ClientHandlerArgs) (behind : List ClientHandlerArgs)
      (r r' : Resources)
      → ((f : ℕ) → r'.is_open f ≡ update a.client_fd false r.is_open f)
      → ((j : ℕ) → r'.is_live j ≡ update a.ssl false r.is_live j)
      → r'.is_verified ≡ r.is_verified
      → r'.verifies ≡ r.verifies
      → OwnedBy fd ctx (before ++ a ∷ behind) r
      → OwnedBy fd ctx (before ++ behind) r'
  returned before a behind r r' now_open now_live same keeps o =
      let (free_fd, free_ssl, apart) = Distinct-middle before a behind o.distinct in
      record {
        fds = λ f. ground (
          arith,
          o.fds f,
          now_open f,
          owns_fd-append f before (a ∷ behind),
          owns_fd-append f before behind,
          free_fd,
          o.listening,
          owns_fd-append fd before (a ∷ behind),
        );
        tls = λ j. ground (
          arith,
          o.tls j,
          now_live j,
          owns_ssl-append j before (a ∷ behind),
          owns_ssl-append j before behind,
          free_ssl,
        );
        distinct = apart;
        listening = ground (
          arith,
          o.listening,
          owns_fd-append fd before (a ∷ behind),
          owns_fd-append fd before behind,
        );
        verified = rw same (All-middle (IsVerified r.is_verified) before a behind o.verified);
        demands = rw keeps o.demands;
      }
