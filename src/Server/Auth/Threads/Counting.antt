-- ===== src/Server/Auth/Threads/Counting.antt =====
-- How many rows hold an address, and how many threads have registered it.
use raspi_cctv_tcp_server.Prelude.{
  ℕ, ◌+◌, ◌≤◌, none, List, [], ◌∷◌, ◌++◌, map, Text, ℤ, ◌≡◌, refl, arith, find, text_eq,
  text_eq_iff, c_str, if◌then◌else◌,
}
use raspi_cctv_tcp_server.Db.Model.{User}
use raspi_cctv_tcp_server.Db.Contract.{has_email, set_password}
use raspi_cctv_tcp_server.Db.Users.Table.{DistinctEmails}
use raspi_cctv_tcp_server.Server.Response.{Response, success}
use raspi_cctv_tcp_server.Server.Auth.Accounts.{Request, sign_up}
use raspi_cctv_tcp_server.Server.Auth.Threads.{Thread, replies}

abbrev pub held : Text → List User → ℕ
held e [] = 0
held e (u ∷ us) = (if has_email e u then 1 else 0) + held e us

abbrev names : Text → Request → ℕ
names e (sign_up e' p) = if text_eq (c_str e') e then 1 else 0
names e _ = 0

abbrev accepted : Text → Request → Response → ℕ
accepted e r (success n message) = names e r
accepted e r _ = 0

-- 1 for a thread that has replied to a registration of the address with success.
abbrev pub registered : Text → Thread → ℕ
registered e (replies r x) = accepted e r x
registered e _ = 0

abbrev pub signed_up : Text → List Thread → ℕ
signed_up e [] = 0
signed_up e (t ∷ ts) = registered e t + signed_up e ts

pub signed_up-append :
    (e : Text) (xs ys : List Thread) → signed_up e (xs ++ ys) ≡ signed_up e xs + signed_up e ys
signed_up-append e [] ys = omega arith
signed_up-append e (x ∷ xs) ys = omega (arith, signed_up-append e xs ys)

pub held-append :
    (e : Text) (us : List User) (u : User)
    → held e (us ++ u ∷ []) ≡ held e us + (if has_email e u then 1 else 0)
held-append e [] u = ground arith
held-append e (v ∷ us) u = ground (arith, held-append e us u)

pub held-set_password :
    (e : Text) (i : ℤ) (h : Text) (us : List User) → held e (map (set_password i h) us) ≡ held e us
held-set_password e i h [] = refl
held-set_password e i h (u ∷ us) = ground (arith, held-set_password e i h us)

held-none : (e : Text) (us : List User) → find (has_email e) us ≡ none → held e us ≡ 0
held-none e [] h = refl
held-none e (u ∷ us) h = ground (arith, held-none e us)

-- In a table of distinct addresses, at most one row holds an address.
pub held-le_one : (e : Text) (us : List User) → DistinctEmails us → held e us ≤ 1
held-le_one e [] d = omega arith
held-le_one e (u ∷ us) (fresh, d) =
    ground (arith, held-le_one e us d, held-none u.email us fresh, text_eq_iff u.email e)
