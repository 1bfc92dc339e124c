-- ===== src/Exec.antt =====
-- Methods that change a state and may end the process. `fault` is what no caller catches: an
-- exception that leaves the client's thread, a null pointer read as text or given to a call that
-- follows it, the end of the process with a status, a loop out of fuel.
pub mod Fuel
pub mod Keeping
use raspi_cctv_tcp_server.Prelude.{ℕ, ◌≡◌, refl, ap, ◌∙◌, Option, none, some}

pub data Fault : Type 0 where
  uncaught null_text null_pointer no_fuel : Fault
  exits : ℕ → Fault

pub data Result (A : Type 0) : Type 0 where
  ok : A → Result A
  fault : Fault → Result A

abbrev pub Exec : Type 0 → Type 0 → Type 0
Exec S A = S → Result A × S

pub ok_injective : {A : Type 0} {a b : A} → ok a ≡ ok b → a ≡ b
ok_injective h = cc

module _ {S A : Type 0} where
  abbrev pub pure : A → Exec S A
  pure a s = (ok a, s)

  abbrev pub raise : Fault → Exec S A
  raise f s = (fault f, s)

  abbrev pub gets : (S → A) → Exec S A
  gets f s = (ok (f s), s)

  abbrev pub or_raise : Fault → Option A → Exec S A
  or_raise f none = raise f
  or_raise f (some a) = pure a

module _ {S A B : Type 0} where
  abbrev pub continue : (A → Exec S B) → Result A × S → Result B × S
  continue k (ok a, s) = k a s
  continue k (fault f, s) = (fault f, s)

  infixl 5 ◌>>=◌ ◌>>◌
  abbrev pub ◌>>=◌ : Exec S A → (A → Exec S B) → Exec S B
  ◌>>=◌ m k s = continue k (m s)

  abbrev pub ◌>>◌ : Exec S A → Exec S B → Exec S B
  m >> k = m >>= λ _. k

-- A result that a chain gave was given by its first part and by the rest from there.
pub continue_inv :
    {S A B : Type 0} (k : A → Exec S B) (r : Result A × S) (b : B) (s' : S)
    → continue k r ≡ (ok b, s')
    → (a : A) × (s : S) × (r ≡ (ok a, s)) × (k a s ≡ (ok b, s'))
continue_inv k (ok a, s) b s' h = (a, s, refl, h)
continue_inv k (fault f, s) b s' h = cc
