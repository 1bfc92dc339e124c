-- ===== src/Exec/Keeping.antt =====
-- Code that keeps a predicate on the state, however it ends.
use raspi_cctv_tcp_server.Prelude.{Bool, true, false, if◌then◌else◌, Option, none, some, ◌≡◌, refl}
use raspi_cctv_tcp_server.Exec.{Exec, Fault, Result, ok, fault, continue, ◌>>=◌, or_raise}

module _ {S : Type 0} (P : S → Type 0) where
  abbrev pub Keeps : {A : Type 0} → Exec S A → Type 0
  Keeps m = (s : S) → P s → P (m s).1

  pub continue-Keeps :
      {A B : Type 0} (k : A → Exec S B) (o : Result A × S)
      → P o.1
      → ((a : A) → Keeps (k a))
      → P (continue k o).1
  continue-Keeps k (ok a, s) h hk = hk a s h
  continue-Keeps k (fault f, s) h hk = h

  pub bind-Keeps :
      {A B : Type 0} (m : Exec S A) (k : A → Exec S B)
      → Keeps m
      → ((a : A) → Keeps (k a))
      → Keeps (m >>= k)
  bind-Keeps m k hm hk s h = continue-Keeps k (m s) (hm s h) hk

  pub if-Keeps :
      {A : Type 0} (b : Bool) (m k : Exec S A) → Keeps m → Keeps k → Keeps (if b then m else k)
  if-Keeps true m k hm hk = hm
  if-Keeps false m k hm hk = hk

  pub or_raise-Keeps : {A : Type 0} (f : Fault) (o : Option A) → Keeps (or_raise f o)
  or_raise-Keeps f none s h = h
  or_raise-Keeps f (some a) s h = h

  -- The part behind a guard keeps it, given that the guard let it through.
  pub guard-Keeps :
      {A : Type 0} (b : Bool) (m k : Exec S A)
      → Keeps m
      → (b ≡ false → Keeps k)
      → Keeps (if b then m else k)
  guard-Keeps true m k hm hk = hm
  guard-Keeps false m k hm hk = hk refl
