-- ===== src/Exec/Fuel.antt =====
-- Results of code that does not run out of fuel, whatever else may end it.
use raspi_cctv_tcp_server.Prelude.{
  Bool, true, false, if◌then◌else◌, ◌≡◌, ◌≢◌, ◌⊎◌, inl, inr, refl, subst, Option, none, some,
}
use raspi_cctv_tcp_server.Exec.{
  Exec, Result, ok, fault, Fault, uncaught, null_text, null_pointer, no_fuel, exits, continue,
  ◌>>=◌, or_raise,
}

-- Results that are values, or faults of a kind.
module _ (Q : Fault → Type 0) where
  abbrev pub EndsIn : {A : Type 0} → Result A → Type 0
  EndsIn (ok a) = Unit
  EndsIn (fault f) = Q f

  abbrev pub AlwaysEndsIn : {S A : Type 0} → Exec S A → Type 0
  AlwaysEndsIn {S} m = (s : S) → EndsIn (m s).0

  module _ {S : Type 0} where
    pub continue-EndsIn :
        {A B : Type 0} (k : A → Exec S B) (o : Result A × S)
        → EndsIn o.0
        → ((a : A) → AlwaysEndsIn (k a))
        → EndsIn (continue k o).0
    continue-EndsIn k (ok a, s) h hk = hk a s
    continue-EndsIn k (fault f, s) h hk = h

    pub bind-EndsIn :
        {A B : Type 0} (m : Exec S A) (k : A → Exec S B)
        → AlwaysEndsIn m
        → ((a : A) → AlwaysEndsIn (k a))
        → AlwaysEndsIn (m >>= k)
    bind-EndsIn m k hm hk s = continue-EndsIn k (m s) (hm s) hk

    pub if-EndsIn :
        {A : Type 0} (b : Bool) (m k : Exec S A)
        → AlwaysEndsIn m
        → AlwaysEndsIn k
        → AlwaysEndsIn (if b then m else k)
    if-EndsIn true m k hm hk = hm
    if-EndsIn false m k hm hk = hk

    pub guard-EndsIn :
        {A : Type 0} (b : Bool) (m k : Exec S A)
        → AlwaysEndsIn m
        → (b ≡ false → AlwaysEndsIn k)
        → AlwaysEndsIn (if b then m else k)
    guard-EndsIn true m k hm hk = hm
    guard-EndsIn false m k hm hk = hk refl

    pub or_raise-EndsIn :
        {A : Type 0} (o : Option A) → Q uncaught → AlwaysEndsIn (or_raise {S = S} uncaught o)
    or_raise-EndsIn none h s = h
    or_raise-EndsIn (some a) h s = tt

-- An exception that no caller catches, and no other fault.
abbrev pub IsThrow : Fault → Type 0
IsThrow uncaught = Unit
IsThrow _ = ⊥

pub IsThrow-EndsIn :
    {A : Type 0} (Q : Fault → Type 0) → Q uncaught → (r : Result A) → EndsIn IsThrow r → EndsIn Q r
IsThrow-EndsIn Q q (ok a) h = tt
IsThrow-EndsIn Q q (fault uncaught) h = q
IsThrow-EndsIn Q q (fault null_text) h = absurd h
IsThrow-EndsIn Q q (fault null_pointer) h = absurd h
IsThrow-EndsIn Q q (fault no_fuel) h = absurd h
IsThrow-EndsIn Q q (fault (exits n)) h = absurd h

-- Any fault but that of a loop without fuel.
abbrev pub IsReal : Fault → Type 0
IsReal no_fuel = ⊥
IsReal _ = Unit

abbrev pub Fuelled : {A : Type 0} → Result A → Type 0
Fuelled r = EndsIn IsReal r

pub Fuelled-no_fuel : {A : Type 0} (r : Result A) → Fuelled r → r ≢ fault no_fuel
Fuelled-no_fuel {A} r h e = subst (λ (x : Result A). Fuelled x) e h

pub Result-cases :
    {A : Type 0} (r : Result A) → ((a : A) × (r ≡ ok a)) ⊎ ((f : Fault) × (r ≡ fault f))
Result-cases (ok a) = inl (a, refl)
Result-cases (fault f) = inr (f, refl)
