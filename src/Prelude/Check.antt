-- ===== src/Prelude/Check.antt =====
-- Results of checks that may raise, and their sequencing.
use recon_ai.Prelude.{Bool, true, false, ◌≡◌, refl}

-- A check that passes, or raises.
pub data Check (E A : Type 0) : Type 0 where
  ok : A → Check E A
  err : E → Check E A

infixl 5 ◌>>=◌ ◌>>◌
abbrev pub ◌>>=◌ : {E A B : Type 0} → Check E A → (A → Check E B) → Check E B
ok a >>= f = f a
err e >>= f = err e

abbrev pub ◌>>◌ : {E B : Type 0} → Check E (Unit {0}) → Check E B → Check E B
m >> k = m >>= λ _. k

abbrev pub raise_if : {E : Type 0} → Bool → E → Check E (Unit {0})
raise_if true e = err e
raise_if false e = ok tt

abbrev pub when : {E : Type 0} → Bool → Check E (Unit {0}) → Check E (Unit {0})
when true g = g
when false g = ok tt

-- A value that a chain of two checks gives comes from the first.
pub bind-ok :
    {E A B : Type 0} (m : Check E A) (f : A → Check E B) {b : B}
    → (m >>= f) ≡ ok b
    → (a : A) × (m ≡ ok a) × (f a ≡ ok b)
bind-ok (ok a) f h = (a, refl, h)
bind-ok (err e) f h = cc

-- What a passed guard says, and what comes after it.
pub guard-ok :
    {E B : Type 0} (b : Bool) (e : E) (k : Check E B) {r : B}
    → (raise_if b e >> k) ≡ ok r
    → (b ≡ false) × (k ≡ ok r)
guard-ok true e k h = cc
guard-ok false e k h = (refl, h)

pub ok_injective : {E A : Type 0} (a b : A) → ◌≡◌ {A = Check E A} (ok a) (ok b) → a ≡ b
ok_injective a b h = cc
