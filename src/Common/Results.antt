-- ===== src/Common/Results.antt =====
-- Code that may throw: a result, and a state beside it that keeps what was written before a throw.
use mathlib.Core.Path.{◌≡◌, refl, ap}
use mathlib.Core.Bool.{Bool, true, false, ◌&&◌}

pub data Result {ℓ κ} (E : Type ℓ) (A : Type κ) : Type (ℓ ⊔ κ) where
  ok : A → Result E A
  err : E → Result E A

-- `if (!test) throw e`
abbrev pub guard {ℓ} : {E : Type ℓ} → Bool → E → Result E (Unit {0})
guard true e = ok tt
guard false e = err e

infixl 5 ◌>>=◌ ◌>>◌
abbrev pub ◌>>=◌ {ℓ κ μ} :
    {E : Type ℓ} {A : Type κ} {B : Type μ} → Result E A → (A → Result E B) → Result E B
ok a >>= f = f a
err e >>= f = err e

abbrev pub ◌>>◌ {ℓ κ} : {E : Type ℓ} {B : Type κ} → Result E (Unit {0}) → Result E B → Result E B
m >> k = m >>= λ _. k

-- Whether it returned.
abbrev pub is_ok {ℓ κ} : {E : Type ℓ} {A : Type κ} → Result E A → Bool
is_ok (ok a) = true
is_ok (err e) = false

pub is_ok->>= {ℓ κ μ} :
    {E : Type ℓ} {A : Type κ} {B : Type μ} (m : Result E A) (f g : A → Result E B)
    → ((a : A) → is_ok (f a) ≡ is_ok (g a))
    → is_ok (m >>= f) ≡ is_ok (m >>= g)
is_ok->>= (ok a) f g h = h a
is_ok->>= (err e) f g h = refl

pub is_ok-both {ℓ κ μ ν} :
    {E : Type ℓ} {A : Type κ} {B : Type μ} {D : Type ν} (m : Result E A) (n : Result E B)
    (g : A → B → D)
    → is_ok (m >>= λ a. n >>= λ b. ok (g a b)) ≡ (is_ok m && is_ok n)
is_ok-both (ok a) (ok b) g = refl
is_ok-both (ok a) (err e) g = refl
is_ok-both (err e) n g = refl

-- Inversion of what returned: each step before it returned.
pub >>=-eq-ok {ℓ κ μ} :
    {E : Type ℓ} {A : Type κ} {B : Type μ} (step : Result E A) (rest : A → Result E B) {c : B}
    → step >>= rest ≡ ok c
    → (x : A) × (step ≡ ok x) × (rest x ≡ ok c)
>>=-eq-ok (err fault) rest e = cc
>>=-eq-ok (ok x) rest e = (x, refl, e)

pub guard-eq-ok {ℓ κ} :
    {E : Type ℓ} {B : Type κ} (t : Bool) (e : E) (k : Result E B) {b : B}
    → (guard t e >> k) ≡ ok b
    → (t ≡ true) × (k ≡ ok b)
guard-eq-ok true e k h = (refl, h)
guard-eq-ok false e k h = cc

-- The same over a state, which keeps what was written before the throw.
abbrev pub and_then {ℓ κ μ ν} :
    {E : Type ℓ} {A : Type κ} {B : Type μ} {S : Type ν}
    → Result E A × S
    → (A → S → Result E B × S)
    → Result E B × S
and_then (ok a, s) f = f a s
and_then (err e, s) f = (err e, s)

-- What holds of a step and of what follows it, told apart by whether the step threw.
pub and_then-elim {ℓ κ μ ν τ} :
    {E : Type ℓ} {A : Type κ} {B : Type μ} {S : Type ν} (P : Result E B × S → Type τ)
    (x : Result E A × S) (f : A → S → Result E B × S)
    → ((e : E) → x.0 ≡ err e → P (err e, x.1))
    → ((a : A) → x.0 ≡ ok a → P (f a x.1))
    → P (and_then x f)
and_then-elim P (ok a, s) f threw returned = returned a refl
and_then-elim P (err e, s) f threw returned = threw e refl

pub and_then-eq-ok {ℓ κ μ ν} :
    {E : Type ℓ} {A : Type κ} {B : Type μ} {S : Type ν} (x : Result E A × S)
    (f : A → S → Result E B × S) {b : B} {t : S}
    → and_then x f ≡ (ok b, t)
    → (a : A) × (x.0 ≡ ok a) × (f a x.1 ≡ (ok b, t))
and_then-eq-ok (ok a, s) f h = (a, refl, h)
and_then-eq-ok (err e, s) f h = absurd (cc (ap (λ x. x.0) h))

pub and_then-ok {ℓ κ μ ν} :
    {E : Type ℓ} {A : Type κ} {B : Type μ} {S : Type ν} (x : Result E A × S)
    (f : A → S → Result E B × S) (a : A)
    → x.0 ≡ ok a
    → and_then x f ≡ f a x.1
and_then-ok (ok c, s) f a h = cc
and_then-ok (err e, s) f a h = absurd (cc (h))
