-- ===== src/Flow.antt =====
-- A function body with early returns and panics, over a state that it changes: `go` passes a value
-- on, `stop` is a return with its result, `crash` a panic. The state is kept in every case.
use fabric_byzantine.Base.{◌≡◌, ◌⊎◌, inl, inr, refl, ap, Option, none, some}

pub data Flow (R A : Type 0) : Type 0 where
  go : A → Flow R A
  stop : R → Flow R A
  crash : Flow R A

abbrev pub Body : Type 0 → Type 0 → Type 0 → Type 0
Body S R A = S → Flow R A × S

abbrev pub go_on : {S R A B : Type 0} → Flow R A → (A → Body S R B) → Body S R B
go_on (go a) f s = f a s
go_on (stop r) f s = (stop r, s)
go_on crash f s = (crash, s)

infixl 5 ◌>>=◌ ◌>>◌
abbrev pub ◌>>=◌ : {S R A B : Type 0} → Body S R A → (A → Body S R B) → Body S R B
◌>>=◌ m f s = let (r, s') = m s in go_on r f s'

abbrev pub ◌>>◌ : {S R A B : Type 0} → Body S R A → Body S R B → Body S R B
m >> k = m >>= λ _. k

-- A body that starts with a step that goes on.
pub bind-go :
    {S R A B : Type 0} (m : Body S R A) (f : A → Body S R B) (a : A) (s s' : S)
    → m s ≡ (go a, s')
    → (m >>= f) s ≡ f a s'
bind-go m f a s s' e = ap (λ r. go_on r.0 f r.1) e

abbrev pub pure : {S R A : Type 0} → A → Body S R A
pure a s = (go a, s)

abbrev pub return : {S R A : Type 0} → R → Body S R A
return r s = (stop r, s)

abbrev pub modify : {S R : Type 0} → (S → S) → Body S R (Unit {0})
modify f s = (go tt, f s)

abbrev pub lift : {S R A : Type 0} → Flow R A → Body S R A
lift r s = (r, s)

-- A value, or the panic of an index out of range.
abbrev pub or_crash : {S R A : Type 0} → Option A → Body S R A
or_crash none s = (crash, s)
or_crash (some a) s = (go a, s)

-- A value or an error, as `x, err := f()`.
pub data Outcome (E A : Type 0) : Type 0 where
  ok : A → Outcome E A
  err : E → Outcome E A

-- `if err != nil { return … }`
abbrev pub or_return : {S R E A : Type 0} → Outcome E A → (E → R) → Body S R A
or_return (ok a) f s = (go a, s)
or_return (err e) f s = (stop (f e), s)

pub Outcome-cases :
    {E A : Type 0} (o : Outcome E A) → ((a : A) × (o ≡ ok a)) ⊎ ((e : E) × (o ≡ err e))
Outcome-cases (ok a) = inl (a, refl)
Outcome-cases (err e) = inr (e, refl)

pub Flow-cases :
    {R A : Type 0} (r : Flow R A)
    → ((a : A) × (r ≡ go a)) ⊎ (((b : R) × (r ≡ stop b)) ⊎ (r ≡ crash))
Flow-cases (go a) = inl (a, refl)
Flow-cases (stop b) = inr (inl (b, refl))
Flow-cases crash = inr (inr refl)
