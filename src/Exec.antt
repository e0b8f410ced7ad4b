-- ===== src/Exec.antt =====
-- Code that changes a state and may throw. What was written before a throw stays written, so the
-- state comes back beside the error too.
pub mod Frame
use clone_craft.Comm.Error.{Error}
use clone_craft.Base.{◌≡◌, refl, ap, Bool, true, false, arith}

pub data Result {ℓ} (A : Type ℓ) : Type ℓ where
  ok : A → Result A
  err : Error → Result A

-- Pure code that may throw.
abbrev pub and_then {ℓ κ} : {A : Type ℓ} {B : Type κ} → Result A → (A → Result B) → Result B
and_then (ok a) f = f a
and_then (err e) f = err e

-- `if( !test ) throw e; rest`
abbrev pub require {ℓ} : {A : Type ℓ} → Bool → Error → Result A → Result A
require true e rest = rest
require false e rest = err e

abbrev pub Exec : Type 0 → Type 0 → Type 0
Exec S A = S → Result A × S

module _ {S A B : Type 0} where
  continue : Result A → (A → Exec S B) → Exec S B
  continue (ok a) f s = f a s
  continue (err e) f s = (err e, s)

  infixl 5 ◌>>=◌ ◌>>◌
  unfoldable pub ◌>>=◌ : Exec S A → (A → Exec S B) → Exec S B
  unfolding continue
  ◌>>=◌ m f s = let (r, s') = m s in continue r f s'

  unfoldable pub ◌>>◌ : Exec S A → Exec S B → Exec S B
  unfolding ◌>>=◌
  m >> n = m >>= λ _. n

module _ {S A : Type 0} where
  abbrev pub pure : A → Exec S A
  pure a s = (ok a, s)

  abbrev pub throw : Error → Exec S A
  throw e s = (err e, s)

  abbrev pub lift : Result A → Exec S A
  lift r s = (r, s)

abbrev pub guard : {S : Type 0} → Bool → Error → Exec S (Unit {0})
guard b e = elim b [ true ↦ pure tt | false ↦ throw e ]

-- A successful run is the successful run of its parts.
module _ {S A B : Type 0} where
  bind_inversion :
      (r : Result A × S) (f : A → Exec S B) (b : B) (s'' : S)
      → continue r.0 f r.1 ≡ (ok b, s'')
      → (a : A) × (s' : S) × (r ≡ (ok a, s')) × (f a s' ≡ (ok b, s''))
  unfolding continue
  bind_inversion (ok a, s') f b s'' h = (a, s', refl, h)
  bind_inversion (err e, s') f b s'' h = absurd (ground arith)

  pub >>=-eq-ok :
      (m : Exec S A) (f : A → Exec S B) (s : S) (b : B) (s'' : S)
      → (m >>= f) s ≡ (ok b, s'')
      → (a : A) × (s' : S) × (m s ≡ (ok a, s')) × (f a s' ≡ (ok b, s''))
  unfolding ◌>>=◌
  >>=-eq-ok m f s b s'' h = bind_inversion (m s) f b s'' h

  pub >>-eq-ok :
      (m : Exec S A) (n : Exec S B) (s : S) (b : B) (s'' : S)
      → (m >> n) s ≡ (ok b, s'')
      → (a : A) × (s' : S) × (m s ≡ (ok a, s')) × (n s' ≡ (ok b, s''))
  unfolding ◌>>◌
  >>-eq-ok m n s b s'' h = >>=-eq-ok m (λ _. n) s b s'' h

-- A run goes on from what its first part returns, and ends where that throws.
module _ {S A B : Type 0} where
  pub >>=-ok :
      (m : Exec S A) (f : A → Exec S B) (s t : S) (a : A) → m s ≡ (ok a, t) → (m >>= f) s ≡ f a t
  unfolding ◌>>=◌
  >>=-ok m f s t a h = ap (λ r. continue r.0 f r.1) h

  pub >>=-err :
      (m : Exec S A) (f : A → Exec S B) (s t : S) (x : Error)
      → m s ≡ (err x, t)
      → (m >>= f) s ≡ (err x, t)
  unfolding ◌>>=◌
  >>=-err m f s t x h = ap (λ r. continue r.0 f r.1) h

  pub >>-ok : (m : Exec S A) (n : Exec S B) (s t : S) (a : A) → m s ≡ (ok a, t) → (m >> n) s ≡ n t
  unfolding ◌>>◌
  >>-ok m n s t a h = >>=-ok m (λ _. n) s t a h

-- A check that changes nothing, and then the rest.
module _ {S A B : Type 0} where
  abbrev pub proceed : Result A → Exec S B → Exec S B
  proceed (ok a) n s = n s
  proceed (err e) n s = (err e, s)

  pub >>-lift : (r : Result A) (n : Exec S B) (s : S) → (lift r >> n) s ≡ proceed r n s
  unfolding ◌>>◌
  >>-lift (ok a) n s = refl
  >>-lift (err e) n s = refl

pub and_then-eq-ok :
    {A B : Type 0} (r : Result A) (f : A → Result B) (b : B)
    → and_then r f ≡ ok b
    → (a : A) × (r ≡ ok a) × (f a ≡ ok b)
and_then-eq-ok (ok a) f b h = (a, refl, h)
and_then-eq-ok (err e) f b h = absurd (ground arith)

pub lift_inversion :
    {S A : Type 0} (r : Result A) (a : A) (s s' : S) → lift r s ≡ (ok a, s') → (r ≡ ok a) × (s ≡ s')
lift_inversion r a s s' h = (ap (λ p. p.0) h, ap (λ p. p.1) h)

pub require-eq-ok :
    {A : Type 0} (b : Bool) (e : Error) (r : Result A) (a : A)
    → require b e r ≡ ok a
    → (b ≡ true) × (r ≡ ok a)
require-eq-ok true e r a h = (refl, h)
require-eq-ok false e r a h = absurd (ground arith)

pub ok_injective : {A : Type 0} {a b : A} → ◌≡◌ {A = Result A} (ok a) (ok b) → a ≡ b
ok_injective {a = a} h = ap (λ r. value a r) h
  where
    value : {A : Type 0} → A → Result A → A
    value d (ok x) = x
    value d (err e) = d
