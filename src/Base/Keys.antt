-- ===== src/Base/Keys.antt =====
-- Keys with decidable equality, as an interface; `same` is the test that the containers make.
use Prim.Native.Nat.{ℕ}
use Prim.Native.String.{String}
use mathlib.Core.Path.{◌≡◌, refl}
use mathlib.Core.Bool.{Bool, true, false}
use native.Mathlib.Decide.{ℕ_discrete}
use text.Mathlib.Text.{◌==◌}
use text.Mathlib.TextEquality.{eq_iff}

pub record Key {ℓ} (A : Type ℓ) : Type ℓ where
  pub eq? : Discrete A

dec_true : (b : Bool) → Dec (b ≡ true)
dec_true true = yes refl
dec_true false = no (λ e. cc)

dec_text : (s t : String) → Dec ((s == t) ≡ true) → Dec (s ≡ t)
dec_text s t (yes h) = yes ((eq_iff s t).0 h)
dec_text s t (no h) = no (λ e. h ((eq_iff s t).1 e))

unfoldable pub String-discrete : Discrete String
unfolding dec_true dec_text
String-discrete s t = dec_text s t (dec_true (s == t))

instance abbrev pub string_key : Key String
string_key = record { eq? = String-discrete }

instance abbrev pub nat_key : Key ℕ
nat_key = record { eq? = ℕ_discrete }

-- The decision that containers branch on.
abbrev pub same {ℓ} : {A : Type ℓ} ⦃k : Key A⦄ → Discrete A
same ⦃k⦄ = k.eq?
