-- ===== src/Exec/Frame.antt =====
-- A relation between the state before and the state after, which every run keeps.
use clone_craft.Exec.{Result, ok, err, Exec, ◌>>=◌, ◌>>◌, continue}

module _ {S : Type 0} (R : S → S → Type 0) where
  abbrev pub Keeps : {A : Type 0} → Exec S A → Type 0
  Keeps m = (s : S) → R s (m s).1

  module _ (unchanged : (s : S) → R s s) (chain : (s t u : S) → R s t → R t u → R s u)
      {A B : Type 0} where
    continued :
        (r : Result A × S) (f : A → Exec S B) (s : S)
        → R s r.1
        → ((a : A) → Keeps (f a))
        → R s (continue r.0 f r.1).1
    unfolding continue
    continued (ok a, t) f s h k = chain s t (f a t).1 h (k a t)
    continued (err e, t) f s h k = h

    pub >>=-Keeps :
        (m : Exec S A) (f : A → Exec S B) → Keeps m → ((a : A) → Keeps (f a)) → Keeps (m >>= f)
    unfolding ◌>>=◌
    >>=-Keeps m f h k s = continued (m s) f s (h s) k

    pub >>-Keeps : (m : Exec S A) (n : Exec S B) → Keeps m → Keeps n → Keeps (m >> n)
    unfolding ◌>>◌
    >>-Keeps m n h k = >>=-Keeps m (λ _. n) h (λ _. k)
