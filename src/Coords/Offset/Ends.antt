-- ===== src/Coords/Offset/Ends.antt =====
-- Where an offset along an axis ends.
use clone_craft.Base.{◌≡◌, refl, sym, Option, none, some}
use clone_craft.Base.Int.{ℤ}
use clone_craft.Coords.Axis.{AxisAddress, and_then_some}

-- A change of the address that an offset finds can be made at its end.
module _ (k : AxisAddress → AxisAddress) where
  at_sector :
      (o : Option ℤ) (f : ℤ → AxisAddress)
      → and_then_some (and_then_some o (λ s. some (f s))) (λ c. some (k c))
        ≡ and_then_some o (λ s. some (k (f s)))
  at_sector none f = refl
  at_sector (some s) f = refl

  module _ (q : ℤ → Option ℤ) where
    at_region :
        (o : Option (ℤ × ℤ)) (f : ℤ → ℤ → AxisAddress)
        → and_then_some
            (and_then_some o (λ (r, c). and_then_some (q c) (λ s. some (f r s))))
            (λ c. some (k c))
          ≡ and_then_some o (λ (r, c). and_then_some (q c) (λ s. some (k (f r s))))
    at_region none f = refl
    at_region (some (r, c)) f = at_sector (q c) (f r)

    module _ (p : ℤ → Option (ℤ × ℤ)) where
      at_section :
          (o : Option (ℤ × ℤ)) (f : ℤ → ℤ → ℤ → AxisAddress)
          → and_then_some
              (and_then_some o (λ (x, c).
                and_then_some (p c) (λ (r, d). and_then_some (q d) (λ s. some (f x r s)))))
              (λ c. some (k c))
            ≡ and_then_some o (λ (x, c).
              and_then_some (p c) (λ (r, d). and_then_some (q d) (λ s. some (k (f x r s)))))
      at_section none f = refl
      at_section (some (x, c)) f = at_region (p c) (f x)

      module _ (n : ℤ → Option (ℤ × ℤ)) where
        at_group :
            (o : Option (ℤ × ℤ)) (f : ℤ → ℤ → ℤ → ℤ → AxisAddress)
            → and_then_some
                (and_then_some o (λ (g, b). and_then_some (n b) (λ (x, c).
                  and_then_some (p c) (λ (r, d). and_then_some (q d) (λ s. some (f g x r s))))))
                (λ c. some (k c))
              ≡ and_then_some o (λ (g, b). and_then_some (n b) (λ (x, c).
                and_then_some (p c) (λ (r, d). and_then_some (q d) (λ s. some (k (f g x r s))))))
        at_group none f = refl
        at_group (some (g, b)) f = at_section (n b) (f g)

        pub at_chunk :
            (o : Option ℤ) (y : ℤ) (m : ℤ → Option (ℤ × ℤ)) (f : ℤ → ℤ → ℤ → ℤ → ℤ → AxisAddress)
            → and_then_some (and_then_some {B = ℤ × ℤ} o (λ a. some (y, a))) (λ (h, a).
              and_then_some (m a) (λ (g, b). and_then_some (n b) (λ (x, c).
                and_then_some (p c) (λ (r, d). and_then_some (q d) (λ s. some (k (f h g x r s)))))))
              ≡ and_then_some
                  (and_then_some o (λ a. and_then_some (m a) (λ (g, b).
                    and_then_some (n b) (λ (x, c).
                      and_then_some
                        (p c)
                        (λ (r, d). and_then_some (q d) (λ s. some (f y g x r s)))))))
                  (λ c. some (k c))
        at_chunk none y m f = refl
        at_chunk (some a) y m f = sym (at_group (m a) (f y))
