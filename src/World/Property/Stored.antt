-- ===== src/World/Property/Stored.antt =====
-- What a write of a value leaves of an override, and what the target shows then.
use clone_craft.Base.{◌≡◌, ◌≢◌, ◌⊎◌, inl, inr, true, false, Option, none, some, arith, Bool-cases}
use clone_craft.Values.{
  PropertyValue, uint32, float32, value_eq, SidecarDef, SidecarValueType, value_fits_sidecar_def,
  float_type, uint8_type, uint16_type, uint32_type, forged_type,
}
use clone_craft.Chunks.Manager.Properties.{reports, left}
use clone_craft.World.Property.{or_default, delta}

-- A value that fits a type equals itself, so it is not a NaN.
pub fits-value_eq :
    (def : SidecarDef) (v : PropertyValue)
    → value_fits_sidecar_def def v ≡ true
    → value_eq v v ≡ true
unfolding value_fits_sidecar_def value_eq
fits-value_eq def (uint32 a) h = ground arith
fits-value_eq def (float32 bits) h = at def.value_type h
  where
    at :
        (k : SidecarValueType)
        → value_fits_sidecar_def (record def { value_type = k }) (float32 bits) ≡ true
        → value_eq (float32 bits) (float32 bits) ≡ true
    at float_type e = ground (arith, e)
    at uint8_type e = absurd (ground (arith, e))
    at uint16_type e = absurd (ground (arith, e))
    at uint32_type e = absurd (ground (arith, e))
    at (forged_type n) e = absurd (ground (arith, e))

value_eq-sym : (v w : PropertyValue) → value_eq v w ≡ true → value_eq w v ≡ true
unfolding value_eq
value_eq-sym (uint32 a) (uint32 b) h = ground (arith, h)
value_eq-sym (float32 a) (float32 b) h = ground (arith, h)
value_eq-sym (uint32 a) (float32 b) h = absurd (ground (arith, h))
value_eq-sym (float32 a) (uint32 b) h = absurd (ground (arith, h))

module _ (v d : PropertyValue) where
  pub left-shows :
      (old : Option PropertyValue)
      → value_eq v v ≡ true
      → value_eq (or_default (left v d old) d) v ≡ true
  left-shows none h = elim (Bool-cases (value_eq v d)) [
    | inl e ↦ rw e (value_eq-sym v d e)
    | inr e ↦ rw e h
  ]
  left-shows (some o) h = elim (Bool-cases (value_eq v d)) [
    | inl e ↦ rw e (value_eq-sym v d e)
    | inr e ↦ rw e (elim (Bool-cases (value_eq o v)) [ inl f ↦ rw f f | inr f ↦ rw f h ])
  ]

  pub left-quiet : (old : Option PropertyValue) → reports v d old ≡ false → left v d old ≡ old
  left-quiet none h = ground (arith, h)
  left-quiet (some o) h = ground (arith, h)

  -- A write that reports a change leaves another override, which is the one that the sink hears of.
  pub left-loud :
      (old : Option PropertyValue)
      → value_eq v v ≡ true
      → reports v d old ≡ true
      → left v d old ≢ old
  left-loud none h told e = elim (Bool-cases (value_eq v d)) [
    | inl eq ↦ absurd (ground (arith, told, eq))
    | inr eq ↦ absurd (ground (arith, e, eq))
  ]
  left-loud (some o) h told e = elim (Bool-cases (value_eq v d)) [
    | inl eq ↦ absurd (ground (arith, e, eq))
    | inr eq ↦ elim (Bool-cases (value_eq o v)) [
      | inl held ↦ absurd (ground (arith, told, eq, held))
      | inr held ↦ absurd (ground (arith, held, h, e, eq))
    ]
  ]

  pub left-delta : (old : Option PropertyValue) → reports v d old ≡ true → left v d old ≡ delta v d
  left-delta none h = ground (arith, h)
  left-delta (some o) h = ground (arith, h)

  pub left-some :
      (old : Option PropertyValue) (y : PropertyValue)
      → left v d old ≡ some y
      → (old ≡ some y) ⊎ (v ≡ y)
  left-some none y h = ground (arith, h)
  left-some (some o) y h = ground (arith, h)
