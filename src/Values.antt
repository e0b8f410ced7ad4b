-- ===== src/Values.antt =====
-- world/registry/Registry.h: `PropertyValue`, a sum of a uint32 and a float, with the `==` of the
-- variant. A float is its IEEE 754 bit pattern, below 2 ^ 32: NaN equals nothing, and the two
-- zeros are equal. Below it the registered sidecar types and the test whether a value fits one.
use clone_craft.Base.{
  ℕ, ◌/◌, ◌%◌, ◌^◌, String, Bool, true, false, not, ◌&&◌, ◌||◌, ltb, leb, ◌==◌, if◌then◌else◌,
  ℕ_discrete,
}

pub data PropertyValue : Type 0 where
  uint32 : ℕ → PropertyValue
  float32 : ℕ → PropertyValue

abbrev pub exponent : ℕ → ℕ
exponent bits = bits / 2 ^ 23 % 256

abbrev pub mantissa : ℕ → ℕ
mantissa bits = bits % 2 ^ 23

-- `std::isfinite`
abbrev pub is_finite : ℕ → Bool
is_finite bits = not (exponent bits == 255)

abbrev pub is_nan : ℕ → Bool
is_nan bits = exponent bits == 255 && not (mantissa bits == 0)

abbrev pub is_zero : ℕ → Bool
is_zero bits = bits % 2 ^ 31 == 0

abbrev pub float_eq : ℕ → ℕ → Bool
float_eq a b = not (is_nan a) && not (is_nan b) && (a == b || is_zero a && is_zero b)

unfoldable pub value_eq : PropertyValue → PropertyValue → Bool
value_eq (uint32 a) (uint32 b) = a == b
value_eq (float32 a) (float32 b) = float_eq a b
value_eq (uint32 a) (float32 b) = false
value_eq (float32 a) (uint32 b) = false

-- Each enumeration has a last constructor for the values that a cast can forge.
pub data SidecarValueType : Type 0 where
  uint8_type uint16_type uint32_type float_type : SidecarValueType
  forged_type : ℕ → SidecarValueType

pub data SidecarScope : Type 0 where
  block chunk chunk_group section region sector : SidecarScope
  forged_scope : ℕ → SidecarScope

pub data SidecarStorageStrategy : Type 0 where
  sparse dense : SidecarStorageStrategy
  forged_storage : ℕ → SidecarStorageStrategy

unfoldable pub SidecarScope-discrete : Discrete SidecarScope
unfolding ℕ_discrete
SidecarScope-discrete = hlevel ℕ_discrete

pub record SidecarDef : Type 0 where
  pub id : String
  pub display_name : String
  pub value_type : SidecarValueType
  pub scope : SidecarScope
  pub default_value : PropertyValue
  pub bit_width : ℕ
  pub storage : SidecarStorageStrategy
  pub persist : Bool
  pub serialization_version : ℕ

fits_width : ℕ → ℕ → Bool
fits_width width v = if width == 0 then true else if leb 32 width then true else ltb v (2 ^ width)

fits_type : SidecarValueType → ℕ → PropertyValue → Bool
unfolding fits_width
fits_type float_type width (float32 bits) = is_finite bits
fits_type float_type width (uint32 v) = false
fits_type uint8_type width (uint32 v) = leb v 0xff && fits_width width v
fits_type uint16_type width (uint32 v) = leb v 0xffff && fits_width width v
fits_type uint32_type width (uint32 v) = fits_width width v
fits_type (forged_type n) width (uint32 v) = false
fits_type uint8_type width (float32 bits) = false
fits_type uint16_type width (float32 bits) = false
fits_type uint32_type width (float32 bits) = false
fits_type (forged_type n) width (float32 bits) = false

unfoldable pub value_fits_sidecar_def : SidecarDef → PropertyValue → Bool
unfolding fits_type
value_fits_sidecar_def def value = fits_type def.value_type def.bit_width value
