-- ===== src/Registry/Sidecars.antt =====
-- Every registered sidecar type passes the validation.
use clone_craft.Base.{◌≡◌, String, true, some, arith, string_key}
use clone_craft.Assoc.{find, find-put, find-empty}
use clone_craft.Values.{SidecarDef, value_fits_sidecar_def}
use clone_craft.Exec.{ok, and_then-eq-ok}
use clone_craft.Registry.{SidecarRegistry, new, insert, insert_sidecar, validate_sidecar_def}
use clone_craft.Registry.Order.{IsOrdered, new-IsOrdered, insert-IsOrdered}
use clone_craft.Registry.Claims.{insert-fresh}

pub record IsChecked (r : SidecarRegistry) : Type 0 where
  pub ordered : IsOrdered r
  pub valid :
      (id : String) (def : SidecarDef)
      → find id r.entries ≡ some def
      → (validate_sidecar_def def ≡ ok tt) × (def.id ≡ id)

-- A sidecar type that is accepted keeps all types of the registry valid and under their own ids.
pub insert_sidecar-IsChecked :
    (def : SidecarDef) (r r' : SidecarRegistry)
    → IsChecked r
    → insert_sidecar def r ≡ ok r'
    → IsChecked r'
unfolding insert_sidecar
insert_sidecar-IsChecked def r r' v h =
    let (u, checked, added) =
      and_then-eq-ok (validate_sidecar_def def) (λ _. insert def.id def r) r' h in
    let (fresh, entries) = insert-fresh def.id def r r' added in
    record {
      ordered = insert-IsOrdered def.id def r r' v.ordered added;
      valid = λ id d found.
          ground (arith, found, entries, checked, find-put def.id id def r.entries, v.valid id d);
    }

-- The default of a valid type fits it.
pub default-fits :
    (def : SidecarDef)
    → validate_sidecar_def def ≡ ok tt
    → value_fits_sidecar_def def def.default_value ≡ true
unfolding validate_sidecar_def
default-fits def h = ground (arith, h)

pub new-IsChecked : IsChecked new
new-IsChecked = record {
  ordered = new-IsOrdered;
  valid = λ id def h. absurd (ground (arith, h, find-empty {V = SidecarDef} id));
}
