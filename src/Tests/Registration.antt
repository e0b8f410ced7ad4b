-- ===== src/Tests/Registration.antt =====
-- Each theorem on the registrations at a concrete bus.
use clone_craft.Base.{String-discrete, ℕ, ◌≡◌, refl, ◌⊎◌, true, false, none, some, string_key}
use clone_craft.Comm.Router.{has_route, matching}
use clone_craft.Text.{is_namespaced_id, to_string}
use clone_craft.Comm.Schema.{require_payload_schema, block_place, default_output_contract}
use clone_craft.Comm.Registries.{check_can_declare}
use clone_craft.Assoc.{find, put, empty, contains, find-empty}
use clone_craft.Exec.{ok, err}
use clone_craft.Comm.Error.{Error, duplicate_action}
use clone_craft.Comm.Envelope.{command}
use clone_craft.Comm.Runtime.{Bus, new_bus}
use clone_craft.Comm.Runtime.Inbound.{slot_for}
use clone_craft.Comm.Runtime.Register.{
  auto_action_id, register_handler, register_slot, check_handler_registration, value_or,
}
use clone_craft.Comm.Runtime.Register.Atomic.{
  register_handler-atomic, register_handler-collision, registered, collided,
}
use clone_craft.Comm.Runtime.Register.Slots.{register_slot-atomic, Settled}
use clone_craft.Comm.Runtime.Wiring.{
  IsWired, new_bus-IsWired, register_handler-IsWired, matching-slot_for, action_of,
}
use clone_craft.Tests.Sample.{guarded, place}

abbrev start : Bus ℕ ℕ
start = new_bus 4 4

fresh : find (auto_action_id "block:place" start) start.actions ≡ none
unfolding new_bus
fresh = find-empty {V = ℕ} _

register_handler-atomic_example :
    ((register_handler guarded (some 0) block_place none start).0 ≡ ok tt)
      × ((register_handler guarded (some 0) block_place none start).1
          ≡ registered guarded 0 block_place (default_output_contract command) start)
    ⊎ ((e : Error) × (register_handler guarded (some 0) block_place none start ≡ (err e, start)))
register_handler-atomic_example = register_handler-atomic guarded 0 block_place none start fresh

-- An executable that was registered by hand under the first automatic id.
abbrev taken : Bus ℕ ℕ
taken = record start { actions = put "block:place.0" 5 empty }

register_handler-collision_example :
    ((register_handler guarded (some 0) block_place none taken).0 ≡ err duplicate_action)
    × ((register_handler guarded (some 0) block_place none taken).1
        ≡ collided guarded 0 block_place (default_output_contract command) taken)
    × (find
          (auto_action_id "block:place" taken)
          (register_handler guarded (some 0) block_place none taken).1.actions
        ≡ none)
unfolding new_bus check_handler_registration check_can_declare require_payload_schema
    is_namespaced_id find empty default_output_contract has_route put String-discrete auto_action_id
    to_string
register_handler-collision_example =
    register_handler-collision guarded 0 block_place none taken quiet checked there
  where
    quiet : taken.trace_active ≡ false
    quiet = refl

    checked :
        check_handler_registration guarded (some 0) block_place (value_or none command) taken
        ≡ ok tt
    checked = refl

    there : contains (auto_action_id "block:place" taken) taken.actions ≡ true
    there = refl

register_slot-atomic_example :
    Settled guarded block_place "block:place.0"
      (default_output_contract command)
      taken
      (register_slot guarded block_place "block:place.0" none taken)
register_slot-atomic_example = register_slot-atomic guarded block_place "block:place.0" none taken

register_handler-IsWired_example :
    IsWired (register_handler guarded (some 0) block_place none start).1
register_handler-IsWired_example =
    register_handler-IsWired guarded 0 block_place none start fresh (new_bus-IsWired 4 4)

abbrev wired : Bus ℕ ℕ
wired = (register_handler guarded (some 0) block_place none start).1

matching-slot_for_example : matching place wired.router ≡ action_of (slot_for place wired)
matching-slot_for_example = matching-slot_for place wired register_handler-IsWired_example
