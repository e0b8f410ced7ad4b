-- ===== src/World/Commands/Register.antt =====
-- `registerBlockCommandHandlers`: the routes of the handlers.
use clone_craft.Base.{String, none, some}
use clone_craft.Exec.{Result, and_then, Exec, ◌>>◌}
use clone_craft.Comm.Envelope.{command}
use clone_craft.Comm.Schema.{PayloadSchema, block_place, no_payload, property_set}
use clone_craft.Comm.Router.{Router, register_route}
use clone_craft.Comm.Runtime.{Bus}
use clone_craft.Comm.Runtime.Register.{Dimensions, register_handler}
use clone_craft.World.Commands
use clone_craft.World.Commands.{BlockCommand}

abbrev pub action_of : BlockCommand → String
action_of Commands.block_place = "core:block.place"
action_of Commands.block_remove = "core:block.remove"
action_of Commands.property_set = "core:property.set"

abbrev pub schema_of : BlockCommand → PayloadSchema
schema_of Commands.block_place = block_place
schema_of Commands.block_remove = no_payload
schema_of Commands.property_set = property_set

-- The address that the commands are bound to.
abbrev pub dimensions : BlockCommand → Dimensions
dimensions h = record {
  action = action_of h;
  kind = command;
  receiver = some "world:state";
  context = some "core:world";
  capability = none;
}

module _ {T : Type 0} where
  route : BlockCommand → Router BlockCommand T → Result (Router BlockCommand T)
  route h =
      register_route (action_of h) command (some h) (some "world:state") (some "core:world") none

  -- The router has no handler of properties.
  unfoldable pub register_on_router : Router BlockCommand T → Result (Router BlockCommand T)
  unfolding route
  register_on_router router =
      and_then (route Commands.block_place router) λ r. route Commands.block_remove r

  bind_command : BlockCommand → Exec (Bus BlockCommand T) (Unit {0})
  bind_command h = register_handler (dimensions h) (some h) (schema_of h) none

  unfoldable pub register_on_bus : Exec (Bus BlockCommand T) (Unit {0})
  unfolding bind_command
  register_on_bus =
      bind_command Commands.block_place
      >> bind_command Commands.block_remove
      >> bind_command Commands.property_set
