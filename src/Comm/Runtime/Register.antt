-- ===== src/Comm/Runtime/Register.antt =====
-- CommunicationRuntime.cpp: the registrations. Each validates first and then commits; a commit
-- that fails half way is rolled back. `std::function` and its target are an `Option H`.
pub mod Atomic
pub mod Slots
use Prim.Native.String.{◌++◌ as append}
use clone_craft.Base.{
  ℕ, ◌+◌, ◌%◌, ◌^◌, String, Bool, true, not, Option, none, some, if◌then◌else◌, string_key,
}
use clone_craft.Text.{is_namespaced_id, is_empty, to_string}
use clone_craft.Assoc.{Map, find, contains, put, erase, empty}
use clone_craft.Exec.{Result, ok, err, require, and_then, Exec, ◌>>◌}
use clone_craft.Comm.Error.{
  trace_reentrancy, bad_action_id, bad_slot_kind, no_signal, unknown_action, incompatible_schema,
  bad_output_kind, wildcard_or_namespaced, duplicate_slot, duplicate_route, empty_handler,
  empty_principal, bad_capability,
}
use clone_craft.Comm.Envelope.{
  CommunicationEnvelope, CommandResultPayload, EnvelopeKind, is_valid_envelope_kind, next_id,
  make_reply,
}
use clone_craft.Comm.Schema.{
  PayloadSchema, OutputContract, require_payload_schema, schema_accepts, default_output_contract,
}
use clone_craft.Comm.Route.{RouteKey, route_key}
use clone_craft.Comm.Registries.{
  SignalRegistry, SlotRegistry, ActionRegistry, SlotDefinition, check_can_declare, declare,
  has_signal, schema_of, erase_signal, insert_slot, insert_action,
}
use clone_craft.Comm.Router.{
  Router, route_of, wildcard_or_named, has_handler, register_route, has_route,
}
use clone_craft.Comm.Runtime.{Bus}

-- The dimensions of a slot or route: action, kind, receiver, context and capability.
pub record Dimensions : Type 0 where
  pub action : String
  pub kind : EnvelopeKind
  pub receiver : Option String
  pub context : Option String
  pub capability : Option String

abbrev pub key_for : Dimensions → RouteKey
key_for d = route_of d.action d.kind d.receiver d.context d.capability

abbrev pub value_or : Option OutputContract → EnvelopeKind → OutputContract
value_or none kind = default_output_contract kind
value_or (some contract) kind = contract

abbrev pub definition_of : Dimensions → PayloadSchema → String → OutputContract → SlotDefinition
definition_of d expected id contract = record {
  key = key_for d;
  expected = expected;
  action_id = id;
  contract = contract;
}

abbrev or_none : Option (Map String (Unit {0})) → Map String (Unit {0})
or_none none = empty
or_none (some m) = m

module _ {H T : Type 0} where
  -- `requireNoTraceReentrancy( ); …`
  abbrev pub unless_tracing : {A : Type 0} → Exec (Bus H T) A → Exec (Bus H T) A
  unless_tracing m b = if b.trace_active then (err trace_reentrancy, b) else m b

  set_signals : Result SignalRegistry → Exec (Bus H T) (Unit {0})
  set_signals (ok x) b = (ok tt, record b { signals = x })
  set_signals (err e) b = (err e, b)

  set_actions : Result (ActionRegistry H) → Exec (Bus H T) (Unit {0})
  set_actions (ok x) b = (ok tt, record b { actions = x })
  set_actions (err e) b = (err e, b)

  set_slots : Result SlotRegistry → Exec (Bus H T) (Unit {0})
  set_slots (ok x) b = (ok tt, record b { slots = x })
  set_slots (err e) b = (err e, b)

  set_router : Result (Router String ⊥) → Exec (Bus H T) (Unit {0})
  set_router (ok x) b = (ok tt, record b { router = x })
  set_router (err e) b = (err e, b)

  unfoldable pub declare_signal : String → EnvelopeKind → PayloadSchema → Exec (Bus H T) (Unit {0})
  unfolding set_signals
  declare_signal action kind schema =
      unless_tracing (λ b. set_signals (declare action kind schema b.signals) b)

  unfoldable pub register_action : String → Option H → Exec (Bus H T) (Unit {0})
  unfolding set_actions
  register_action id handler = unless_tracing λ b.
      if is_namespaced_id id
      then set_actions (insert_action id handler b.actions) b
      else (err bad_action_id, b)

  -- `bindRoute`
  bind_route : Dimensions → String → Exec (Bus H T) (Unit {0})
  unfolding set_router
  bind_route d id b =
      set_router
        (register_route d.action d.kind (some id) d.receiver d.context d.capability b.router) b

  unfoldable pub check_slot_registration :
      Dimensions → PayloadSchema → String → OutputContract → Bus H T → Result (Unit {0})
  check_slot_registration d expected id contract b =
      and_then (require_payload_schema expected true) λ _.
        require (is_valid_envelope_kind d.kind) bad_slot_kind (
          require (has_signal d.action d.kind b.signals) no_signal (
            require (contains id b.actions) unknown_action (
              and_then (schema_of d.action d.kind b.signals) λ signal_schema.
                require (schema_accepts signal_schema expected) incompatible_schema (
                  require (is_valid_envelope_kind contract.kind) bad_output_kind (
                    and_then (require_payload_schema contract.schema true) λ _.
                      require (wildcard_or_named d.context) wildcard_or_namespaced (
                        require (wildcard_or_named d.capability) wildcard_or_namespaced (
                          require (not (contains (key_for d) b.slots)) duplicate_slot (
                            require
                              (not (
                                has_route d.action d.kind d.receiver d.context d.capability
                                  b.router))
                              duplicate_route (ok tt)))))))))

  -- `catch( … ) { mSlots.erase( … ); throw; }`
  undo_slot : RouteKey → Result (Unit {0}) × Bus H T → Result (Unit {0}) × Bus H T
  undo_slot key (ok u, b) = (ok u, b)
  undo_slot key (err e, b) = (err e, record b { slots = erase key b.slots })

  commit_slot : Dimensions → SlotDefinition → Exec (Bus H T) (Unit {0})
  unfolding undo_slot bind_route set_slots
  commit_slot d definition b = elim (insert_slot definition b.slots) [
    | err e ↦ (err e, b)
    | ok slots ↦
        undo_slot definition.key (bind_route d definition.action_id (record b { slots = slots }))
  ]

  unfoldable pub register_slot :
      Dimensions → PayloadSchema → String → Option OutputContract → Exec (Bus H T) (Unit {0})
  unfolding commit_slot
  register_slot d expected id contract = unless_tracing λ b.
      elim (check_slot_registration d expected id (value_or contract d.kind) b) [
        | err e ↦ (err e, b)
        | ok _ ↦ commit_slot d (definition_of d expected id (value_or contract d.kind)) b
      ]

  -- The first phase of `registerHandler`.
  unfoldable pub check_handler_registration :
      Dimensions → Option H → PayloadSchema → OutputContract → Bus H T → Result (Unit {0})
  check_handler_registration d handler schema contract b =
      require (has_handler handler) empty_handler (
        and_then (check_can_declare d.action d.kind schema b.signals) λ _.
          require (wildcard_or_named d.context) wildcard_or_namespaced (
            require (wildcard_or_named d.capability) wildcard_or_namespaced (
              require (is_valid_envelope_kind contract.kind) bad_output_kind (
                and_then (require_payload_schema contract.schema true) λ _.
                  require (not (contains (key_for d) b.slots)) duplicate_slot (
                    require
                      (not (has_route d.action d.kind d.receiver d.context d.capability b.router))
                      duplicate_route (ok tt))))))

  -- `action + "." + std::to_string( mAutoActionCounter )`
  unfoldable pub auto_action_id : String → Bus H T → String
  auto_action_id action b = append action (append "." (to_string b.auto_action_counter))

  -- The four inserts in the `try` block.
  attempt : Dimensions → Option H → PayloadSchema → SlotDefinition → Exec (Bus H T) (Unit {0})
  unfolding set_signals set_actions set_slots bind_route
  attempt d handler schema definition = do
    λ b. set_signals (declare d.action d.kind schema b.signals) b
    λ b. set_actions (insert_action definition.action_id handler b.actions) b
    λ b. set_slots (insert_slot definition b.slots) b
    bind_route d definition.action_id

  -- The `catch` block.
  roll_back :
      Dimensions → SlotDefinition → Bool → Result (Unit {0}) × Bus H T → Result (Unit {0}) × Bus H T
  roll_back d definition signal_existed (ok u, b) = (ok u, b)
  roll_back d definition signal_existed (err e, b) = (
    err e,
    record b {
      actions = erase definition.action_id b.actions;
      slots = erase definition.key b.slots;
      signals = if signal_existed then b.signals else erase_signal d.action d.kind b.signals;
    },
  )

  commit_handler :
      Dimensions → Option H → PayloadSchema → OutputContract → Exec (Bus H T) (Unit {0})
  unfolding attempt roll_back
  commit_handler d handler schema contract b =
      let definition = definition_of d schema (auto_action_id d.action b) contract in
      roll_back d definition (has_signal d.action d.kind b.signals) (
        attempt d handler schema definition
          (record b { auto_action_counter = (b.auto_action_counter + 1) % 2 ^ 64 }))

  unfoldable pub register_handler :
      Dimensions → Option H → PayloadSchema → Option OutputContract → Exec (Bus H T) (Unit {0})
  unfolding commit_handler
  register_handler d handler schema contract = unless_tracing λ b.
      elim (check_handler_registration d handler schema (value_or contract d.kind) b) [
        | err e ↦ (err e, b)
        | ok _ ↦ commit_handler d handler schema (value_or contract d.kind) b
      ]

  unfoldable pub grant_capability : String → String → Exec (Bus H T) (Unit {0})
  grant_capability principal capability = unless_tracing λ b.
      if is_empty principal
      then (err empty_principal, b)
      else if is_namespaced_id capability
      then (
        ok tt,
        record b {
          capabilities =
              put principal (put capability tt (or_none (find principal b.capabilities)))
                b.capabilities;
        },
      )
      else (err bad_capability, b)

  unfoldable pub next_message_id : Exec (Bus H T) ℕ
  next_message_id =
      unless_tracing
        λ b. elim (next_id b.ids) [ err e ↦ (err e, b) | ok id ↦ (ok id, record b { ids = id }) ]

  unfoldable pub make_bus_reply :
      CommunicationEnvelope → CommandResultPayload → Exec (Bus H T) CommunicationEnvelope
  make_bus_reply cause result = unless_tracing λ b. elim (make_reply cause result b.ids) [
    | err e ↦ (err e, b)
    | ok (answer, id) ↦ (ok answer, record b { ids = id })
  ]

  unfoldable pub set_trace_sink : Option T → Exec (Bus H T) (Unit {0})
  set_trace_sink sink = unless_tracing (λ b. (ok tt, record b { trace = sink }))
