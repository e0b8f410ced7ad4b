-- ===== src/Comm/Runtime/Register/Atomic.antt =====
-- The registrations are all or nothing, but for one case of the roll-back of `registerHandler`.
use Prim.Native.String.append
use Prim.Native.String.{◌++◌ as text_append}
use clone_craft.Base.{
  ◌+◌, ◌%◌, ◌^◌, String, ◌≡◌, refl, ap, ◌∙◌, ◌⊎◌, inl, inr, true, false, Option, none, some, arith,
  Bool-cases, string_key, if◌then◌else◌,
}
use clone_craft.Text.{is_empty}
use clone_craft.Assoc.{find, contains, put, erase, try_emplace, erase-put, erase_absent, find-erase}
use clone_craft.Exec.{Result, ok, err, ◌>>◌}
use clone_craft.Comm.Error.{Error, duplicate_action, trace_reentrancy}
use clone_craft.Comm.Schema.{PayloadSchema, OutputContract}
use clone_craft.Comm.Route.{route_key}
use clone_craft.Comm.Registries.{
  SlotDefinition, SignalRegistry, SlotRegistry, ActionRegistry, signal_key, signal,
  check_can_declare, declare, has_signal, erase_signal, insert_slot, insert_action,
}
use clone_craft.Comm.Router.{Router, register_route, has_route}
use clone_craft.Comm.Runtime.{Bus}
use clone_craft.Comm.Runtime.Register.{
  Dimensions, key_for, value_or, definition_of, check_handler_registration, auto_action_id, attempt,
  roll_back, commit_handler, register_handler,
}

is_empty-append_left : (s t : String) → is_empty s ≡ false → is_empty (text_append s t) ≡ false
is_empty-append_left String.[] t h = absurd (ground arith)
is_empty-append_left (String.◌∷◌ c s) t h = ap is_empty (append.cons c s t)

is_empty-append_right : (s t : String) → is_empty t ≡ false → is_empty (text_append s t) ≡ false
is_empty-append_right String.[] t h = ap is_empty (append.nil t) ∙ h
is_empty-append_right (String.◌∷◌ c s) t h = ap is_empty (append.cons c s t)

module _ {H T : Type 0} where
  attempt_done :
      (d : Dimensions) (handler : Option H) (schema : PayloadSchema) (definition : SlotDefinition)
      (b : Bus H T) {signals : SignalRegistry} {actions : ActionRegistry H} {slots : SlotRegistry}
      {router : Router String ⊥}
      → declare d.action d.kind schema b.signals ≡ ok signals
      → insert_action definition.action_id handler b.actions ≡ ok actions
      → insert_slot definition b.slots ≡ ok slots
      → register_route d.action d.kind
          (some definition.action_id)
          d.receiver
          d.context
          d.capability
          b.router
        ≡ ok router
      → attempt d handler schema definition b
        ≡ (ok tt, record b { signals = signals; actions = actions; slots = slots; router = router })
  unfolding attempt ◌>>◌
  attempt_done d handler schema definition b p q r s = ground arith

  attempt_collides :
      (d : Dimensions) (handler : Option H) (schema : PayloadSchema) (definition : SlotDefinition)
      (b : Bus H T) {signals : SignalRegistry}
      → declare d.action d.kind schema b.signals ≡ ok signals
      → insert_action definition.action_id handler b.actions ≡ err duplicate_action
      → attempt d handler schema definition b
        ≡ (err duplicate_action, record b { signals = signals })
  unfolding attempt ◌>>◌
  attempt_collides d handler schema definition b p q = ground arith

  module _ (d : Dimensions) (handler : H) (schema : PayloadSchema) (contract : OutputContract)
      (b : Bus H T) where
    abbrev Checked : Type 0
    Checked = check_handler_registration d (some handler) schema contract b ≡ ok tt

    abbrev id : String
    id = auto_action_id d.action b

    abbrev definition : SlotDefinition
    definition = definition_of d schema id contract

    abbrev counted : Bus H T
    counted = record b { auto_action_counter = (b.auto_action_counter + 1) % 2 ^ 64 }

    declared :
        Checked
        → declare d.action d.kind schema b.signals
          ≡ ok (try_emplace (signal d.action d.kind) schema b.signals)
    unfolding declare check_handler_registration
    declared checked = ground arith

    slot_inserted :
        Checked → insert_slot definition b.slots ≡ ok (put (key_for d) definition b.slots)
    unfolding insert_slot check_handler_registration
    slot_inserted checked = ground arith

    route_bound :
        Checked
        → register_route d.action d.kind (some id) d.receiver d.context d.capability b.router
          ≡ ok (record b.router { routes = put (key_for d) id b.router.routes })
    unfolding register_route check_handler_registration check_can_declare has_route
    route_bound checked = ground arith

    id_nonempty : is_empty id ≡ false
    unfolding auto_action_id
    id_nonempty = is_empty-append_right d.action _ (is_empty-append_left "." _ refl)

    signals_restored :
        (if has_signal d.action d.kind b.signals
          then try_emplace (signal d.action d.kind) schema b.signals
          else erase_signal d.action d.kind (try_emplace (signal d.action d.kind) schema b.signals))
        ≡ b.signals
    unfolding try_emplace erase_signal
    signals_restored = ground (arith, erase-put (signal d.action d.kind) schema b.signals)

    slots_restored : Checked → erase (key_for d) b.slots ≡ b.slots
    unfolding check_handler_registration
    slots_restored checked = ground (arith, erase_absent (key_for d) b.slots)

    id_inserted :
        find id b.actions ≡ none
        → insert_action id (some handler) b.actions ≡ ok (put id handler b.actions)
    unfolding insert_action
    id_inserted fresh = ground (arith, id_nonempty)

    id_collides :
        contains id b.actions ≡ true
        → insert_action id (some handler) b.actions ≡ err duplicate_action
    unfolding insert_action
    id_collides there = ground (arith, id_nonempty)

    -- The bus after a registration that went through.
    abbrev pub registered : Bus H T
    registered = record counted {
      signals = try_emplace (signal d.action d.kind) schema b.signals;
      actions = put id handler b.actions;
      slots = put (key_for d) definition b.slots;
      router = record b.router { routes = put (key_for d) id b.router.routes };
    }

    commit_handler-fresh :
        Checked
        → find id b.actions ≡ none
        → commit_handler d (some handler) schema contract b ≡ (ok tt, registered)
    unfolding commit_handler
    commit_handler-fresh checked fresh =
        ap (roll_back d definition (has_signal d.action d.kind b.signals)) (
          attempt_done d (some handler) schema definition counted (declared checked)
            (id_inserted fresh) (slot_inserted checked) (route_bound checked))

    -- After a collision every registry is as it was, but the action that was there is gone.
    abbrev pub collided : Bus H T
    collided = record counted { actions = erase id b.actions }

    commit_handler-collision :
        Checked
        → contains id b.actions ≡ true
        → commit_handler d (some handler) schema contract b ≡ (err duplicate_action, collided)
    unfolding commit_handler
    commit_handler-collision checked there =
        ap (roll_back d definition (has_signal d.action d.kind b.signals)) (
          attempt_collides d (some handler) schema definition counted (declared checked)
            (id_collides there))
        ∙ ground (arith, signals_restored, slots_restored checked)

  -- What `registerHandler` does, from the result of its first phase.
  register_handler-checked :
      (d : Dimensions) (handler : Option H) (schema : PayloadSchema)
      (contract : Option OutputContract) (b : Bus H T)
      → b.trace_active ≡ false
      → check_handler_registration d handler schema (value_or contract d.kind) b ≡ ok tt
      → register_handler d handler schema contract b
        ≡ commit_handler d handler schema (value_or contract d.kind) b
  unfolding register_handler
  register_handler-checked d handler schema contract b quiet checked = ground arith

  -- `registerHandler` is all or nothing as long as its automatic action id is free: it succeeds
  -- exactly if its first phase does, binding signal, action, slot and route under one key, and if
  -- it throws then nothing has changed.
  pub register_handler-atomic :
      (d : Dimensions) (handler : H) (schema : PayloadSchema) (contract : Option OutputContract)
      (b : Bus H T)
      → find (auto_action_id d.action b) b.actions ≡ none
      → ((register_handler d (some handler) schema contract b).0 ≡ ok tt)
          × ((register_handler d (some handler) schema contract b).1
              ≡ registered d handler schema (value_or contract d.kind) b)
        ⊎ ((e : Error) × (register_handler d (some handler) schema contract b ≡ (err e, b)))
  unfolding register_handler
  register_handler-atomic d handler schema contract b fresh = elim (Bool-cases b.trace_active) [
    | inl tracing ↦ inr (trace_reentrancy, ground arith)
    | inr quiet ↦
        checked_first quiet
          (check_handler_registration d (some handler) schema (value_or contract d.kind) b) refl
  ]
    where
      checked_first :
          b.trace_active ≡ false
          → (r : Result (Unit {0}))
          → check_handler_registration d (some handler) schema (value_or contract d.kind) b ≡ r
          → ((register_handler d (some handler) schema contract b).0 ≡ ok tt)
              × ((register_handler d (some handler) schema contract b).1
                  ≡ registered d handler schema (value_or contract d.kind) b)
            ⊎ ((e : Error) × (register_handler d (some handler) schema contract b ≡ (err e, b)))
      checked_first quiet (ok u) e =
          let run =
            register_handler-checked d (some handler) schema contract b quiet e
            ∙ commit_handler-fresh d handler schema (value_or contract d.kind) b e fresh in
          inl (ap (λ p. p.0) run, ap (λ p. p.1) run)
      checked_first quiet (err x) e = inr (x, ground arith)

  -- The exception. If an action is already registered under the automatic id, `registerHandler`
  -- throws, and its roll-back takes that action out of the registry, together with nothing else.
  pub register_handler-collision :
      (d : Dimensions) (handler : H) (schema : PayloadSchema) (contract : Option OutputContract)
      (b : Bus H T)
      → b.trace_active ≡ false
      → check_handler_registration d (some handler) schema (value_or contract d.kind) b ≡ ok tt
      → contains (auto_action_id d.action b) b.actions ≡ true
      → ((register_handler d (some handler) schema contract b).0 ≡ err duplicate_action)
        × ((register_handler d (some handler) schema contract b).1
            ≡ collided d handler schema (value_or contract d.kind) b)
        × (find
              (auto_action_id d.action b)
              (register_handler d (some handler) schema contract b).1.actions
            ≡ none)
  register_handler-collision d handler schema contract b quiet checked there =
      let e =
        register_handler-checked d (some handler) schema contract b quiet checked
        ∙ commit_handler-collision d handler schema (value_or contract d.kind) b checked there in
      rw e (
        refl,
        refl,
        ground
            (arith, find-erase (auto_action_id d.action b) (auto_action_id d.action b) b.actions),
      )
