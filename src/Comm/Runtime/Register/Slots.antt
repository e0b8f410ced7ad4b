-- ===== src/Comm/Runtime/Register/Slots.antt =====
-- `registerSlot`: check, insert the slot, bind the route, and undo the first if the second fails.
use clone_craft.Base.{
  String, ◌≡◌, refl, ap, sym, subst, ◌∙◌, ◌⊎◌, inl, inr, true, false, Option, some, arith,
  Bool-cases, string_key,
}
use clone_craft.Assoc.{contains, put, erase, erase-put}
use clone_craft.Exec.{Result, ok, err}
use clone_craft.Comm.Error.{Error, trace_reentrancy}
use clone_craft.Comm.Schema.{PayloadSchema, OutputContract}
use clone_craft.Comm.Route.{route_key}
use clone_craft.Comm.Registries.{SlotDefinition, SlotRegistry, insert_slot}
use clone_craft.Comm.Router.{Router, register_route}
use clone_craft.Comm.Runtime.{Bus}
use clone_craft.Comm.Runtime.Register.{
  Dimensions, key_for, value_or, definition_of, check_slot_registration, register_slot, commit_slot,
}

module _ {H T : Type 0} where
  abbrev pub slot_registered :
      Dimensions → PayloadSchema → String → OutputContract → Bus H T → Bus H T
  slot_registered d expected id contract b = record b {
    slots = put (key_for d) (definition_of d expected id contract) b.slots;
    router = record b.router { routes = put (key_for d) id b.router.routes };
  }

  commit_slot_done :
      (d : Dimensions) (definition : SlotDefinition) (b : Bus H T) {slots : SlotRegistry}
      {router : Router String ⊥}
      → insert_slot definition b.slots ≡ ok slots
      → register_route d.action d.kind
          (some definition.action_id)
          d.receiver
          d.context
          d.capability
          b.router
        ≡ ok router
      → commit_slot d definition b ≡ (ok tt, record b { slots = slots; router = router })
  unfolding commit_slot
  commit_slot_done d definition b p q = ground arith

  commit_slot_undone :
      (d : Dimensions) (definition : SlotDefinition) (b : Bus H T) (e : Error)
      → insert_slot definition b.slots ≡ ok (put definition.key definition b.slots)
      → erase definition.key (put definition.key definition b.slots) ≡ b.slots
      → register_route d.action d.kind
          (some definition.action_id)
          d.receiver
          d.context
          d.capability
          b.router
        ≡ err e
      → commit_slot d definition b ≡ (err e, b)
  unfolding commit_slot
  commit_slot_undone d definition b e p r q = ground arith

  module _ (d : Dimensions) (expected : PayloadSchema) (id : String) (contract : OutputContract)
      (b : Bus H T) where
    abbrev Checked : Type 0
    Checked = check_slot_registration d expected id contract b ≡ ok tt

    -- A registration went through, or it threw and changed nothing.
    abbrev pub Settled : Result (Unit {0}) × Bus H T → Type 0
    Settled r =
        ((contains id b.actions ≡ true) × (r ≡ (ok tt, slot_registered d expected id contract b)))
        ⊎ ((e : Error) × (r ≡ (err e, b)))

    abbrev definition : SlotDefinition
    definition = definition_of d expected id contract

    slot_inserted :
        Checked → insert_slot definition b.slots ≡ ok (put (key_for d) definition b.slots)
    unfolding insert_slot check_slot_registration
    slot_inserted checked = ground arith

    slots_restored : Checked → erase (key_for d) (put (key_for d) definition b.slots) ≡ b.slots
    unfolding check_slot_registration
    slots_restored checked = ground (arith, erase-put (key_for d) definition b.slots)

    action_known : Checked → contains id b.actions ≡ true
    unfolding check_slot_registration
    action_known checked = ground arith

    route_bound :
        {router : Router String ⊥}
        → register_route d.action d.kind (some id) d.receiver d.context d.capability b.router
          ≡ ok router
        → router ≡ record b.router { routes = put (key_for d) id b.router.routes }
    unfolding register_route
    route_bound h = ground arith

    commit_slot-Settled : Checked → Settled (commit_slot d definition b)
    commit_slot-Settled checked =
        by_route
          (register_route d.action d.kind (some id) d.receiver d.context d.capability b.router) refl
      where
        by_route :
            (r : Result (Router String ⊥))
            → register_route d.action d.kind (some id) d.receiver d.context d.capability b.router
              ≡ r
            → Settled (commit_slot d definition b)
        by_route (ok router) h = inl (
          action_known checked,
          commit_slot_done d definition b (slot_inserted checked) h
              ∙ ap
                  (λ (r : Router String ⊥).
                    (ok tt, record b { slots = put (key_for d) definition b.slots; router = r }))
                  (route_bound h),
        )
        by_route (err e) h = inr (
          e,
          commit_slot_undone d definition b e (slot_inserted checked) (slots_restored checked) h,
        )

  -- `registerSlot` is all or nothing: it binds the slot and its route under one key, to the action
  -- that it was given, or it throws and changes nothing.
  pub register_slot-atomic :
      (d : Dimensions) (expected : PayloadSchema) (id : String) (contract : Option OutputContract)
      (b : Bus H T)
      → Settled d expected id (value_or contract d.kind) b (register_slot d expected id contract b)
  unfolding register_slot
  register_slot-atomic d expected id contract b = elim (Bool-cases b.trace_active) [
    | inl tracing ↦ inr (trace_reentrancy, ground arith)
    | inr quiet ↦
        by_check quiet (check_slot_registration d expected id (value_or contract d.kind) b) refl
  ]
    where
      by_check :
          b.trace_active ≡ false
          → (r : Result (Unit {0}))
          → check_slot_registration d expected id (value_or contract d.kind) b ≡ r
          → Settled d expected id
              (value_or contract d.kind)
              b
              (register_slot d expected id contract b)
      by_check quiet (err e) h = inr (e, ground arith)
      by_check quiet (ok u) h =
          subst (Settled d expected id (value_or contract d.kind) b) (sym (same_run quiet h))
            (commit_slot-Settled d expected id (value_or contract d.kind) b h)
        where
          same_run :
              b.trace_active ≡ false
              → check_slot_registration d expected id (value_or contract d.kind) b ≡ ok tt
              → register_slot d expected id contract b
                ≡ commit_slot d (definition_of d expected id (value_or contract d.kind)) b
          same_run q k = ground arith
