-- ===== src/Comm/Runtime/Wiring.antt =====
-- The registries agree. The route of a key runs the action that the slot of that key names, and
-- every action that a slot names is registered.
use clone_craft.Base.{
  ℕ, String, ◌≡◌, ap, sym, subst, ◌∙◌, inl, inr, true, Option, none, some, arith, string_key,
}
use clone_craft.Assoc.{Map, find, contains, find-put, find-empty}
use clone_craft.Comm.Envelope.{CommunicationEnvelope, EnvelopeKind}
use clone_craft.Comm.Schema.{PayloadSchema, OutputContract}
use clone_craft.Comm.Route.{RouteKey, route_key, key_of, find_slot}
use clone_craft.Comm.Route.Best.{find_route-eq-find_slot}
use clone_craft.Comm.Registries.{SlotDefinition}
use clone_craft.Comm.Router.{matching}
use clone_craft.Comm.Runtime.{Bus, new_bus}
use clone_craft.Comm.Runtime.Inbound.{slot_for}
use clone_craft.Comm.Runtime.Register.{
  Dimensions, key_for, value_or, definition_of, register_slot, register_handler, auto_action_id,
}
use clone_craft.Comm.Runtime.Register.Atomic.{register_handler-atomic, registered}
use clone_craft.Comm.Runtime.Register.Slots.{register_slot-atomic, slot_registered, Settled}

abbrev pub action_of : Option SlotDefinition → Option String
action_of none = none
action_of (some slot) = some slot.action_id

find_slot-map :
    (routes : Map RouteKey String) (slots : Map RouteKey SlotDefinition)
    → ((k : RouteKey) → find k routes ≡ action_of (find k slots))
    → (action : String) (kind : EnvelopeKind) (r c p : String)
    → find_slot routes action kind r c p ≡ action_of (find_slot slots action kind r c p)
unfolding find_slot
find_slot-map routes slots h action kind r c p = ground (
  arith,
  h (key_of action kind r c p),
  h (key_of action kind r c ""),
  h (key_of action kind r "" p),
  h (key_of action kind r "" ""),
  h (key_of action kind "" c p),
  h (key_of action kind "" c ""),
  h (key_of action kind "" "" p),
  h (key_of action kind "" "" ""),
)

module _ {H T : Type 0} where
  pub record IsWired (b : Bus H T) : Type 0 where
    pub same_keys : (k : RouteKey) → find k b.router.routes ≡ action_of (find k b.slots)
    pub bound_actions :
        (k : RouteKey) (slot : SlotDefinition)
        → find k b.slots ≡ some slot
        → contains slot.action_id b.actions ≡ true

  pub new_bus-IsWired : (n m : ℕ) → IsWired (new_bus {H = H} {T = T} n m)
  unfolding new_bus
  new_bus-IsWired n m = record {
    same_keys = λ k. ground (arith, find-empty {V = String} k, find-empty {V = SlotDefinition} k);
    bound_actions = λ k slot h. absurd (ground (arith, find-empty {V = SlotDefinition} k));
  }

  slot_registered-IsWired :
      (d : Dimensions) (expected : PayloadSchema) (id : String) (contract : OutputContract)
      (b : Bus H T)
      → contains id b.actions ≡ true
      → IsWired b
      → IsWired (slot_registered d expected id contract b)
  slot_registered-IsWired d expected id contract b there w = record {
    same_keys = λ k. ground (
      arith,
      w.same_keys k,
      find-put (key_for d) k id b.router.routes,
      find-put (key_for d) k (definition_of d expected id contract) b.slots,
    );
    bound_actions = λ k slot h. ground (
      arith,
      w.bound_actions k slot,
      find-put (key_for d) k (definition_of d expected id contract) b.slots,
    );
  }

  abbrev slot_of : Dimensions → PayloadSchema → OutputContract → Bus H T → SlotDefinition
  slot_of d schema contract b = definition_of d schema (auto_action_id d.action b) contract

  registered-IsWired :
      (d : Dimensions) (handler : H) (schema : PayloadSchema) (contract : OutputContract)
      (b : Bus H T)
      → IsWired b
      → IsWired (registered d handler schema contract b)
  registered-IsWired d handler schema contract b w = record {
    same_keys = λ k. ground (
      arith,
      w.same_keys k,
      find-put (key_for d) k (auto_action_id d.action b) b.router.routes,
      find-put (key_for d) k (slot_of d schema contract b) b.slots,
    );
    bound_actions = λ k slot h. ground (
      arith,
      w.bound_actions k slot,
      find-put (key_for d) k (slot_of d schema contract b) b.slots,
      find-put (auto_action_id d.action b) slot.action_id handler b.actions,
    );
  }

  -- Registering a slot keeps the registries in agreement, whether or not it succeeds.
  pub register_slot-IsWired :
      (d : Dimensions) (expected : PayloadSchema) (id : String) (contract : Option OutputContract)
      (b : Bus H T)
      → IsWired b
      → IsWired (register_slot d expected id contract b).1
  register_slot-IsWired d expected id contract b w =
      settled (register_slot-atomic d expected id contract b)
    where
      settled :
          Settled d expected id
            (value_or contract d.kind)
            b
            (register_slot d expected id contract b)
          → IsWired (register_slot d expected id contract b).1
      settled (inl (there, e)) =
          subst IsWired (sym (ap (λ p. p.1) e))
            (slot_registered-IsWired d expected id (value_or contract d.kind) b there w)
      settled (inr (x, e)) = subst IsWired (sym (ap (λ p. p.1) e)) w

  -- So does registering a handler whose automatic action id is free.
  pub register_handler-IsWired :
      (d : Dimensions) (handler : H) (schema : PayloadSchema) (contract : Option OutputContract)
      (b : Bus H T)
      → find (auto_action_id d.action b) b.actions ≡ none
      → IsWired b
      → IsWired (register_handler d (some handler) schema contract b).1
  register_handler-IsWired d handler schema contract b fresh w =
      elim (register_handler-atomic d handler schema contract b fresh) [
        | inl (done, e) ↦
            subst IsWired (sym e)
              (registered-IsWired d handler schema (value_or contract d.kind) b w)
        | inr (x, e) ↦ subst IsWired (sym (ap (λ p. p.1) e)) w
      ]

  -- In agreement, the router finds for every message exactly the action that the slot of that
  -- message names, and it finds nothing where there is no slot.
  pub matching-slot_for :
      (e : CommunicationEnvelope) (b : Bus H T)
      → IsWired b
      → matching e b.router ≡ action_of (slot_for e b)
  unfolding matching slot_for
  matching-slot_for e b w =
      find_route-eq-find_slot b.router.routes e.action e.kind e.receiver e.context _
      ∙ find_slot-map b.router.routes b.slots w.same_keys e.action e.kind e.receiver e.context _
