-- ===== src/Comm/Runtime.antt =====
-- world/communication/CommunicationRuntime.h, CommunicationRuntime.cpp: the message bus.
-- `Bus` is the state of the class and the children hold its operations. Handlers are values of a
-- type `H` and trace sinks of a type `T`. A handler may call the bus again and may change the world
-- `W` outside it, so `System` is both; `Foreign` says what the handlers and the sinks do.
pub mod Register
pub mod Inbound
pub mod Pump
pub mod Wiring
use clone_craft.Base.{ℕ, String, Bool, false, Option, none, List}
use clone_craft.Assoc.{Map, empty}
use clone_craft.Exec.{Result, Exec}
use clone_craft.Comm.Envelope.{CommunicationEnvelope}
use clone_craft.Comm.Queue.{BoundedQueue, new}
use clone_craft.Comm.Registries.{SignalRegistry, SlotRegistry, ActionRegistry}
use clone_craft.Comm.Router.{Router}

pub record Bus (H T : Type 0) : Type 0 where
  -- The route of a key holds the id of the action that it runs; nothing gives the inner router a
  -- trace sink.
  pub router : Router String ⊥
  pub ids : ℕ
  pub inbound : BoundedQueue CommunicationEnvelope
  pub outbound : BoundedQueue CommunicationEnvelope
  pub signals : SignalRegistry
  pub slots : SlotRegistry
  pub actions : ActionRegistry H
  pub capabilities : Map String (Map String (Unit {0}))
  pub trace : Option T
  pub trace_failures : ℕ
  pub trace_active : Bool
  pub auto_action_counter : ℕ
  pub async_pump_active : Bool

module _ {H T : Type 0} where
  unfoldable pub new_bus : ℕ → ℕ → Bus H T
  new_bus inbound_capacity outbound_capacity = record {
    router = record { routes = empty; trace = none };
    ids = 0;
    inbound = new inbound_capacity;
    outbound = new outbound_capacity;
    signals = empty;
    slots = empty;
    actions = empty;
    capabilities = empty;
    trace = none;
    trace_failures = 0;
    trace_active = false;
    auto_action_counter = 0;
    async_pump_active = false;
  }

pub record System (H T W : Type 0) : Type 0 where
  pub bus : Bus H T
  pub world : W

-- What the code behind handlers and sinks does. A sink sees the bus and cannot change it: while
-- it runs, every operation that changes the bus throws before it does anything.
pub record Foreign (H T W : Type 0) : Type 0 where
  pub run : H → CommunicationEnvelope → Exec (System H T W) (List CommunicationEnvelope)
  pub observe : T → CommunicationEnvelope → Bus H T → W → Result (Unit {0}) × W
