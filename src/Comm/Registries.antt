-- ===== src/Comm/Registries.antt =====
-- world/communication/CommunicationRegistries.h, CommunicationRegistries.cpp: the registries of
-- signals, slots and actions. An executable is a value of a type `H`, and an empty `std::function`
-- is `none`; what the executables do is up to the router and the runtime.
use clone_craft.Base.{
  String, Bool, true, false, not, Option, none, some, ite, Key, string_key, String-discrete,
}
use clone_craft.Text.{is_namespaced_id, is_empty}
use clone_craft.Assoc.{Map, find, contains, put, try_emplace, erase}
use clone_craft.Exec.{Result, ok, err, require, and_then}
use clone_craft.Comm.Error.{
  bad_signal_kind, bad_signal_action, signal_conflict, no_signal, duplicate_slot, empty_action_id,
  empty_action, duplicate_action,
}
use clone_craft.Comm.Envelope.{EnvelopeKind, is_valid_envelope_kind}
use clone_craft.Comm.Schema.{
  PayloadSchema, PayloadSchema-discrete, OutputContract, require_payload_schema,
}
use clone_craft.Comm.Route.{RouteKey, EnvelopeKind-discrete, route_key}

-- `SignalRegistry::Key`
pub record SignalKey : Type 0 where
  pub action : String
  pub kind : EnvelopeKind

unfoldable pub SignalKey-discrete : Discrete SignalKey
unfolding EnvelopeKind-discrete
SignalKey-discrete = hlevel (EnvelopeKind-discrete, String-discrete)

instance abbrev pub signal_key : Key SignalKey
signal_key = record { eq? = SignalKey-discrete }

abbrev pub SignalRegistry : Type 0
SignalRegistry = Map SignalKey PayloadSchema

abbrev pub signal : String → EnvelopeKind → SignalKey
signal action kind = record { action = action; kind = kind }

abbrev agrees : Option PayloadSchema → PayloadSchema → Bool
agrees none schema = true
agrees (some declared) schema = ite (PayloadSchema-discrete declared schema) true false

unfoldable pub check_can_declare :
    String → EnvelopeKind → PayloadSchema → SignalRegistry → Result (Unit {0})
check_can_declare action kind schema signals = and_then (require_payload_schema schema false) λ _.
    require (is_valid_envelope_kind kind) bad_signal_kind (
      require (is_namespaced_id action) bad_signal_action
        (require (agrees (find (signal action kind) signals) schema) signal_conflict (ok tt)))

unfoldable pub declare :
    String → EnvelopeKind → PayloadSchema → SignalRegistry → Result SignalRegistry
declare action kind schema signals =
    and_then (check_can_declare action kind schema signals)
      λ _. ok (try_emplace (signal action kind) schema signals)

-- `SignalRegistry::contains`
abbrev pub has_signal : String → EnvelopeKind → SignalRegistry → Bool
has_signal action kind signals = contains (signal action kind) signals

abbrev or_missing {ℓ} : {A : Type ℓ} → Option A → Result A
or_missing none = err no_signal
or_missing (some a) = ok a

unfoldable pub schema_of : String → EnvelopeKind → SignalRegistry → Result PayloadSchema
schema_of action kind signals = or_missing (find (signal action kind) signals)

-- `SignalRegistry::erase`
unfoldable pub erase_signal : String → EnvelopeKind → SignalRegistry → SignalRegistry
erase_signal action kind signals = erase (signal action kind) signals

-- `SlotRegistry::Definition`, its first five fields as the key.
pub record SlotDefinition : Type 0 where
  pub key : RouteKey
  pub expected : PayloadSchema
  pub action_id : String
  pub contract : OutputContract

abbrev pub SlotRegistry : Type 0
SlotRegistry = Map RouteKey SlotDefinition

-- `SlotRegistry::insert`
unfoldable pub insert_slot : SlotDefinition → SlotRegistry → Result SlotRegistry
insert_slot definition slots =
    require (not (contains definition.key slots)) duplicate_slot
      (ok (put definition.key definition slots))

abbrev pub ActionRegistry : Type 0 → Type 0
ActionRegistry H = Map String H

module _ {H : Type 0} where
  abbrev inserted : String → Option H → ActionRegistry H → Result (ActionRegistry H)
  inserted id none actions = err empty_action
  inserted id (some handler) actions =
      require (not (contains id actions)) duplicate_action (ok (put id handler actions))

  -- `ActionRegistry::insert`
  unfoldable pub insert_action : String → Option H → ActionRegistry H → Result (ActionRegistry H)
  insert_action id handler actions =
      require (not (is_empty id)) empty_action_id (inserted id handler actions)
