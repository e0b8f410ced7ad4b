-- ===== src/Tests/Bus.antt =====
-- Each theorem on the bus at a concrete bus, message or registration.
use clone_craft.Base.{
  ◌+◌, ℕ, ◌≤◌, ◌≡◌, refl, ◌↔◌, true, none, some, [], ◌∷◌, All, string_key, arith,
}
use clone_craft.Text.{is_namespaced_id, codes}
use clone_craft.Text.Namespaced.{IsNamespaced, is_namespaced_id_iff}
use clone_craft.Exec.{ok}
use clone_craft.Exec.Frame.{Keeps}
use clone_craft.Comm.Envelope.{
  CommunicationEnvelope, reply_for, validate_envelope, or_else, make_reply, reply, next_id,
}
use clone_craft.Comm.Envelope.Validity.{IsValidEnvelope, validate_envelope_iff}
use clone_craft.Comm.Envelope.Reply.{make_reply-IsValid}
use clone_craft.Comm.Schema.{default_output_contract}
use clone_craft.Comm.Queue.{BoundedQueue, available, peek, new, size}
use clone_craft.Comm.Queue.Order.{drain, push_all, take, drain-push_all}
use clone_craft.Comm.Runtime.Inbound.{validate_inbound, check_contract}
use clone_craft.Comm.Runtime.Inbound.Gate.{IsAccepted, validate_inbound_iff}
use clone_craft.Comm.Runtime.Inbound.Contract.{Honours, check_contract_iff}
use clone_craft.Comm.Runtime.Pump.{
  dispatch, execute, take_head, set_active, pump_one, pump_all, submit,
}
use clone_craft.Comm.Runtime.Pump.Submit.{Submitted, submit-Submitted}
use clone_craft.Comm.Runtime.Pump.Reservation.{Reserves, reserves}
use clone_craft.Comm.Runtime.Pump.Drained.{Shrinks, shrinks, Ended, pump_all-Ended}
use clone_craft.Comm.Runtime.Pump.Dispatched.{Dispatched, dispatch-Dispatched}
use clone_craft.Comm.Runtime.Pump.Backpressure.{Pumped, pump_one-Pumped}
use clone_craft.Comm.Runtime.Pump.Delivery.{Delivered, pump_one-Delivered}
use clone_craft.Tests.Sample.{
  place, slot, bus, system, foreign, result, place-accepted, place-valid,
}

foreign-Reserves : (h : ℕ) (e : CommunicationEnvelope) → Keeps Reserves (foreign.run h e)
foreign-Reserves h e s = reserves (λ a. (a, omega arith))

pump_one-Delivered_example :
    Delivered place slot
      (execute foreign place slot (take_head (set_active true system)))
      (pump_one foreign system)
unfolding peek available default_output_contract new
pump_one-Delivered_example =
    pump_one-Delivered foreign foreign-Reserves place slot system refl refl refl place-accepted
      (omega arith)

foreign-Shrinks : (h : ℕ) (e : CommunicationEnvelope) → Keeps Shrinks (foreign.run h e)
foreign-Shrinks h e s = shrinks (omega arith)

pump_all-Ended_example : Ended (pump_all foreign 2 system)
unfolding size
pump_all-Ended_example = pump_all-Ended foreign foreign-Shrinks 2 system (omega arith)

dispatch-Dispatched_example : Dispatched foreign place system (dispatch foreign place system)
dispatch-Dispatched_example = dispatch-Dispatched foreign place system

pump_one-Pumped_example : Pumped foreign system (pump_one foreign system)
pump_one-Pumped_example = pump_one-Pumped foreign system

validate_inbound_iff_example : (validate_inbound place bus ≡ ok slot) ↔ IsAccepted place bus slot
validate_inbound_iff_example = validate_inbound_iff place bus slot

submit-Submitted_example : Submitted place bus (submit place bus)
submit-Submitted_example = submit-Submitted place bus

check_contract_iff_example : (check_contract place slot (reply_for place result 8 ∷ []) ≡ ok tt) ↔ (
    (1 ≤ slot.contract.max_outputs)
    × All (Honours place slot.contract) (reply_for place result 8 ∷ []))
check_contract_iff_example = check_contract_iff place slot (reply_for place result 8 ∷ [])

validate_envelope_iff_example : (validate_envelope place ≡ ok tt) ↔ IsValidEnvelope place
validate_envelope_iff_example = validate_envelope_iff place

abbrev answer : CommunicationEnvelope
answer = reply_for place result 8

make_reply-IsValid_example :
    (validate_envelope answer ≡ ok tt)
    × (answer.message_id ≡ 7 + 1)
    × (8 ≡ 7 + 1)
    × (answer.kind ≡ reply)
    × (answer.correlation_id ≡ some 7)
    × (answer.receiver ≡ or_else none "lua:mod")
unfolding make_reply next_id
make_reply-IsValid_example = make_reply-IsValid place answer result 7 8 place-valid refl

is_namespaced_id_iff_example :
    (is_namespaced_id "block:place" ≡ true) ↔ IsNamespaced (codes "block:place")
is_namespaced_id_iff_example = is_namespaced_id_iff "block:place"

abbrev queue : BoundedQueue ℕ
queue = record { capacity = 3; items = 1 ∷ [] }

drain-push_all_example :
    drain 5 (push_all (2 ∷ 3 ∷ 4 ∷ []) queue) ≡ take 5 (1 ∷ take (available queue) (2 ∷ 3 ∷ 4 ∷ []))
drain-push_all_example = drain-push_all 5 (2 ∷ 3 ∷ 4 ∷ []) queue
