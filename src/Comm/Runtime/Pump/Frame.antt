-- ===== src/Comm/Runtime/Pump/Frame.antt =====
-- A relation that handlers and tracing keep is kept by all that a pump does with a message.
use clone_craft.Base.{string_key, String, Bool, true, false, Option, none, some, List, [], ◌∷◌}
use clone_craft.Assoc.{find}
use clone_craft.Exec.Frame.{Keeps, >>=-Keeps, >>-Keeps}
use clone_craft.Comm.Envelope.{CommunicationEnvelope}
use clone_craft.Comm.Queue.{BoundedQueue, try_push}
use clone_craft.Comm.Registries.{SlotDefinition}
use clone_craft.Comm.Router.Frame.{dispatch-Keeps}
use clone_craft.Comm.Runtime.{System, Foreign}
use clone_craft.Comm.Runtime.Inbound.Trace.{Traced, emit_trace-Traced}
use clone_craft.Comm.Runtime.Pump.{
  run_found, run_action, route, no_sink, execute, delivered, commit, put_outbound,
}

module _ {H T W : Type 0} (foreign : Foreign H T W) (R : System H T W → System H T W → Type 0)
    (unchanged : (s : System H T W) → R s s)
    (chain : (s t u : System H T W) → R s t → R t u → R s u)
    (traced : (s t : System H T W) → Traced s t → R s t)
    (honest : (handler : H) (e : CommunicationEnvelope) → Keeps R (foreign.run handler e)) where
  run_found-Keeps :
      (found : Option H) (e : CommunicationEnvelope) → Keeps R (run_found foreign found e)
  unfolding run_found
  run_found-Keeps none e s = unchanged s
  run_found-Keeps (some handler) e s = honest handler e s

  run_action-Keeps : (id : String) (e : CommunicationEnvelope) → Keeps R (run_action foreign id e)
  unfolding run_action
  run_action-Keeps id e s = run_found-Keeps (find id s.bus.actions) e s

  no_sink-Keeps : (sink : ⊥) (e : CommunicationEnvelope) → Keeps R (no_sink foreign sink e)
  no_sink-Keeps sink e = absurd sink

  route-Keeps : (e : CommunicationEnvelope) → Keeps R (route foreign e)
  unfolding route
  route-Keeps e s =
      dispatch-Keeps (run_action foreign) (no_sink foreign) R unchanged chain
        (λ id e. run_action-Keeps id e) no_sink-Keeps s.bus.router e s

  pub execute-Keeps :
      (e : CommunicationEnvelope) (slot : SlotDefinition) → Keeps R (execute foreign e slot)
  unfolding execute
  execute-Keeps e slot =
      >>-Keeps R unchanged chain _ _ (λ s. traced s _ (emit_trace-Traced foreign e s))
        (>>=-Keeps R unchanged chain _ _ (route-Keeps e)
          (λ result. >>-Keeps R unchanged chain _ _ unchanged unchanged))

  module _
      (pushed : (q : BoundedQueue CommunicationEnvelope) (s : System H T W)
        → R s (put_outbound q s)) where
    delivered-Keeps :
        (e : CommunicationEnvelope) (p : Bool × BoundedQueue CommunicationEnvelope)
        → Keeps R (delivered foreign e p)
    unfolding delivered
    delivered-Keeps e (true, q) s =
        chain s (put_outbound q s) _ (pushed q s)
          (traced (put_outbound q s) _ (emit_trace-Traced foreign e (put_outbound q s)))
    delivered-Keeps e (false, q) s = unchanged s

    pub commit-Keeps : (outputs : List CommunicationEnvelope) → Keeps R (commit foreign outputs)
    unfolding commit
    commit-Keeps [] s = unchanged s
    commit-Keeps (e ∷ rest) s =
        >>-Keeps R unchanged chain _ _ (λ t. delivered-Keeps e (try_push e t.bus.outbound) t)
          (commit-Keeps rest) s
