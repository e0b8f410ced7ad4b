-- ===== src/Comm/Router/Frame.antt =====
-- What the handlers and the sink of a router keep, its dispatch keeps.
use clone_craft.Base.{Option, none, some, List, [], ◌∷◌}
use clone_craft.Exec.{Exec}
use clone_craft.Exec.Frame.{Keeps, >>=-Keeps, >>-Keeps}
use clone_craft.Comm.Envelope.{CommunicationEnvelope}
use clone_craft.Comm.Router.{Router, traced, trace_all, matching, run_route, dispatch}

module _ {H T S : Type 0} (run : H → CommunicationEnvelope → Exec S (List CommunicationEnvelope))
    (observe : T → CommunicationEnvelope → Exec S (Unit {0})) (R : S → S → Type 0)
    (unchanged : (s : S) → R s s) (chain : (s t u : S) → R s t → R t u → R s u)
    (runs : (h : H) (e : CommunicationEnvelope) → Keeps R (run h e))
    (observes : (sink : T) (e : CommunicationEnvelope) → Keeps R (observe sink e)) where
  traced-Keeps : (sink : Option T) (e : CommunicationEnvelope) → Keeps R (traced run observe sink e)
  traced-Keeps none e s = unchanged s
  traced-Keeps (some sink) e s = observes sink e s

  trace_all-Keeps :
      (sink : Option T) (es : List CommunicationEnvelope) → Keeps R (trace_all run observe sink es)
  unfolding trace_all
  trace_all-Keeps sink [] s = unchanged s
  trace_all-Keeps sink (e ∷ rest) s =
      >>-Keeps R unchanged chain _ _ (traced-Keeps sink e) (trace_all-Keeps sink rest) s

  run_route-Keeps :
      (target : Option H) (e : CommunicationEnvelope) (sink : Option T)
      → Keeps R (run_route run observe target e sink)
  unfolding run_route
  run_route-Keeps none e sink s = unchanged s
  run_route-Keeps (some handler) e sink s =
      >>-Keeps R unchanged chain _ _ (traced-Keeps sink e)
        (>>=-Keeps R unchanged chain _ _ (runs handler e) (λ replies.
          >>-Keeps R unchanged chain _ _ unchanged
            (>>-Keeps R unchanged chain _ _ (trace_all-Keeps sink replies) unchanged)))
        s

  pub dispatch-Keeps :
      (router : Router H T) (e : CommunicationEnvelope) → Keeps R (dispatch run observe router e)
  unfolding dispatch
  dispatch-Keeps router e =
      >>-Keeps R unchanged chain _ _ unchanged (run_route-Keeps (matching e router) e router.trace)
