-- ===== src/Comm/Router.antt =====
-- world/communication/CommunicationRouter.h, CommunicationRouter.cpp. A handler and a trace sink
-- are values of types `H` and `T`; what they do to the state `S` of the program is given by the
-- two interpreters that `dispatch` takes. A handler returns the replies that it appended.
pub mod Boundary
pub mod Frame
use clone_craft.Base.{String, Bool, true, false, not, ◌||◌, Option, none, some, List, [], ◌∷◌}
use clone_craft.Text.{is_namespaced_id, is_empty}
use clone_craft.Assoc.{Map, contains, put}
use clone_craft.Exec.{Result, ok, err, require, and_then, Exec, pure, throw, lift, ◌>>=◌, ◌>>◌}
use clone_craft.Comm.Error.{
  bad_handler_kind, bad_handler_action, empty_handler, bad_handler_context, bad_handler_capability,
  duplicate_route, no_handler, event_replied,
}
use clone_craft.Comm.Envelope.{
  CommunicationEnvelope, EnvelopeKind, is_valid_envelope_kind, is_event, validate_envelope,
}
use clone_craft.Comm.Route.{RouteKey, route_key, key_of, or_wildcard, find_route}

pub record Router (H T : Type 0) : Type 0 where
  pub routes : Map RouteKey H
  pub trace : Option T

pub record DispatchResult : Type 0 where
  pub handled : Bool
  pub replies : List CommunicationEnvelope

-- Absent, empty, or namespaced.
abbrev pub wildcard_or_named : Option String → Bool
wildcard_or_named none = true
wildcard_or_named (some s) = is_empty s || is_namespaced_id s

-- The optional dimensions of a registration, in the order of the C++ arguments.
abbrev pub route_of :
    String → EnvelopeKind → Option String → Option String → Option String → RouteKey
route_of action kind receiver context capability =
    key_of action kind (or_wildcard receiver) (or_wildcard context) (or_wildcard capability)

abbrev pub has_handler {ℓ} : {H : Type ℓ} → Option H → Bool
has_handler none = false
has_handler (some h) = true

module _ {H T : Type 0} where
  abbrev bound : RouteKey → Option H → Router H T → Result (Router H T)
  bound key none router = err empty_handler
  bound key (some handler) router =
      require (not (contains key router.routes)) duplicate_route
        (ok (record router { routes = put key handler router.routes }))

  -- `CommunicationRouter::registerHandler`
  unfoldable pub register_route :
      String
      → EnvelopeKind
      → Option H
      → Option String
      → Option String
      → Option String
      → Router H T
      → Result (Router H T)
  register_route action kind handler receiver context capability router =
      require (is_valid_envelope_kind kind) bad_handler_kind (
        require (is_namespaced_id action) bad_handler_action (
          require (has_handler handler) empty_handler (
            require (wildcard_or_named context) bad_handler_context (
              require (wildcard_or_named capability) bad_handler_capability
                (bound (route_of action kind receiver context capability) handler router)))))

  unfoldable pub has_route :
      String → EnvelopeKind → Option String → Option String → Option String → Router H T → Bool
  has_route action kind receiver context capability router =
      contains (route_of action kind receiver context capability) router.routes

  unfoldable pub matching : CommunicationEnvelope → Router H T → Option H
  matching e router =
      find_route router.routes e.action e.kind e.receiver e.context (or_wildcard e.capability)

-- `for( const auto &output : result.replies ) validateEnvelope( output, … );`
unfoldable pub validate_all : List CommunicationEnvelope → Result (Unit {0})
validate_all [] = ok tt
validate_all (e ∷ rest) = and_then (validate_envelope e) λ _. validate_all rest

abbrev pub no_replies : List CommunicationEnvelope → Bool
no_replies [] = true
no_replies (e ∷ rest) = false

-- The checks on what a handler produced.
unfoldable pub check_outputs :
    CommunicationEnvelope → List CommunicationEnvelope → Result (Unit {0})
unfolding validate_all
check_outputs cause replies =
    require (not (is_event cause.kind) || no_replies replies) event_replied (validate_all replies)

module _ {H T S : Type 0} (run : H → CommunicationEnvelope → Exec S (List CommunicationEnvelope))
    (observe : T → CommunicationEnvelope → Exec S (Unit {0})) where
  abbrev traced : Option T → CommunicationEnvelope → Exec S (Unit {0})
  traced none e = pure tt
  traced (some sink) e = observe sink e

  unfoldable pub trace_all : Option T → List CommunicationEnvelope → Exec S (Unit {0})
  trace_all sink [] = pure tt
  trace_all sink (e ∷ rest) = traced sink e >> trace_all sink rest

  run_route : Option H → CommunicationEnvelope → Option T → Exec S DispatchResult
  unfolding check_outputs trace_all
  run_route none e sink = throw no_handler
  run_route (some handler) e sink = do
    traced sink e
    replies ← run handler e
    lift (check_outputs e replies)
    trace_all sink replies
    pure (record { handled = true; replies = replies })

  -- `CommunicationRouter::dispatch`
  unfoldable pub dispatch : Router H T → CommunicationEnvelope → Exec S DispatchResult
  unfolding run_route matching
  dispatch router e = do lift (validate_envelope e); run_route (matching e router) e router.trace
