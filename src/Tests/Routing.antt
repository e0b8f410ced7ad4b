-- ===== src/Tests/Routing.antt =====
-- Each theorem on the routes and the router at a concrete router.
use clone_craft.Base.{
  ◌+◌, ℕ, ◌≡◌, refl, ◌≢◌, true, none, List, [], ◌∷◌, All, String-discrete, string_key,
}
use clone_craft.Assoc.{Map, find, put, empty}
use clone_craft.Text.{is_namespaced_id}
use clone_craft.Exec.{ok, Exec, ◌>>◌}
use clone_craft.Comm.Envelope.{CommunicationEnvelope, command, event, reply_for, validate_envelope}
use clone_craft.Comm.Route.{
  RouteKey, route_key, key_of, find_slot, find_route, EnvelopeKind-discrete, RouteKey-discrete,
}
use clone_craft.Comm.Route.Best.{Best, find_slot-Best}
use clone_craft.Comm.Router.{Router, DispatchResult, matching, dispatch}
use clone_craft.Comm.Router.Boundary.{IsSendable, dispatch_sound}
use clone_craft.Tests.Sample.{place, result}

-- A wildcard and a route for one receiver.
abbrev routes : Map RouteKey ℕ
routes =
    put (key_of "block:place" command "world:state" "" "") 1
      (put (key_of "block:place" command "" "" "cap:build") 2 empty)

find_slot-Best_example :
    Best routes "block:place" command "world:state" "world:overworld" "cap:build" 1
unfolding find_slot find put empty RouteKey-discrete EnvelopeKind-discrete String-discrete
find_slot-Best_example =
    find_slot-Best routes "block:place" command "world:state" "world:overworld" "cap:build" refl
      refl 1 refl

abbrev router : Router ℕ ⊥
router = record { routes = routes; trace = none }

abbrev run : ℕ → CommunicationEnvelope → Exec ℕ (List CommunicationEnvelope)
run handler e calls = (ok (reply_for e result 8 ∷ []), calls + handler)

abbrev observe : ⊥ → CommunicationEnvelope → Exec ℕ (Unit {0})
observe sink e = absurd sink

abbrev answered : DispatchResult
answered = record { handled = true; replies = reply_for place result 8 ∷ [] }

dispatch_sound_example :
    IsSendable place
    × (matching place router ≢ none)
    × (answered.handled ≡ true)
    × All IsSendable answered.replies
    × (place.kind ≡ event → answered.replies ≡ [])
unfolding dispatch ◌>>◌ validate_envelope is_namespaced_id find_route find put empty
    RouteKey-discrete String-discrete reply_for
dispatch_sound_example = dispatch_sound run observe router place 0 1 answered refl

abbrev bare : Router ℕ ⊥
bare = record { routes = empty; trace = none }
