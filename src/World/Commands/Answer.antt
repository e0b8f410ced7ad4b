-- ===== src/World/Commands/Answer.antt =====
-- A command is handled and answered once.
use clone_craft.Base.{
  ℕ, ◌+◌, ◌≡◌, ◌≢◌, refl, sym, ap, ◌∙◌, subst, String, Bool, true, false, Option, none, some, List,
  [], ◌∷◌, arith, ◌==◌, if◌then◌else◌,
}
use clone_craft.Values.{PropertyValue}
use clone_craft.Exec.{Result, ok, err, and_then, >>=-ok, ◌>>=◌, pure}
use clone_craft.State.Target.{WorldStateTarget}
use clone_craft.Comm.Error.{trace_reentrancy, ids_exhausted}
use clone_craft.Comm.Envelope.{
  CommunicationEnvelope, CommandResultPayload, Payload, monostate, block_place_payload,
  block_target_payload, property_set_payload, command_result_payload, query_payload,
  event_value_payload, reply_for, make_reply, uint64_max, next_id,
}
use clone_craft.Comm.Runtime.{Bus, System}
use clone_craft.Comm.Runtime.Register.{make_bus_reply}
use clone_craft.World.{WorldState}
use clone_craft.World.Order.{IsWorld}
use clone_craft.World.Property.{set}
use clone_craft.World.Property.Shows.{PropertyWritten, refused, kept, changed}
use clone_craft.World.Property.Written.{set-PropertyWritten}
use clone_craft.World.Commands.{
  BlockCommand, block_place, block_remove, property_set, decide, run_on_bus, reply_from_bus, write,
  write_at, answer, reject, accept,
}
use clone_craft.World.Commands.Outcome
use clone_craft.World.Commands.Outcome.{Placed, Removed, Wrote, AreTargets}
use clone_craft.World.Commands.Place.{place-Placed}
use clone_craft.World.Commands.Remove.{remove-Removed}

unfoldable pub Handled :
    BlockCommand
    → CommunicationEnvelope
    → WorldState
    → Result CommandResultPayload × WorldState
    → Type 0
Handled block_place e w r = Placed e.payload e.target w r
Handled block_remove e w r = Removed e.payload e.target w r
Handled property_set e w r = Wrote e.payload e.target w r

module _ (w : WorldState) (v : IsWorld w) (t : Option WorldStateTarget)
    (targets : AreTargets t) where
  set-Wrote :
      (u : WorldStateTarget) (id : String) (y : PropertyValue)
      → t ≡ some u
      → (r : Result Bool × WorldState) → set u id y w ≡ r
      → PropertyWritten u id y w r
      → Wrote
          (property_set_payload id y)
          t
          w
          ((set u id y >>= λ changed. pure (answer changed "property write rejected")) w)
  set-Wrote u id y at_u r h (refused no_change) =
      subst (Wrote (property_set_payload id y) t w) (sym (>>=-ok _ _ w w false h))
        (Outcome.written u id y false w refl at_u (refused no_change))
  set-Wrote u id y at_u r h (kept w' def a r' s e q f) =
      subst (Wrote (property_set_payload id y) t w) (sym (>>=-ok _ _ w w' false h))
        (Outcome.written u id y false w' refl at_u (kept w' def a r' s e q f))
  set-Wrote u id y at_u r h (changed w' def a s e n q f) =
      subst (Wrote (property_set_payload id y) t w) (sym (>>=-ok _ _ w w' true h))
        (Outcome.written u id y true w' refl at_u (changed w' def a s e n q f))

  no_write :
      (x : Payload) (why : String)
      → ((id : String) (y : PropertyValue) → x ≢ property_set_payload id y)
      → Wrote x t w (ok (reject why), w)
  no_write x why other = Outcome.turned_down why (λ u id y e. absurd (other id y e))

  written_at :
      (id : String) (y : PropertyValue) (o : Option WorldStateTarget)
      → t ≡ o
      → Wrote (property_set_payload id y) t w (write_at id y o w)
  unfolding write_at AreTargets
  written_at id y none h = Outcome.turned_down _ (λ u j z e f. ground (arith, h, f))
  written_at id y (some u) h =
      set-Wrote u id y h (set u id y w) refl (set-PropertyWritten w u id y v (targets u h))

  write-Wrote : (x : Payload) → Wrote x t w (write x t w)
  unfolding write
  write-Wrote (property_set_payload id y) = written_at id y t refl
  write-Wrote monostate = no_write monostate _ (λ id y e. ground (arith, e))
  write-Wrote (block_place_payload k) =
      no_write (block_place_payload k) _ (λ id y e. ground (arith, e))
  write-Wrote (block_target_payload a) =
      no_write (block_target_payload a) _ (λ id y e. ground (arith, e))
  write-Wrote (command_result_payload r) =
      no_write (command_result_payload r) _ (λ id y e. ground (arith, e))
  write-Wrote (query_payload q) = no_write (query_payload q) _ (λ id y e. ground (arith, e))
  write-Wrote (event_value_payload z) =
      no_write (event_value_payload z) _ (λ id y e. ground (arith, e))

pub decide-Handled :
    (h : BlockCommand) (e : CommunicationEnvelope) (w : WorldState)
    → IsWorld w
    → AreTargets e.target
    → Handled h e w (decide h e w)
unfolding decide Handled
decide-Handled block_place e w v targets = place-Placed w v e.target targets e.payload
decide-Handled block_remove e w v targets = remove-Removed w v e.target targets e.payload
decide-Handled property_set e w v targets = write-Wrote w v e.target targets e.payload

-- A command never throws before its reply, and leaves the world in order.
abbrev Settled : Result CommandResultPayload × WorldState → Type 0
Settled r = (result : CommandResultPayload) × (w' : WorldState) × (r ≡ (ok result, w')) × IsWorld w'

settled :
    (h : BlockCommand) (e : CommunicationEnvelope) (w : WorldState)
    (r : Result CommandResultPayload × WorldState)
    → IsWorld w
    → Handled h e w r
    → Settled r
unfolding Handled
settled block_place e w r v (Outcome.turned_down why no_case) = (reject why, w, refl, v)
settled block_place e w r v (Outcome.placed b id w' x t ready done) = (accept, w', refl, done.world)
settled block_remove e w r v (Outcome.turned_down why no_case) = (reject why, w, refl, v)
settled block_remove e w r v (Outcome.removed b w' x t ready done) = (accept, w', refl, done.world)
settled property_set e w r v (Outcome.turned_down why no_case) = (reject why, w, refl, v)
settled property_set e w r v (Outcome.written u id y c w' x t done) =
    (answer c _, w', refl, still done)
  where
    still : {x : Result Bool × WorldState} → PropertyWritten u id y w x → IsWorld x.1
    still (refused n) = v
    still (kept w' def a r' s e q f) = s.world
    still (changed w' def a s e n q f) = s.world

module _ {H T : Type 0} where
  abbrev pub answered : ℕ → WorldState → System H T WorldState → System H T WorldState
  answered id w s = record s { bus = record s.bus { ids = id }; world = w }

  made :
      (e : CommunicationEnvelope) (result : CommandResultPayload) (b : Bus H T)
      → b.trace_active ≡ false
      → b.ids ≢ uint64_max
      → make_bus_reply e result b
        ≡ (ok (reply_for e result (b.ids + 1)), record b { ids = b.ids + 1 })
  unfolding make_bus_reply make_reply next_id
  made e result b idle free =
      let more : (b.ids == uint64_max) ≡ false = ground (arith, free) in
      ap (λ z. if z then (err trace_reentrancy, b) else from_id (next_id b.ids)) idle
      ∙ ap (λ z. from_id (if z then err ids_exhausted else ok (b.ids + 1))) more
    where
      from_id : Result ℕ → Result CommunicationEnvelope × Bus H T
      from_id r =
          elim (and_then {B = CommunicationEnvelope × ℕ} r λ id. ok (reply_for e result id, id)) [
            | err x ↦ (err x, b)
            | ok (reply, id) ↦ (ok reply, record b { ids = id })
          ]

  -- The reply comes after the change of the world.
  replied :
      (h : BlockCommand) (e : CommunicationEnvelope) (s : System H T WorldState)
      (result : CommandResultPayload) (w' : WorldState)
      → decide h e s.world ≡ (ok result, w')
      → s.bus.trace_active ≡ false
      → s.bus.ids ≢ uint64_max
      → run_on_bus h e s
        ≡ (ok (reply_for e result (s.bus.ids + 1) ∷ []), answered (s.bus.ids + 1) w' s)
  unfolding run_on_bus reply_from_bus
  replied h e s result w' decided idle free =
      >>=-ok _ _ s (record s { world = w' }) result
        (λ i. ((decided i).0, record s { world = (decided i).1 }))
      ∙ ap
          (λ (x : Result CommunicationEnvelope × Bus H T).
            elim x.0 as (λ _. Result (List CommunicationEnvelope) × System H T WorldState) [
              | err y ↦ (err y, record s { bus = x.1; world = w' })
              | ok reply ↦ (ok (reply ∷ []), record s { bus = x.1; world = w' })
            ])
          (made e result s.bus idle free)

  -- Every command is handled as it should be and then answered by one reply, which has the next id of
  -- the bus; the world stays in order.
  pub run_on_bus-answered :
      (h : BlockCommand) (e : CommunicationEnvelope) (s : System H T WorldState)
      → IsWorld s.world
      → AreTargets e.target
      → s.bus.trace_active ≡ false
      → s.bus.ids ≢ uint64_max
      → (result : CommandResultPayload) × (w' : WorldState) × Handled h e s.world (ok result, w')
        × IsWorld w'
        × (run_on_bus h e s
            ≡ (ok (reply_for e result (s.bus.ids + 1) ∷ []), answered (s.bus.ids + 1) w' s))
  run_on_bus-answered h e s v targets idle free =
      let done = decide-Handled h e s.world v targets in
      let (result, w', r, v') = settled h e s.world (decide h e s.world) v done in
      (result, w', subst (Handled h e s.world) r done, v', replied h e s result w' r idle free)
