-- ===== src/Comm/Router/Boundary.antt =====
-- What may leave the router: valid envelopes only, and none for an Event.
use clone_craft.Base.{
  ◌≡◌, refl, ap, subst, ◌≢◌, ◌⊎◌, ◌∙◌, inl, inr, true, not, ◌||◌, Option, none, some, List, [], ◌∷◌,
  arith, All,
}
use clone_craft.Exec.{
  ok_injective, Result, ok, err, Exec, >>=-eq-ok, >>-eq-ok, lift_inversion, proceed, >>-lift,
}
use clone_craft.Comm.Envelope.{CommunicationEnvelope, event, is_event, validate_envelope}
use clone_craft.Comm.Router.{
  Router, DispatchResult, matching, validate_all, no_replies, run_route, check_outputs, dispatch,
}

abbrev pub IsSendable : CommunicationEnvelope → Type 0
IsSendable e = validate_envelope e ≡ ok tt

validate_all-IsSendable :
    (replies : List CommunicationEnvelope) → validate_all replies ≡ ok tt → All IsSendable replies
unfolding validate_all
validate_all-IsSendable [] h = tt
validate_all-IsSendable (e ∷ rest) h = (ground arith, validate_all-IsSendable rest (ground arith))

pub check_outputs_sound :
    (cause : CommunicationEnvelope) (replies : List CommunicationEnvelope)
    → check_outputs cause replies ≡ ok tt
    → All IsSendable replies × (cause.kind ≡ event → replies ≡ [])
unfolding check_outputs
check_outputs_sound cause replies h =
    (validate_all-IsSendable replies (ground arith), λ k. silent replies (ground arith) k)
  where
    silent :
        (rs : List CommunicationEnvelope)
        → (not (is_event cause.kind) || no_replies rs) ≡ true
        → cause.kind ≡ event
        → rs ≡ []
    silent [] g k = refl
    silent (r ∷ rs) g k = absurd (ground arith)

module _ {H T S : Type 0} (run : H → CommunicationEnvelope → Exec S (List CommunicationEnvelope))
    (observe : T → CommunicationEnvelope → Exec S (Unit {0})) (router : Router H T) where
  Sound : Option H → CommunicationEnvelope → DispatchResult → Type 0
  Sound target e result =
      (target ≢ none)
      × (result.handled ≡ true)
      × All IsSendable result.replies
      × (e.kind ≡ event → result.replies ≡ [])

  run_route-Sound :
      (target : Option H) (e : CommunicationEnvelope) (sink : Option T) (t s' : S)
      (result : DispatchResult)
      → run_route run observe target e sink t ≡ (ok result, s')
      → Sound target e result
  unfolding run_route Sound
  run_route-Sound none e sink t s' result h = absurd (ground arith)
  run_route-Sound (some handler) e sink t s' result h =
      let (u, t₁, seen, h₁) = >>-eq-ok _ _ t result s' h in
      let (replies, t₂, ran, h₂) = >>=-eq-ok _ _ t₁ result s' h₁ in
      let (v, t₃, checked, h₃) = >>-eq-ok _ _ t₂ result s' h₂ in
      let (w, t₄, traced, h₄) = >>-eq-ok _ _ t₃ result s' h₃ in
      let accepted : check_outputs e replies ≡ ok tt = (lift_inversion _ v t₂ t₃ checked).0 in
      let (sendable, quiet) = check_outputs_sound e replies accepted in
      let same : ok (record { handled = true; replies = replies }) ≡ ok result = ap (λ p. p.0) h₄ in
      subst (Sound (some handler) e) (ok_injective same) (λ k. cc, refl, sendable, quiet)

  -- What a dispatch returns was accepted at the boundary: the message itself is valid, it found a
  -- handler, every reply is a valid envelope, and an Event has no reply.
  pub dispatch_sound :
      (e : CommunicationEnvelope) (s s' : S) (result : DispatchResult)
      → dispatch run observe router e s ≡ (ok result, s')
      → IsSendable e
        × (matching e router ≢ none)
        × (result.handled ≡ true)
        × All IsSendable result.replies
        × (e.kind ≡ event → result.replies ≡ [])
  unfolding dispatch Sound
  dispatch_sound e s s' result h =
      let (u, t, valid, ran) = >>-eq-ok _ _ s result s' h in
      let (found, handled, sendable, quiet) =
        run_route-Sound (matching e router) e router.trace t s' result ran in
      ((lift_inversion _ u s t valid).0, found, handled, sendable, quiet)

  -- An invalid message, and one for which no route is bound, run nothing and change nothing.
  pub dispatch_refused :
      (e : CommunicationEnvelope) (s : S)
      → validate_envelope e ≢ ok tt ⊎ (matching e router ≡ none)
      → (dispatch run observe router e s).1 ≡ s
  unfolding dispatch run_route
  dispatch_refused e s h =
      ap (λ p. p.1) (>>-lift (validate_envelope e) _ s)
      ∙ refused (validate_envelope e) (matching e router) h
    where
      refused :
          (r : Result (Unit {0})) (target : Option H)
          → r ≢ ok tt ⊎ (target ≡ none)
          → (proceed r (run_route run observe target e router.trace) s).1 ≡ s
      refused (err x) target h = refl
      refused (ok u) none h = refl
      refused (ok u) (some handler) (inl h) = absurd (h refl)
      refused (ok u) (some handler) (inr h) = absurd (ground arith)
