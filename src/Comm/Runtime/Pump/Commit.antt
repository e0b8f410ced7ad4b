-- ===== src/Comm/Runtime/Pump/Commit.antt =====
-- The commit of outputs for which there is room.
use mathlib.Core.List.{append-nil, append_assoc}
use clone_craft.Base.{◌≤◌, ◌<◌, ◌≡◌, refl, sym, ap, ◌∙◌, subst, List, [], ◌∷◌, ◌++◌, length, arith}
use clone_craft.Exec.{ok, ◌>>◌, ◌>>=◌}
use clone_craft.Comm.Envelope.{CommunicationEnvelope}
use clone_craft.Comm.Queue.{BoundedQueue, available}
use clone_craft.Comm.Queue.Order.{try_push-room, available-push}
use clone_craft.Comm.Runtime.{System, Foreign}
use clone_craft.Comm.Runtime.Inbound.{emit_trace}
use clone_craft.Comm.Runtime.Inbound.Trace.{emit_trace-Traced, Traced-outbound}
use clone_craft.Comm.Runtime.Pump.{commit, delivered, put_outbound}

abbrev pub appended :
    List CommunicationEnvelope
    → BoundedQueue CommunicationEnvelope
    → BoundedQueue CommunicationEnvelope
appended es q = record q { items = q.items ++ es }

module _ {H T W : Type 0} (foreign : Foreign H T W) where
  commit_step :
      (e : CommunicationEnvelope) (rest : List CommunicationEnvelope) (s : System H T W)
      → 0 < available s.bus.outbound
      → commit foreign (e ∷ rest) s
        ≡ commit foreign rest
            (emit_trace foreign e (put_outbound (appended (e ∷ []) s.bus.outbound) s))
  unfolding commit ◌>>◌ ◌>>=◌ delivered
  commit_step e rest s h = rw (try_push-room e s.bus.outbound h)

  step-outbound :
      (e : CommunicationEnvelope) (s : System H T W)
      → (emit_trace foreign e (put_outbound (appended (e ∷ []) s.bus.outbound) s)).bus.outbound
        ≡ appended (e ∷ []) s.bus.outbound
  unfolding put_outbound
  step-outbound e s = Traced-outbound _ _ (emit_trace-Traced foreign e _)

  -- Outputs for which the outbound queue has room are all delivered, behind what it holds and in
  -- their order, whatever the trace sinks do.
  pub commit-delivers :
      (outputs : List CommunicationEnvelope) (s : System H T W)
      → length outputs ≤ available s.bus.outbound
      → ((commit foreign outputs s).0 ≡ ok tt)
        × ((commit foreign outputs s).1.bus.outbound ≡ appended outputs s.bus.outbound)
  unfolding commit
  commit-delivers [] s h =
      (refl, ap (λ es. record s.bus.outbound { items = es }) (sym (append-nil _)))
  commit-delivers (e ∷ rest) s h =
      let t : System H T W =
        emit_trace foreign e (put_outbound (appended (e ∷ []) s.bus.outbound) s) in
      let room : 0 < available s.bus.outbound = omega (arith, h) in
      let (fine, kept) = commit-delivers rest t (
        subst (λ q. length rest ≤ available q) (sym (step-outbound e s))
          (omega (arith, h, available-push e s.bus.outbound room))) in
      let step : commit foreign (e ∷ rest) s ≡ commit foreign rest t = commit_step e rest s room in
      (
        ap (λ r. r.0) step ∙ fine,
        ap (λ r. r.1.bus.outbound) step
            ∙ kept
            ∙ ap (appended rest) (step-outbound e s)
            ∙ ap (λ es. record s.bus.outbound { items = es })
                (append_assoc s.bus.outbound.items (e ∷ []) rest),
      )
