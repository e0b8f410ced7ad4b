-- ===== src/Comm/Runtime/Inbound/Trace.antt =====
-- What tracing may change.
use clone_craft.Base.{ℕ, ◌≡◌, refl, sym, ap, Bool, true, false, Option, none, some, if◌then◌else◌}
use clone_craft.Exec.{Result}
use clone_craft.Comm.Envelope.{CommunicationEnvelope}
use clone_craft.Comm.Runtime.{System, Foreign}
use clone_craft.Comm.Runtime.Inbound.{sink_call, after_sink, emit_trace}

module _ {H T W : Type 0} where
  abbrev pub counting : ℕ → W → System H T W → System H T W
  counting n w s = record { bus = record s.bus { trace_failures = n }; world = w }

  -- Nothing of the bus has changed but the count of failures.
  pub Traced : System H T W → System H T W → Type 0
  Traced s t = (n : ℕ) × (w : W) × (t ≡ counting n w s)

  module _ (foreign : Foreign H T W) where
    after_sink-Traced :
        (s : System H T W) (out : Result (Unit {0}) × W)
        → s.bus.trace_active ≡ false
        → Traced s (after_sink foreign s out)
    unfolding after_sink Traced
    after_sink-Traced s out h =
        let t = after_sink foreign s out in
        (
          t.bus.trace_failures,
          t.world,
          ap
              (λ a. record {
                bus = record s.bus { trace_failures = t.bus.trace_failures; trace_active = a };
                world = t.world;
              })
              (sym h),
        )

    untouched : (s : System H T W) → Traced s s
    unfolding Traced
    untouched s = (s.bus.trace_failures, s.world, refl)

    guarded :
        (s : System H T W) (active : Bool) (out : Result (Unit {0}) × W)
        → s.bus.trace_active ≡ active
        → Traced s (if active then s else after_sink foreign s out)
    guarded s true out h = untouched s
    guarded s false out h = after_sink-Traced s out h

    sink_call-Traced :
        (sink : Option T) (e : CommunicationEnvelope) (s : System H T W)
        → Traced s (sink_call foreign sink e s)
    unfolding sink_call
    sink_call-Traced none e s = untouched s
    sink_call-Traced (some sink) e s = guarded s s.bus.trace_active _ refl

    pub emit_trace-Traced :
        (e : CommunicationEnvelope) (s : System H T W) → Traced s (emit_trace foreign e s)
    unfolding emit_trace
    emit_trace-Traced e s = sink_call-Traced s.bus.trace e s

  pub Traced-outbound : (s t : System H T W) → Traced s t → t.bus.outbound ≡ s.bus.outbound
  unfolding Traced
  Traced-outbound s t (i, w, e) = ap (λ (u : System H T W). u.bus.outbound) e

  pub Traced-inbound : (s t : System H T W) → Traced s t → t.bus.inbound ≡ s.bus.inbound
  unfolding Traced
  Traced-inbound s t (i, w, e) = ap (λ (u : System H T W). u.bus.inbound) e

  pub Traced-active :
      (s t : System H T W) → Traced s t → t.bus.async_pump_active ≡ s.bus.async_pump_active
  unfolding Traced
  Traced-active s t (i, w, e) = ap (λ (u : System H T W). u.bus.async_pump_active) e
