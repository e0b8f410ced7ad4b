-- ===== src/Comm/Scheduler/Drain.antt =====
-- What a drain hands to the bus.
use mathlib.Core.List.{append-nil, append_assoc}
use clone_craft.Base.{
  ℕ, suc, ◌+◌, ◌≡◌, refl, sym, ap, ◌∙◌, subst, ◌⊎◌, inl, inr, Bool, true, false, List, [], ◌∷◌,
  ◌++◌, length, arith,
}
use clone_craft.Exec.{Result, ok, err}
use clone_craft.Comm.Error.{Error, rejected}
use clone_craft.Comm.Envelope.{CommunicationEnvelope}
use clone_craft.Comm.Runtime.{Bus}
use clone_craft.Comm.Runtime.Pump.{submit}
use clone_craft.Comm.Runtime.Pump.Submit.{Submitted, submit-Submitted, queued}
use clone_craft.Comm.Scheduler.{Scheduler, keep, Owner, drain, drain_due_to, after_submit}

module _ {H T : Type 0} where
  abbrev pub queued_all : List CommunicationEnvelope → Bus H T → Bus H T
  queued_all [] b = b
  queued_all (e ∷ es) b = queued_all es (queued e b)

  -- The bus takes the messages one after the other.
  pub data Taken : List CommunicationEnvelope → Bus H T → Type 0 where
    none_taken : (b : Bus H T) → Taken [] b
    one_taken :
        (e : CommunicationEnvelope) (es : List CommunicationEnvelope) (b : Bus H T)
        → submit e b ≡ (ok true, queued e b)
        → Taken es (queued e b)
        → Taken (e ∷ es) b

  pub data Drained (n : ℕ) (s : Scheduler) (b : Bus H T)
      : List CommunicationEnvelope → Result ℕ × Owner H T → Type 0 where
    emptied :
        (es : List CommunicationEnvelope) (count : ℕ)
        → Taken es b
        → count ≡ n + length es
        → Drained n s b es (ok count, (record s { handoff = [] }, queued_all es b))
    blocked :
        (es rest : List CommunicationEnvelope) (e : CommunicationEnvelope) (count : ℕ)
        → Taken es b
        → count ≡ n + length es
        → submit e (queued_all es b) ≡ (ok false, queued_all es b)
        → Drained n s b
            (es ++ e ∷ rest)
            (ok count, (record s { handoff = e ∷ rest }, queued_all es b))
    refused :
        (es rest : List CommunicationEnvelope) (e : CommunicationEnvelope) (x : Error)
        → Taken es b
        → submit e (queued_all es b) ≡ (err x, queued_all es b)
        → Drained n s b
            (es ++ e ∷ rest)
            (err (rejected x), (record s { handoff = rest }, queued_all es b))

  -- The three ends of a submission.
  abbrev Ends : CommunicationEnvelope → Bus H T → Result Bool × Bus H T → Type 0
  Ends e b out =
      (out ≡ (ok true, queued e b)) ⊎ ((out ≡ (ok false, b)) ⊎ ((x : Error) × (out ≡ (err x, b))))

  Submitted-Ends :
      (e : CommunicationEnvelope) (b : Bus H T) (out : Result Bool × Bus H T)
      → Submitted e b out
      → Ends e b out
  Submitted-Ends e b _ (Submitted.accepted slot a fits room) = inl refl
  Submitted-Ends e b _ (Submitted.no_room slot a fits full) = inr (inl refl)
  Submitted-Ends e b _ (Submitted.oversized slot a big) = inr (inr (_, refl))
  Submitted-Ends e b _ (Submitted.invalid x h) = inr (inr (x, refl))
  Submitted-Ends e b _ (Submitted.tracing h) = inr (inr (_, refl))

  -- To queue one message after the other is to append them all to the inbound queue.
  pub queued_all-append :
      (es : List CommunicationEnvelope) (b : Bus H T)
      → queued_all es b ≡ record b { inbound = record b.inbound { items = b.inbound.items ++ es } }
  queued_all-append [] b =
      ap (λ items. record b { inbound = record b.inbound { items = items } })
        (sym (append-nil b.inbound.items))
  queued_all-append (e ∷ es) b =
      queued_all-append es (queued e b)
      ∙ ap (λ items. record b { inbound = record b.inbound { items = items } })
          (append_assoc b.inbound.items (e ∷ []) es)

  -- A drain of what follows the front, after the bus took the front.
  later :
      (e : CommunicationEnvelope) (n : ℕ) (s : Scheduler) (b : Bus H T)
      (rest es : List CommunicationEnvelope) (out : Result ℕ × Owner H T)
      → submit e b ≡ (ok true, queued e b)
      → Drained (suc n) (keep rest s) (queued e b) es out
      → Drained n s b (e ∷ es) out
  later e n s b front _ _ h (emptied es count t c) =
      emptied (e ∷ es) count (one_taken e es b h t) (omega (arith, c))
  later e n s b front _ _ h (blocked es rest f count t c g) =
      blocked (e ∷ es) rest f count (one_taken e es b h t) (omega (arith, c)) g
  later e n s b front _ _ h (refused es rest f x t g) =
      refused (e ∷ es) rest f x (one_taken e es b h t) g

  settled :
      (e : CommunicationEnvelope) (rest : List CommunicationEnvelope) (n : ℕ) (s : Scheduler)
      (b : Bus H T) (loop : Owner H T → Result ℕ × Owner H T)
      → Drained (suc n) (keep rest s) (queued e b) rest (loop (keep rest s, queued e b))
      → Ends e b (submit e b)
      → Drained n s b (e ∷ rest) (after_submit e rest loop n s (submit e b))
  unfolding after_submit
  settled e rest n s b loop more (inl h) =
      subst (λ out. Drained n s b (e ∷ rest) (after_submit e rest loop n s out)) (sym h)
        (later e n s b rest rest _ h more)
  settled e rest n s b loop more (inr (inl h)) =
      subst (λ out. Drained n s b (e ∷ rest) (after_submit e rest loop n s out)) (sym h)
        (blocked [] rest e n (none_taken b) (omega arith) h)
  settled e rest n s b loop more (inr (inr (x, h))) =
      subst (λ out. Drained n s b (e ∷ rest) (after_submit e rest loop n s out)) (sym h)
        (refused [] rest e x (none_taken b) h)

  drain-Drained :
      (es : List CommunicationEnvelope) (n : ℕ) (s : Scheduler) (b : Bus H T)
      → Drained n s b es (drain es n (s, b))
  unfolding drain
  drain-Drained [] n s b = emptied [] n (none_taken b) (omega arith)
  drain-Drained (e ∷ rest) n s b =
      settled e rest n s b (drain rest (suc n))
        (drain-Drained rest (suc n) (keep rest s) (queued e b))
        (Submitted-Ends e b (submit e b) (submit-Submitted e b))

  -- A drain hands the messages of the handoff to the bus from the front, in their order, and stops
  -- at the first that the bus does not take. The bus then holds exactly those before it, behind what
  -- it held. A message for which there is no room stays at the front; a message that the bus refuses
  -- is dropped, the error is thrown on, and all that follow it stay.
  pub drain_due_to-Drained :
      (s : Scheduler) (b : Bus H T) → Drained 0 s b s.handoff (drain_due_to (s, b))
  unfolding drain_due_to
  drain_due_to-Drained s b = drain-Drained s.handoff 0 s b
