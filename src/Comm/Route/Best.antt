-- ===== src/Comm/Route/Best.antt =====
-- The best match among the registered keys.
use clone_craft.Base.{
  ℕ, ◌+◌, ◌*◌, ◌≤◌, ◌<◌, String, ◌≡◌, refl, ap, ◌∙◌, subst, ◌≢◌, ◌⊎◌, inl, inr, Bool, true, false,
  Option, none, some, arith, dec_le, if◌then◌else◌,
}
use clone_craft.Text.{is_empty}
use clone_craft.Assoc.{Map, find}
use clone_craft.Comm.Envelope.{EnvelopeKind}
use clone_craft.Comm.Route.{RouteKey, route_key, key_of, or_return, find_slot, find_route}

-- The number of a choice of exact dimensions: receiver before context before capability.
abbrev bit : Bool → ℕ
bit true = 1
bit false = 0

abbrev exactness : Bool → Bool → Bool → ℕ
exactness b c d = 4 * bit b + 2 * bit c + bit d

abbrev pick : Bool → String → String
pick true s = s
pick false s = ""

-- How specific a registered key is.
abbrev named : String → ℕ
named s = if is_empty s then 0 else 1

abbrev pub specificity : RouteKey → ℕ
specificity k = 4 * named k.receiver + 2 * named k.context + named k.capability

abbrev OrWildcard : String → String → Type 0
OrWildcard s t = (s ≡ t) ⊎ (s ≡ "")

module _ {A : Type 0} (m : Map RouteKey A) (action : String) (kind : EnvelopeKind)
    (receiver context capability : String) where
  pub find_route-eq-find_slot :
      find_route m action kind receiver context capability
      ≡ find_slot m action kind receiver context capability
  unfolding find_route find_slot
  find_route-eq-find_slot = ground arith

  -- A key serves a message if each of its dimensions is that of the message or the wildcard.
  pub record Serves (k : RouteKey) : Type 0 where
    pub same_action : k.action ≡ action
    pub same_kind : k.kind ≡ kind
    pub at_receiver : OrWildcard k.receiver receiver
    pub at_context : OrWildcard k.context context
    pub at_capability : OrWildcard k.capability capability

  abbrev candidate : Bool → Bool → Bool → RouteKey
  candidate b c d = key_of action kind (pick b receiver) (pick c context) (pick d capability)

  choice : (s t : String) → OrWildcard s t → (b : Bool) × (s ≡ pick b t)
  choice s t (inl e) = (true, e)
  choice s t (inr e) = (false, e)

  Serves-candidate :
      (k : RouteKey) → Serves k → (b : Bool) × (c : Bool) × (d : Bool) × (k ≡ candidate b c d)
  Serves-candidate k s =
      let (b, p) = choice k.receiver receiver s.at_receiver in
      let (c, q) = choice k.context context s.at_context in
      let (d, r) = choice k.capability capability s.at_capability in
      (
        b,
        c,
        d,
        λ i. record {
          action = s.same_action i;
          kind = s.same_kind i;
          receiver = p i;
          context = q i;
          capability = r i;
        },
      )

  candidate-Serves : (b c d : Bool) → Serves (candidate b c d)
  candidate-Serves b c d = record {
    same_action = refl;
    same_kind = refl;
    at_receiver = picked b receiver;
    at_context = picked c context;
    at_capability = picked d capability;
  }
    where
      picked : (b : Bool) (t : String) → OrWildcard (pick b t) t
      picked true t = inl refl
      picked false t = inr refl

  -- The first hit: the candidates that are more exact are not registered.
  abbrev FirstHit : A → Type 0
  FirstHit a =
      (b : Bool) × (c : Bool) × (d : Bool) × (find (candidate b c d) m ≡ some a)
      × ((b' c' d' : Bool)
          → exactness b c d < exactness b' c' d'
          → find (candidate b' c' d') m ≡ none)

  find_candidate : Bool → Bool → Bool → Option A
  find_candidate b c d = find (candidate b c d) m

  or_return-cases :
      (x y : Option A) (a : A) → or_return x y ≡ some a → (x ≡ some a) ⊎ ((x ≡ none) × (y ≡ some a))
  or_return-cases none y a h = inr (refl, h)
  or_return-cases (some x) y a h = inl h

  find_slot-FirstHit :
      (a : A) → find_slot m action kind receiver context capability ≡ some a → FirstHit a
  unfolding find_slot find_candidate
  find_slot-FirstHit a h₀ = elim (or_return-cases (find_candidate true true true) _ a h₀) [
    | inl e ↦ (true, true, true, e, λ b c d lt. ground arith)
    | inr (n₀, h₁) ↦ elim (or_return-cases (find_candidate true true false) _ a h₁) [
      | inl e ↦ (true, true, false, e, λ b c d lt. ground arith)
      | inr (n₁, h₂) ↦ elim (or_return-cases (find_candidate true false true) _ a h₂) [
        | inl e ↦ (true, false, true, e, λ b c d lt. ground arith)
        | inr (n₂, h₃) ↦ elim (or_return-cases (find_candidate true false false) _ a h₃) [
          | inl e ↦ (true, false, false, e, λ b c d lt. ground arith)
          | inr (n₃, h₄) ↦ elim (or_return-cases (find_candidate false true true) _ a h₄) [
            | inl e ↦ (false, true, true, e, λ b c d lt. ground arith)
            | inr (n₄, h₅) ↦ elim (or_return-cases (find_candidate false true false) _ a h₅) [
              | inl e ↦ (false, true, false, e, λ b c d lt. ground arith)
              | inr (n₅, h₆) ↦ elim (or_return-cases (find_candidate false false true) _ a h₆) [
                | inl e ↦ (false, false, true, e, λ b c d lt. ground arith)
                | inr (n₆, h₇) ↦ (false, false, false, h₇, λ b c d lt. ground arith)
              ]
            ]
          ]
        ]
      ]
    ]
  ]

  -- The first hit serves the message and is registered.
  abbrev pub Best : A → Type 0
  Best a =
      (k : RouteKey) × Serves k
      × (find k m ≡ some a)
      × ((j : RouteKey) → Serves j → find j m ≢ none → specificity j ≤ specificity k)

  find_slot-none :
      find_slot m action kind receiver context capability ≡ none
      → (b c d : Bool) → find (candidate b c d) m ≡ none
  unfolding find_slot
  find_slot-none h true true true = ground arith
  find_slot-none h b c d = ground arith

  named-pick : (b : Bool) (s : String) → is_empty s ≡ false → named (pick b s) ≡ bit b
  named-pick true s h = ground arith
  named-pick false s h = refl

  named-pick-le : (b : Bool) (s : String) → named (pick b s) ≤ bit b
  named-pick-le true s = ground arith
  named-pick-le false s = omega arith

  specificity_mono :
      (b c d b' c' d' : Bool)
      → is_empty receiver ≡ false
      → is_empty context ≡ false
      → exactness b' c' d' ≤ exactness b c d
      → specificity (candidate b' c' d') ≤ specificity (candidate b c d)
  specificity_mono b c d b' c' d' hr hc h = ground (
    arith,
    named-pick b receiver,
    named-pick b' receiver,
    named-pick c context,
    named-pick c' context,
    named-pick-le d' capability,
  )

  exact_le :
      (b c d : Bool)
      → ((b' c' d' : Bool)
          → exactness b c d < exactness b' c' d'
          → find (candidate b' c' d') m ≡ none)
      → (b' c' d' : Bool) → find (candidate b' c' d') m ≢ none
      → exactness b' c' d' ≤ exactness b c d
  exact_le b c d earlier b' c' d' there = elim (dec_le (exactness b' c' d') (exactness b c d)) [
    | yes p ↦ p
    | no n ↦ absurd (there (earlier b' c' d' (omega arith)))
  ]

  -- The search returns the registration of the most specific key that serves the message, where
  -- an exact receiver counts before an exact context and that before an exact capability.
  pub find_slot-Best :
      is_empty receiver ≡ false
      → is_empty context ≡ false
      → (a : A) → find_slot m action kind receiver context capability ≡ some a
      → Best a
  find_slot-Best hr hc a h =
      let (b, c, d, e, earlier) = find_slot-FirstHit a h in
      (
        candidate b c d,
        candidate-Serves b c d,
        e,
        λ j s there. at_most b c d earlier j (Serves-candidate j s) there,
      )
    where
      at_most :
          (b c d : Bool)
          → ((b' c' d' : Bool)
              → exactness b c d < exactness b' c' d'
              → find (candidate b' c' d') m ≡ none)
          → (j : RouteKey) → (b' : Bool) × (c' : Bool) × (d' : Bool) × (j ≡ candidate b' c' d')
          → find j m ≢ none
          → specificity j ≤ specificity (candidate b c d)
      at_most b c d earlier j (b', c', d', e) there = rw e (
          specificity_mono b c d b' c' d' hr hc
            (exact_le b c d earlier b' c' d' (subst (λ k. find k m ≢ none) e there)))

  -- It finds nothing only if no registered key serves the message.
  pub find_slot-eq-none :
      find_slot m action kind receiver context capability ≡ none
      → (k : RouteKey) → Serves k
      → find k m ≡ none
  find_slot-eq-none h k s =
      let (b, c, d, e) = Serves-candidate k s in
      ap (λ (j : RouteKey). find j m) e ∙ find_slot-none h b c d
