-- ===== src/Comm/Route.antt =====
-- The key by which slots and routes are found: `SlotRegistry::Key` and `CommunicationRouter::RouteKey`
-- are the same five fields, and both searches ask for the same eight keys in the same order, one by
-- early returns and the other by a chain of assignments. An empty text is the wildcard.
pub mod Best
use clone_craft.Base.{String, Option, none, some, Key, String-discrete, ℕ_discrete}
use clone_craft.Assoc.{Map, find}
use clone_craft.Comm.Envelope.{EnvelopeKind}

pub record RouteKey : Type 0 where
  pub action : String
  pub kind : EnvelopeKind
  pub receiver : String
  pub context : String
  pub capability : String

unfoldable pub EnvelopeKind-discrete : Discrete EnvelopeKind
unfolding ℕ_discrete
EnvelopeKind-discrete = hlevel ℕ_discrete

unfoldable pub RouteKey-discrete : Discrete RouteKey
unfolding EnvelopeKind-discrete
RouteKey-discrete = hlevel (EnvelopeKind-discrete, String-discrete)

instance abbrev pub route_key : Key RouteKey
route_key = record { eq? = RouteKey-discrete }

-- `value_or( std::string{} )`
abbrev pub or_wildcard : Option String → String
or_wildcard none = ""
or_wildcard (some s) = s

abbrev pub key_of : String → EnvelopeKind → String → String → String → RouteKey
key_of action kind receiver context capability = record {
  action = action;
  kind = kind;
  receiver = receiver;
  context = context;
  capability = capability;
}

module _ {A : Type 0} where
  -- `if( const Definition *slot = lookup( … ) ) return slot;` and what follows
  abbrev pub or_return : Option A → Option A → Option A
  or_return (some a) rest = some a
  or_return none rest = rest

  -- `SlotRegistry::find`
  unfoldable pub find_slot :
      Map RouteKey A → String → EnvelopeKind → String → String → String → Option A
  find_slot slots action kind receiver context capability =
      or_return (look receiver context capability) (
        or_return (look receiver context "") (
          or_return (look receiver "" capability) (
            or_return (look receiver "" "") (
              or_return (look "" context capability) (
                or_return (look "" context "")
                  (or_return (look "" "" capability) (look "" "" "")))))))
    where
      look : String → String → String → Option A
      look r c cap = find (key_of action kind r c cap) slots

  -- `if( it == mRoutes.end() ) it = find( … );`
  abbrev pub retry : Option A → Option A → Option A
  retry none next = next
  retry (some a) next = some a

  -- The search of `CommunicationRouter::dispatch`.
  unfoldable pub find_route :
      Map RouteKey A → String → EnvelopeKind → String → String → String → Option A
  find_route routes action kind receiver context capability =
      let it₀ : Option A = none in
      let it₁ = retry it₀ (look receiver context capability) in
      let it₂ = retry it₁ (look receiver context "") in
      let it₃ = retry it₂ (look receiver "" capability) in
      let it₄ = retry it₃ (look receiver "" "") in
      let it₅ = retry it₄ (look "" context capability) in
      let it₆ = retry it₅ (look "" context "") in
      let it₇ = retry it₆ (look "" "" capability) in retry it₇ (look "" "" "")
    where
      look : String → String → String → Option A
      look r c cap = find (key_of action kind r c cap) routes
