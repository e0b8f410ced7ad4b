-- ===== src/World/Block/Outcome.antt =====
-- What a replacement of a block is for those who read, and that a write of the block is one.
use clone_craft.Base.{
  ℕ, ◌<◌, ◌≤◌, ◌≡◌, ◌≢◌, refl, sym, ap, ◌∙◌, String, Bool, true, false, Option, none, some, List,
  ◌++◌, length, ite, same, if_pos, if_neg, arith,
}
use clone_craft.Values.{PropertyValue, SidecarDef}
use clone_craft.Exec.{Result, ok}
use clone_craft.Coords.{BlockAddress, canonical_block}
use clone_craft.State.Hierarchy.{block_key, chunk_key}
use clone_craft.State.Target.{WorldStateTarget, block, as_block}
use clone_craft.Registry.{PrototypeRegistry}
use clone_craft.Registry.BlockIds.{BlockIdTable, table_size}
use clone_craft.Chunks.Manager.{ChunkManager, or_air}
use clone_craft.Chunks.Manager.View.{view, override, Place, place_of}
use clone_craft.Chunks.Manager.Blocks.{Wrote}
use clone_craft.World.{WorldState, Event, declared_by}
use clone_craft.World.Order.{Fits, IsWorld, owner, decl_at}
use clone_craft.World.Property.Effective.{
  IsTarget, effective, shown_at, shown_by, place_at, as_block-value,
}
use clone_craft.World.Property.Shows.{effective-from}
use clone_craft.World.Block.Calls.{block_calls}

abbrev pub block_target : BlockAddress → WorldStateTarget
block_target b = record { value = block b }

pub record Replaced (b : BlockAddress) (id : ℕ) (w w' : WorldState) : Type 0 where
  pub world : IsWorld w'
  pub block : view b w'.chunks ≡ some id
  pub bare : (name : String) → override b name w'.chunks ≡ none
  pub elsewhere :
      (c : BlockAddress) → Place c → b ≢ c → or_air (view c w'.chunks) ≡ or_air (view c w.chunks)
  pub shown :
      (u : WorldStateTarget) (q : String)
      → IsTarget u
      → (block_target b).value ≢ u.value
      → effective u q w' ≡ effective u q w
  pub called :
      w'.events ≡ w.events ++ block_calls (block_target b) b (or_air (view b w.chunks)) id w

pub data BlockReplaced (b : BlockAddress) (id : ℕ) (w : WorldState)
    : Result Bool × WorldState → Type 0 where
  refused : table_size w.ids ≤ id → BlockReplaced b id w (ok false, w)
  already : or_air (view b w.chunks) ≡ id → BlockReplaced b id w (ok false, w)
  replaced :
      (w' : WorldState)
      → id < table_size w.ids
      → or_air (view b w.chunks) ≢ id
      → Replaced b id w w'
      → BlockReplaced b id w (ok true, w')

owner-or_air :
    (o : Option ℕ) (ids : BlockIdTable) (r : PrototypeRegistry)
    → owner (some (or_air o)) ids r ≡ owner o ids r
unfolding owner
owner-or_air none ids r = refl
owner-or_air (some id) ids r = refl

air_or : (o : Option ℕ) {P : Type 0} (d : Dec P) → or_air (ite d (some (or_air o)) o) ≡ or_air o
air_or o (yes e) = refl
air_or o (no n) = refl

module _ (b : BlockAddress) (canon : canonical_block b ≡ true) (id : ℕ) (w : WorldState)
    (v : IsWorld w) (low : id < table_size w.ids) where
  pub p : Place b
  p = place_of b canon

  known_or :
      (o : Option ℕ) (i : ℕ)
      → ((j : ℕ) → o ≡ some j → j < length w.ids.ids)
      → some (or_air o) ≡ some i
      → i < length w.ids.ids
  known_or none i h e = ground (arith, e, low)
  known_or (some j) i h e = h i e

  module _ (m : ChunkManager) (done : Wrote b id w.chunks m) (es : List Event) where
    abbrev pub w₁ : WorldState
    w₁ = record w { chunks = m; events = es }

    view_apart :
        (c : BlockAddress)
        → Place c
        → b ≢ c
        → view c m ≡ ite (same b.chunk c.chunk) (some (or_air (view c w.chunks))) (view c w.chunks)
    view_apart c k n = done.blocks c k ∙ if_neg (same b c) n _ _

    owner_apart :
        (c : BlockAddress)
        → Place c
        → b ≢ c
        → owner (view c m) w.ids w.prototypes ≡ owner (view c w.chunks) w.ids w.prototypes
    owner_apart c k n =
        ap (λ o. owner o w.ids w.prototypes) (view_apart c k n) ∙ elim (same b.chunk c.chunk) [
          | yes e ↦
              ap (λ o. owner o w.ids w.prototypes) (if_pos (same b.chunk c.chunk) e _ _)
              ∙ owner-or_air (view c w.chunks) w.ids w.prototypes
          | no d ↦ ap (λ o. owner o w.ids w.prototypes) (if_neg (same b.chunk c.chunk) d _ _)
        ]

    override_apart :
        (c : BlockAddress) (q : String) → Place c → b ≢ c → override c q m ≡ override c q w.chunks
    override_apart c q k n = done.overrides c q k ∙ if_neg (same b c) n _ _

    shown_apart :
        (u : WorldStateTarget) (q : String) (def : SidecarDef) (o : Option BlockAddress)
        → IsTarget u
        → as_block u ≡ o
        → (block_target b).value ≢ u.value
        → shown_at u o q def w₁ ≡ shown_at u o q def w
    unfolding shown_at decl_at as_block
    shown_apart u q def none target h apart = refl
    shown_apart u q def (some c) target h apart =
        let k = place_at u c target h in
        let n : b ≢ c = λ e. apart (as_block-value (block_target b) u c (ap (λ a. some a) e) h) in
        λ i. shown_by def (declared_by q (owner_apart c k n i)) (override_apart c q k n i)

    known_after : (c : BlockAddress) (i : ℕ) → Place c → view c m ≡ some i → i < length w.ids.ids
    known_after c i k h = elim (same b c) [
      | yes e ↦
          let new : ◌≡◌ {A = Option ℕ} (some id) (some i) =
            sym (done.blocks c k ∙ if_pos (same b c) e _ _) ∙ h in
          ground (arith, new, low)
      | no n ↦ elim (same b.chunk c.chunk) [
        | yes e ↦
            known_or (view c w.chunks) i (λ j. v.known c j k)
              (sym (view_apart c k n ∙ if_pos (same b.chunk c.chunk) e _ _) ∙ h)
        | no d ↦ v.known c i k (sym (view_apart c k n ∙ if_neg (same b.chunk c.chunk) d _ _) ∙ h)
      ]
    ]

    typed_after :
        (c : BlockAddress) (q : String) (y : PropertyValue)
        → Place c
        → override c q m ≡ some y
        → Fits w.sidecars q y
    typed_after c q y k h = elim (same b c) [
      | yes e ↦
          let bare : ◌≡◌ {A = Option PropertyValue} none (some y) =
            sym (done.overrides c q k ∙ if_pos (same b c) e _ _) ∙ h in
          absurd (ground (arith, bare))
      | no n ↦ v.typed c q y k (sym (override_apart c q k n) ∙ h)
    ]

    pub new_block-Replaced :
        es ≡ w.events ++ block_calls (block_target b) b (or_air (view b w.chunks)) id w
        → Replaced b id w w₁
    new_block-Replaced h = record {
      world = record {
        chunks = done.managed;
        claimed = v.claimed;
        checked = v.checked;
        known = known_after;
        typed = typed_after;
        typed_above = v.typed_above;
      };
      block = done.blocks b p ∙ if_pos (same b b) refl _ _;
      bare = λ name. done.overrides b name p ∙ if_pos (same b b) refl _ _;
      elsewhere = λ c k n.
          ap (λ o. or_air o) (view_apart c k n) ∙ air_or (view c w.chunks) (same b.chunk c.chunk);
      shown = λ u q target apart.
          effective-from u q w m w.hierarchy es
            (λ def. shown_apart u q def (as_block u) target refl apart);
      called = h;
    }
