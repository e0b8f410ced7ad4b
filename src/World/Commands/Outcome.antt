-- ===== src/World/Commands/Outcome.antt =====
-- What the commands decide and do to the world, as types of outcomes.
use clone_craft.Base.{ℕ, ◌<◌, ◌≡◌, ◌≢◌, refl, String, Bool, true, Option, none, some, arith}
use clone_craft.Values.{PropertyValue}
use clone_craft.Exec.{Result, ok}
use clone_craft.Coords.{BlockAddress, canonical_block}
use clone_craft.State.Target.{WorldStateTarget}
use clone_craft.Registry.BlockIds.{table_size}
use clone_craft.Chunks.Manager.View.{view}
use clone_craft.Comm.Envelope.{
  CommandResultPayload, Payload, monostate, block_place_payload, property_set_payload,
}
use clone_craft.World.{WorldState}
use clone_craft.World.Order.{IsWorld}
use clone_craft.World.Property.Effective.{IsTarget, canonical_at}
use clone_craft.World.Property.Shows.{PropertyWritten}
use clone_craft.World.Block.Outcome.{Replaced}
use clone_craft.World.Commands.{reject, accept, answer, block_in}

-- A command to place a block that may be carried out.
pub record Placeable (b : BlockAddress) (id : ℕ) (w : WorldState) : Type 0 where
  pub over_air : view b w.chunks ≡ some 0
  pub solid : id ≢ 0
  pub known : id < table_size w.ids

pub record Removable (b : BlockAddress) (w : WorldState) : Type 0 where
  pub k : ℕ
  pub there : view b w.chunks ≡ some k
  pub solid : k ≢ 0

pub data Placed (x : Payload) (t : Option WorldStateTarget) (w : WorldState)
    : Result CommandResultPayload × WorldState → Type 0 where
  turned_down :
      (why : String)
      → ((b : BlockAddress) (id : ℕ)
          → x ≡ block_place_payload id
          → block_in t ≡ some b
          → ¬ Placeable b id w)
      → Placed x t w (ok (reject why), w)
  placed :
      (b : BlockAddress) (id : ℕ) (w' : WorldState)
      → x ≡ block_place_payload id
      → block_in t ≡ some b
      → Placeable b id w
      → Replaced b id w w'
      → Placed x t w (ok accept, w')

pub data Removed (x : Payload) (t : Option WorldStateTarget) (w : WorldState)
    : Result CommandResultPayload × WorldState → Type 0 where
  turned_down :
      (why : String)
      → ((b : BlockAddress) → x ≡ monostate → block_in t ≡ some b → ¬ Removable b w)
      → Removed x t w (ok (reject why), w)
  removed :
      (b : BlockAddress) (w' : WorldState)
      → x ≡ monostate
      → block_in t ≡ some b
      → Removable b w
      → Replaced b 0 w w'
      → Removed x t w (ok accept, w')

pub data Wrote (x : Payload) (t : Option WorldStateTarget) (w : WorldState)
    : Result CommandResultPayload × WorldState → Type 0 where
  turned_down :
      (why : String)
      → ((u : WorldStateTarget) (id : String) (v : PropertyValue)
          → x ≡ property_set_payload id v
          → t ≢ some u)
      → Wrote x t w (ok (reject why), w)
  written :
      (u : WorldStateTarget) (id : String) (v : PropertyValue) (changed : Bool) (w' : WorldState)
      → x ≡ property_set_payload id v
      → t ≡ some u
      → PropertyWritten u id v w (ok changed, w')
      → Wrote x t w (ok (answer changed "property write rejected"), w')

unfoldable pub AreTargets : Option WorldStateTarget → Type 0
AreTargets t = (u : WorldStateTarget) → t ≡ some u → IsTarget u

abbrev pub payload_id : Payload → ℕ
payload_id monostate = 0
payload_id (block_place_payload id) = id
payload_id _ = 0

module _ (w : WorldState) (v : IsWorld w) (t : Option WorldStateTarget)
    (targets : AreTargets t) where
  pub canonical_in : (b : BlockAddress) → block_in t ≡ some b → canonical_block b ≡ true
  unfolding AreTargets
  canonical_in b h = at t targets h
    where
      at :
          (o : Option WorldStateTarget)
          → ((u : WorldStateTarget) → o ≡ some u → IsTarget u)
          → block_in o ≡ some b
          → canonical_block b ≡ true
      at none h e = absurd (ground (arith, e))
      at (some u) h e = canonical_at u b (h u refl) e
