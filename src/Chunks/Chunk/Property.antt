-- ===== src/Chunks/Chunk/Property.antt =====
-- A chunk stays in order under writes of properties, and what such a write does.
use clone_craft.Base.{
  ℕ, ◌<◌, ◌≤◌, ◌≡◌, refl, sym, ap, ◌∙◌, String, Bool, false, Option, none, some, leb, leb→le, ◌==◌,
  length, if_both, ==_iff, string_key, nat_key, arith, ◌⊎◌, inl, inr,
}
use clone_craft.Assoc.{find, find-put, find-erase}
use clone_craft.Values.{PropertyValue, value_eq}
use clone_craft.Coords.{canonical_chunk}
use clone_craft.Chunks.Sidecar
use clone_craft.Chunks.Sidecar.{Sidecar, is_empty_sidecar, set_with_default}
use clone_craft.Chunks.Chunk.{
  Chunk, PropertySidecar, cell, non_air, volume, get_property, set_property, write_property,
  store_sidecar, clear_property,
}
use clone_craft.Chunks.Chunk.Access.{Stored, write_property-Stored}
use clone_craft.Chunks.Chunk.Invariant.{IsChunk}

set_with_default-capacity :
    (i : ℕ) (v d : PropertyValue) (s : PropertySidecar)
    → (set_with_default value_eq i v d s).1.capacity ≡ s.capacity
unfolding set_with_default Sidecar.remove
set_with_default-capacity i v d s = ground arith

store-lean :
    (p id : String) (r : Bool × PropertySidecar) (c : Chunk) (s : PropertySidecar)
    → ((t : PropertySidecar)
        → find id c.sidecars ≡ some t
        → (is_empty_sidecar t ≡ false) × (t.capacity ≡ volume))
    → r.1.capacity ≡ volume
    → find id (store_sidecar p r c).1.sidecars ≡ some s
    → (is_empty_sidecar s ≡ false) × (s.capacity ≡ volume)
unfolding store_sidecar
store-lean p id r c s old cap =
    if_both (λ t. find id t ≡ some s → (is_empty_sidecar s ≡ false) × (s.capacity ≡ volume))
      (is_empty_sidecar r.1) _ _ (λ k h. ground (arith, k, h, old s, find-erase p id c.sidecars))
      (λ k h. ground (arith, k, h, cap, old s, find-put p id r.1 c.sidecars))

write_property-lean :
    (i : ℕ) (p : String) (v d : PropertyValue) (o : Option PropertySidecar) (c : Chunk)
    → IsChunk c
    → find p c.sidecars ≡ o
    → (id : String) (s : PropertySidecar) → find id (write_property i p v d o c).1.sidecars ≡ some s
    → (is_empty_sidecar s ≡ false) × (s.capacity ≡ volume)
unfolding write_property
write_property-lean i p v d none c k e id s h₀ =
    if_both
      (λ (r : Bool × Chunk).
        find id r.1.sidecars ≡ some s → (is_empty_sidecar s ≡ false) × (s.capacity ≡ volume))
      (value_eq v d) _ _ (λ _ h. k.lean id s h)
      (λ _ h.
        store-lean p id (set_with_default value_eq i v d (Sidecar.new d volume)) c s (k.lean id)
          (set_with_default-capacity i v d (Sidecar.new d volume)) h)
      h₀
write_property-lean i p v d (some t) c k e id s h =
    store-lean p id (set_with_default value_eq i v d t) c s (k.lean id)
      (set_with_default-capacity i v d t ∙ (k.lean p t e).1) h

-- How a write of a property comes out.
pub data PropertyWrite (i : ℕ) (p : String) (v d : PropertyValue) (c : Chunk)
    : Bool × Chunk → Type 0 where
  refused : (volume ≤ i) ⊎ (cell c.blocks i ≡ 0) → PropertyWrite i p v d c (false, c)
  stored :
      (r : Bool × Chunk)
      → i < volume
      → (cell c.blocks i == 0) ≡ false
      → ((j : ℕ) (q : String) → Stored i j p q v d c r)
      → IsChunk r.1
      → r.1.address ≡ c.address
      → PropertyWrite i p v d c r

write_property-keeps :
    (i : ℕ) (p : String) (v d : PropertyValue) (o : Option PropertySidecar) (c : Chunk)
    → ((write_property i p v d o c).1.address ≡ c.address)
      × ((write_property i p v d o c).1.non_air_count ≡ c.non_air_count)
unfolding write_property store_sidecar
write_property-keeps i p v d none c = (ground arith, ground arith)
write_property-keeps i p v d (some s) c = (refl, refl)

write_property-IsChunk :
    (i : ℕ) (p : String) (v d : PropertyValue) (c : Chunk)
    → IsChunk c
    → i < volume
    → (cell c.blocks i == 0) ≡ false
    → ((j : ℕ) (q : String) → Stored i j p q v d c (write_property i p v d (find p c.sidecars) c))
    → IsChunk (write_property i p v d (find p c.sidecars) c).1
write_property-IsChunk i p v d c k low solid got =
    let kept = write_property-keeps i p v d (find p c.sidecars) c in
    record {
      placed = ap (λ a. canonical_chunk a) (kept.0) ∙ k.placed;
      sized = ap (λ b. length b) (got i p).2 ∙ k.sized;
      counted = kept.1 ∙ k.counted ∙ ap (λ b. non_air b) (sym (got i p).2);
      lean = write_property-lean i p v d (find p c.sidecars) c k refl;
      living = λ id j h. ground (arith, h, low, solid, got j id, k.living id j);
    }

-- A write of a property outside the chunk or of an air block changes nothing. Any other write changes
-- the override of its block and property and no other: the default removes it, what is stored stays,
-- and any other value can be read back. The chunk stays in order.
pub set_property-PropertyWrite :
    (i : ℕ) (p : String) (v d : PropertyValue) (c : Chunk)
    → IsChunk c
    → PropertyWrite i p v d c (set_property i p v d c)
unfolding set_property
set_property-PropertyWrite i p v d c k =
    if_both (PropertyWrite i p v d c) (leb volume i) _ _ (λ far. refused (inl (leb→le _ _ far)))
      (λ near.
        if_both (PropertyWrite i p v d c) (cell c.blocks i == 0) _ _
          (λ is_air. refused (inr ((==_iff _ _).0 is_air)))
          (λ solid.
            let low : i < volume = ground (arith, near) in
            let got = λ (j : ℕ) (q : String).
              write_property-Stored i j p q v d (find p c.sidecars) c refl low
                (λ s found. (k.lean p s found).1) in
            stored (write_property i p v d (find p c.sidecars) c) low solid got
              (write_property-IsChunk i p v d c k low solid got)
              (write_property-keeps i p v d (find p c.sidecars) c).0))

pub clear_property-IsChunk : (id : String) (c : Chunk) → IsChunk c → IsChunk (clear_property id c).1
unfolding clear_property get_property
clear_property-IsChunk id c v = record {
  placed = v.placed;
  sized = v.sized;
  counted = v.counted;
  lean = λ q s h. ground (arith, h, find-erase id q c.sidecars, v.lean q s);
  living = λ q i h. ground (arith, h, find-erase id q c.sidecars, v.living q i);
}
