-- ===== src/Chunks/Chunk/Access.antt =====
-- What is read from a chunk after a write of a block or of a property.
use clone_craft.Base.{
  ℕ, ◌<◌, ◌≡◌, refl, sym, ap, ◌∙◌, String, Bool, true, not, Option, none, some, ◌==◌, length,
  if◌then◌else◌, if_both, ite, same, string_key, nat_key, arith,
}
use clone_craft.Assoc.{find, erase, is_some, find-put, find-erase, find-size_zero, find-empty}
use clone_craft.Values.{PropertyValue, value_eq}
use clone_craft.Chunks.Sidecar
use clone_craft.Chunks.Sidecar.{
  Sidecar, is_empty_sidecar, set_with_default, set_with_default-get, holds,
}
use clone_craft.Chunks.Chunk.{
  Chunk, PropertySidecar, cell, write_block, get_property, read_sidecar, write_property,
  store_sidecar, volume,
}
use clone_craft.Chunks.Chunk.Cells.{cell-set_cell}
use clone_craft.Chunks.Chunk.Sweep.{clean, find-sweep}

read-empty : (j : ℕ) (s : PropertySidecar) → is_empty_sidecar s ≡ true → Sidecar.get j s ≡ none
read-empty j s h = find-size_zero j s.entries (ground (arith, h))

read-clean :
    (i j : ℕ) (o : Option PropertySidecar)
    → read_sidecar j (clean i o) ≡ ite (same i j) none (read_sidecar j o)
unfolding clean Sidecar.remove
read-clean i j none = ground arith
read-clean i j (some s) =
    if_both (λ t. read_sidecar j t ≡ ite (same i j) none (Sidecar.get j s))
      (is_empty_sidecar (record s { entries = erase i s.entries })) none
      (some (record s { entries = erase i s.entries }))
      (λ h.
        sym (read-empty j (record s { entries = erase i s.entries }) h) ∙ find-erase i j s.entries)
      (λ h. find-erase i j s.entries)

-- What a write of a block leaves: the cell, and the overrides of the other cells.
pub write_block-cell :
    (i j id : ℕ) (c : Chunk)
    → i < length c.blocks
    → cell (write_block i id c).blocks j ≡ (if i == j then id else cell c.blocks j)
unfolding write_block
write_block-cell i j id c h =
    if_both (λ (t : Chunk). cell t.blocks j ≡ (if i == j then id else cell c.blocks j))
      (cell c.blocks i == id) _ _ (λ k. ground (arith, k)) (λ k. cell-set_cell c.blocks i j id h)

pub write_block-property :
    (i j id : ℕ) (q : String) (c : Chunk)
    → get_property j q (write_block i id c) ≡ (
        if cell c.blocks i == id
        then get_property j q c
        else ite (same i j) none (get_property j q c))
unfolding write_block get_property
write_block-property i j id q c =
    if_both
      (λ (t : Chunk). read_sidecar j (find q t.sidecars) ≡ (
        if cell c.blocks i == id
        then read_sidecar j (find q c.sidecars)
        else ite (same i j) none (read_sidecar j (find q c.sidecars))))
      (cell c.blocks i == id) _ _ (λ k. ground (arith, k))
      (λ k.
        ap (λ o. read_sidecar j o) (find-sweep i q c.sidecars)
        ∙ read-clean i j (find q c.sidecars)
        ∙ ground (arith, k))

store-get :
    (j : ℕ) (p q : String) (r : Bool × PropertySidecar) (c : Chunk)
    → get_property j q (store_sidecar p r c).1
      ≡ ite (same p q) (Sidecar.get j r.1) (get_property j q c)
unfolding get_property store_sidecar
store-get j p q (changed, s) c =
    if_both
      (λ t.
        read_sidecar j (find q t)
        ≡ ite (same p q) (Sidecar.get j s) (read_sidecar j (find q c.sidecars)))
      (is_empty_sidecar s) _ _ (λ h. ground (arith, find-erase p q c.sidecars, read-empty j s h))
      (λ h. ground (arith, find-put p q s c.sidecars))

-- Whether a write changes something, and what is then read.
abbrev pub Stored :
    ℕ → ℕ → String → String → PropertyValue → PropertyValue → Chunk → Bool × Chunk → Type 0
Stored i j p q v d c (changed, c') =
    (changed ≡ (
      if value_eq v d
      then is_some (get_property i p c)
      else not (holds value_eq v (get_property i p c))))
    × (get_property j q c'
        ≡ ite (same p q)
            (ite (same i j)
              (if value_eq v d
                then none
                else if holds value_eq v (get_property i p c)
                then get_property i p c
                else some v)
              (get_property j q c))
            (get_property j q c))
    × (c'.blocks ≡ c.blocks)

pub write_property-Stored :
    (i j : ℕ) (p q : String) (v d : PropertyValue) (o : Option PropertySidecar) (c : Chunk)
    → find p c.sidecars ≡ o
    → i < volume
    → ((s : PropertySidecar) → o ≡ some s → s.capacity ≡ volume)
    → Stored i j p q v d c (write_property i p v d o c)
unfolding write_property get_property
write_property-Stored i j p q v d none c h low caps =
    let fresh : PropertySidecar = Sidecar.new d volume in
    let (changed, got) = set_with_default-get value_eq i j v d fresh (ground (arith, low)) in
    if_both (λ r. Stored i j p q v d c r) (value_eq v d) _ _
      (λ k. (ground (arith, h, k), ground (arith, h, k), refl))
      (λ k. (
        changed ∙ ground (arith, h, k, find-empty {V = PropertyValue} i),
        store-get j p q (set_with_default value_eq i v d fresh) c
            ∙ ground (
              arith,
              h,
              k,
              got,
              find-empty {V = PropertyValue} i,
              find-empty {V = PropertyValue} j,
            ),
        refl,
      ))
write_property-Stored i j p q v d (some s) c h low caps =
    let (changed, got) =
      set_with_default-get value_eq i j v d s (ground (arith, low, caps s refl)) in
    (
      changed ∙ ground (arith, h),
      store-get j p q (set_with_default value_eq i v d s) c ∙ ground (arith, h, got),
      refl,
    )

pub address-write_block : (i id : ℕ) (c : Chunk) → (write_block i id c).address ≡ c.address
unfolding write_block
address-write_block i id c = ground arith
