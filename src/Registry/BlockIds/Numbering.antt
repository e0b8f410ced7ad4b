-- ===== src/Registry/BlockIds/Numbering.antt =====
-- The runtime ids number the blocks of the registry without gaps, with air first.
use clone_craft.Base.{
  ◌||◌, if_pos, if_neg, ℕ, zero, suc, ◌+◌, ◌≤◌, ◌<◌, ◌%◌, ◌≡◌, ◌≢◌, refl, sym, ◌∙◌, subst, String,
  true, false, none, some, List, [], ◌∷◌, leb→le, length, length-append, get_elem?, get_elem?-snoc,
  get_elem?-length, ite, same, string_key, arith,
}
use clone_craft.Assoc.{find, is_some, size, find-put, find-empty, empty}
use clone_craft.Exec.{ok, require-eq-ok, ok_injective}
use clone_craft.Registry.{Registry}
use clone_craft.Registry.Order.{IsOrdered, Distinct, mem}
use clone_craft.Registry.BlockIds.{BlockIdTable, air, push_id, push_ids, only_air, block_id_table}

-- The two directions of the table agree.
pub record IsTable (t : BlockIdTable) : Type 0 where
  pub forth : (id : String) (i : ℕ) → find id t.index ≡ some i → get_elem? t.ids i ≡ some id
  pub back : (id : String) (i : ℕ) → get_elem? t.ids i ≡ some id → find id t.index ≡ some i

push_id-IsTable :
    (id : String) (t : BlockIdTable)
    → IsTable t
    → find id t.index ≡ none
    → length t.ids < 65_536
    → IsTable (push_id id t)
unfolding push_id
push_id-IsTable id t v fresh room = record {
  forth = λ j i h. ground (
    arith,
    h,
    fresh,
    find-put id j (length t.ids % 65_536) t.index,
    v.forth j i,
    get_elem?-snoc t.ids id i,
    get_elem?-length t.ids,
  );
  back = λ j i h. ground (
    arith,
    h,
    fresh,
    find-put id j (length t.ids % 65_536) t.index,
    v.back j i,
    get_elem?-snoc t.ids id i,
  );
}

-- The ids that are pushed.
others : List String → ℕ
others [] = 0
others (id ∷ rest) = ite (same id air) (others rest) (suc (others rest))

others_all : (xs : List String) → mem air xs ≡ false → others xs ≡ length xs
unfolding others mem
others_all [] h = refl
others_all (id ∷ rest) h = ground (arith, h, others_all rest)

others_but_one : (xs : List String) → Distinct xs → mem air xs ≡ true → suc (others xs) ≡ length xs
unfolding others mem
others_but_one [] d h = absurd (ground (arith, h))
others_but_one (id ∷ rest) d h = elim (same id air) [
  | yes p ↦ ground (arith, p, d.0, others_all rest)
  | no p ↦ ground (arith, p, h, others_but_one rest d.1)
]

record Pushed (xs : List String) (t u : BlockIdTable) : Type 0 where
  table : IsTable u
  sized : length u.ids ≡ length t.ids + others xs
  kept : (id : String) (i : ℕ) → find id t.index ≡ some i → find id u.index ≡ some i
  there : (id : String) → is_some (find id u.index) ≡ (is_some (find id t.index) || mem id xs)

record Ready (xs : List String) (t : BlockIdTable) : Type 0 where
  table : IsTable t
  zeroth : find air t.index ≡ some 0
  fresh : (k : String) → mem k xs ≡ true → k ≢ air → find k t.index ≡ none
  room : length t.ids + others xs ≤ 65_536

skipped :
    (id : String) (rest : List String) (t u : BlockIdTable)
    → id ≡ air
    → find air t.index ≡ some 0
    → Pushed rest t u
    → Pushed (id ∷ rest) t u
unfolding others mem
skipped id rest t u same_id z p = record {
  table = p.table;
  sized = ground (arith, same_id, p.sized);
  kept = p.kept;
  there = λ k. ground (arith, same_id, z, p.there k);
}

push_id-Pushed :
    (id : String) (rest : List String) (t u : BlockIdTable)
    → id ≢ air
    → find id t.index ≡ none
    → Pushed rest (push_id id t) u
    → Pushed (id ∷ rest) t u
unfolding others mem push_id
push_id-Pushed id rest t u other fresh p = record {
  table = p.table;
  sized = ground (arith, other, p.sized, length-append t.ids (id ∷ []));
  kept =
      λ k i h. p.kept k i (ground (arith, h, fresh, find-put id k (length t.ids % 65_536) t.index));
  there = λ k. ground (arith, p.there k, find-put id k (length t.ids % 65_536) t.index);
}

skip-Ready :
    (id : String) (rest : List String) (t : BlockIdTable)
    → id ≡ air
    → Ready (id ∷ rest) t
    → Ready rest t
unfolding others mem
skip-Ready id rest t same_id r = record {
  table = r.table;
  zeroth = r.zeroth;
  fresh = λ k m n. r.fresh k (ground (arith, m)) n;
  room = ground (arith, same_id, r.room);
}

first_is_new :
    (id : String) (rest : List String) (t : BlockIdTable)
    → id ≢ air
    → Ready (id ∷ rest) t
    → find id t.index ≡ none
unfolding mem
first_is_new id rest t other r = r.fresh id (ground arith) other

push-Ready :
    (id : String) (rest : List String) (t : BlockIdTable)
    → id ≢ air
    → mem id rest ≡ false
    → Ready (id ∷ rest) t
    → Ready rest (push_id id t)
unfolding others mem push_id
push-Ready id rest t other once r =
    let put_find = λ (k : String). find-put id k (length t.ids % 65_536) t.index in
    record {
      table =
          push_id-IsTable id t r.table (first_is_new id rest t other r)
            (ground (arith, other, r.room));
      zeroth = ground (arith, other, r.zeroth, put_find air);
      fresh = λ k m n. ground (arith, m, n, once, r.fresh k, put_find k);
      room = ground (arith, other, r.room, length-append t.ids (id ∷ []));
    }

push_ids-Pushed :
    (xs : List String) (t : BlockIdTable) → Distinct xs → Ready xs t → Pushed xs t (push_ids xs t)
unfolding push_ids others mem
push_ids-Pushed [] t d r = record {
  table = r.table;
  sized = omega arith;
  kept = λ k i h. h;
  there = λ k. ground arith;
}
push_ids-Pushed (id ∷ rest) t d r = elim (same id air) [
  | yes p ↦
      rw (if_pos _ p)
        (skipped id rest t _ p r.zeroth (push_ids-Pushed rest t d.1 (skip-Ready id rest t p r)))
  | no p ↦ rw (if_neg _ p) (
      push_id-Pushed id rest t _ p (first_is_new id rest t p r)
        (push_ids-Pushed rest (push_id id t) d.1 (push-Ready id rest t p d.0 r)))
]

only_air-IsTable : IsTable only_air
only_air-IsTable = record {
  forth = λ id i h.
      ground (arith, h, find-put air id 0 (empty {K = String} {V = ℕ}), find-empty {V = ℕ} id);
  back = λ id i h. starts id i h;
}
  where
    starts :
        (id : String) (i : ℕ) → get_elem? (air ∷ []) i ≡ some id → find id only_air.index ≡ some i
    starts id zero h = ground (arith, h, find-put air id 0 (empty {K = String} {V = ℕ}))
    starts id (suc i) h = absurd (ground (arith, h))

-- The numbering of the blocks of a registry.
pub record Numbers {D : Type 0} (blocks : Registry D) (t : BlockIdTable) : Type 0 where
  pub table : IsTable t
  pub zeroth : find air t.index ≡ some 0
  pub sized : length t.ids ≡ size blocks.entries
  pub bounded : length t.ids ≤ 65_536
  pub same_blocks : (id : String) → is_some (find id t.index) ≡ is_some (find id blocks.entries)

module _ {D : Type 0} (blocks : Registry D) (v : IsOrdered blocks)
    (has_air : is_some (find air blocks.entries) ≡ true) (few : size blocks.entries ≤ 65_536) where
  air_listed : mem air blocks.order ≡ true
  air_listed = sym (v.listed air) ∙ has_air

  ready : Ready blocks.order only_air
  ready = record {
    table = only_air-IsTable;
    zeroth = ground (arith, find-put air air 0 (empty {K = String} {V = ℕ}));
    fresh = λ k m n.
        ground (arith, n, find-put air k 0 (empty {K = String} {V = ℕ}), find-empty {V = ℕ} k);
    room = omega (arith, others_but_one blocks.order v.distinct air_listed, v.sized, few);
  }

  numbered : Numbers blocks (push_ids blocks.order only_air)
  numbered =
      let p = push_ids-Pushed blocks.order only_air v.distinct ready in
      let count = others_but_one blocks.order v.distinct air_listed in
      record {
        table = p.table;
        zeroth = p.kept air 0 ready.zeroth;
        sized = omega (arith, p.sized, count, v.sized);
        bounded = omega (arith, p.sized, count, v.sized, few);
        same_blocks = λ id. ground (
          arith,
          p.there id,
          v.listed id,
          air_listed,
          find-put air id 0 (empty {K = String} {V = ℕ}),
          find-empty {V = ℕ} id,
        );
      }

-- The table of a registry in order numbers its blocks from 0 on without a gap, each once and air
-- first, and looks both ways: the cast to 16 bits never wraps.
pub block_id_table-Numbers :
    {D : Type 0} (blocks : Registry D) (t : BlockIdTable)
    → IsOrdered blocks
    → block_id_table blocks ≡ ok t
    → Numbers blocks t
unfolding block_id_table
block_id_table-Numbers blocks t v h =
    let (has_air, rest) = require-eq-ok _ _ _ t h in
    let (few, made) = require-eq-ok _ _ _ t rest in
    subst (Numbers blocks) (ok_injective made) (numbered blocks v has_air (leb→le _ _ few))
