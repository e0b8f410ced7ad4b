-- ===== src/Chunks/Chunk/Sweep.antt =====
-- The loop that drops what the sidecars hold for a block.
use clone_craft.Base.{
  ℕ, ◌≡◌, refl, ap, ◌∙◌, String, Bool, Option, none, some, List, [], ◌∷◌, if◌then◌else◌, ite, same,
  string_key, nat_key, arith,
}
use clone_craft.Assoc.{find, erase, contains, find-put, find-erase, erase_absent}
use clone_craft.Chunks.Sidecar
use clone_craft.Chunks.Sidecar.{Sidecar, is_empty_sidecar}
use clone_craft.Chunks.Chunk.{PropertySidecar, Sidecars, cleaned, sweep}

-- What the loop makes of one sidecar.
unfoldable pub clean : ℕ → Option PropertySidecar → Option PropertySidecar
clean i none = none
clean i (some s) = let s' = (Sidecar.remove i s).1 in if is_empty_sidecar s' then none else some s'

remove_twice :
    (i : ℕ) (s : PropertySidecar)
    → (Sidecar.remove i (Sidecar.remove i s).1).1 ≡ (Sidecar.remove i s).1
unfolding Sidecar.remove
remove_twice i s =
    ap (λ m. record s { entries = m })
      (erase_absent i (erase i s.entries) (ground (arith, find-erase i i s.entries)))

clean_twice : (i : ℕ) (o : Option PropertySidecar) → clean i (clean i o) ≡ clean i o
unfolding clean
clean_twice i none = refl
clean_twice i (some s) = ground (arith, remove_twice i s)

find-cleaned :
    (i : ℕ) (k j : String) (o : Option PropertySidecar) (m : Sidecars)
    → find k m ≡ o
    → find j (cleaned i k o m) ≡ ite (same k j) (clean i (find j m)) (find j m)
unfolding cleaned clean
find-cleaned i k j none m h = ground (arith, h)
find-cleaned i k j (some s) m h =
    ground (arith, h, find-erase k j m, find-put k j (Sidecar.remove i s).1 m)

abbrev among : String → List (String × PropertySidecar) → Bool
among j entries = contains j (record { entries = entries })

find-sweep-among :
    (i : ℕ) (j : String) (entries : List (String × PropertySidecar)) (m : Sidecars)
    → find j (sweep i entries m) ≡ (if among j entries then clean i (find j m) else find j m)
unfolding sweep find
find-sweep-among i j [] m = refl
find-sweep-among i j ((k, s) ∷ rest) m =
    find-sweep-among i j rest (cleaned i k (find k m) m)
    ∙ ground (arith, find-cleaned i k j (find k m) m refl, clean_twice i (find j m))

-- Every sidecar loses its entry for the block and is dropped if that was the last.
pub find-sweep :
    (i : ℕ) (j : String) (m : Sidecars) → find j (sweep i m.entries m) ≡ clean i (find j m)
unfolding clean
find-sweep i j m = find-sweep-among i j m.entries m ∙ ground arith
