-- ===== src/Chunks/Sidecar.antt =====
-- world/chunk/Sidecar.h: the sparse values of one sidecar type in a chunk, by local index. The
-- section's parameter is the `==` of the value type.
use clone_craft.Base.{
  ℕ, ◌≡◌, Bool, true, false, not, ◌&&◌, ◌||◌, Option, none, some, leb, ltb, ◌==◌, if◌then◌else◌,
  nat_key, ite, same, arith,
}
use clone_craft.Assoc.{Map, find, put, erase, empty, size, contains, is_some, find-put, find-erase}

pub record Sidecar (V : Type 0) : Type 0 where
  pub default_value : V
  pub capacity : ℕ
  pub entries : Map ℕ V

module _ {V : Type 0} where
  abbrev pub new : V → ℕ → Sidecar V
  new default capacity = record { default_value = default; capacity = capacity; entries = empty }

  abbrev pub get : ℕ → Sidecar V → Option V
  get i s = find i s.entries

  abbrev pub is_empty_sidecar : Sidecar V → Bool
  is_empty_sidecar s = size s.entries == 0

  unfoldable pub remove : ℕ → Sidecar V → Bool × Sidecar V
  remove i s = (contains i s.entries, record s { entries = erase i s.entries })

  abbrev pub clear : Sidecar V → Sidecar V
  clear s = record s { entries = empty }

module _ {V : Type 0} (eq : V → V → Bool) where
  abbrev pub holds : V → Option V → Bool
  holds value none = false
  holds value (some stored) = eq stored value

  unfoldable pub set_with_default : ℕ → V → V → Sidecar V → Bool × Sidecar V
  unfolding remove
  set_with_default i value removal_default s =
      if not (s.capacity == 0) && leb s.capacity i
      then (false, s)
      else if eq value removal_default
      then remove i s
      else if holds value (find i s.entries)
      then (false, s)
      else (true, record s { entries = put i value s.entries })

  unfoldable pub set : ℕ → V → Sidecar V → Bool × Sidecar V
  unfolding set_with_default
  set i value s = set_with_default i value s.default_value s

  -- What is read after a write, and whether the write reports a change.
  pub set_with_default-get :
      (i j : ℕ) (v d : V) (s : Sidecar V)
      → (s.capacity == 0 || ltb i s.capacity) ≡ true
      → ((set_with_default i v d s).0
          ≡ (if eq v d then is_some (get i s) else not (holds v (get i s))))
        × (get j (set_with_default i v d s).1
            ≡ ite
                (same i j)
                (if eq v d then none else if holds v (get i s) then get i s else some v)
                (get j s))
  unfolding set_with_default
  set_with_default-get i j v d s within =
      ground (arith, within, find-put i j v s.entries, find-erase i j s.entries)
