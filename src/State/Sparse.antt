-- ===== src/State/Sparse.antt =====
-- world/state/HierarchySidecarStore.h: `PropertyBag` and `SparseStore`, the overrides of one scope.
-- An operation that reports a change returns it beside the new store.
pub mod Lookup
pub mod Lean
use clone_craft.Base.{
  ℕ, ◌+◌, String, Bool, true, false, Option, none, some, List, [], ◌∷◌, ◌==◌, if◌then◌else◌, Key,
  string_key,
}
use clone_craft.Assoc.{Map, find, contains, put, try_emplace, erase, empty, size}
use clone_craft.Values.{PropertyValue, value_eq}

abbrev pub PropertyBag : Type 0
PropertyBag = Map String PropertyValue

abbrev pub SparseStore : Type 0 → Type 0
SparseStore A = Map A PropertyBag

abbrev pub bag_empty : PropertyBag → Bool
bag_empty bag = size bag == 0

abbrev bag_get : String → Option PropertyBag → Option PropertyValue
bag_get id none = none
bag_get id (some bag) = find id bag

-- `it != end( ) && it->second == value`
abbrev pub holds : PropertyValue → Option PropertyValue → Bool
holds value none = false
holds value (some stored) = value_eq stored value

abbrev or_new : Option PropertyBag → PropertyBag
or_new none = empty
or_new (some bag) = bag

module _ {A : Type 0} ⦃key : Key A⦄ where
  unfoldable pub get : A → String → SparseStore A → Option PropertyValue
  get address id store = bag_get id (find address store)

  -- An empty bag takes its address with it.
  store_bag : A → PropertyBag → SparseStore A → SparseStore A
  store_bag address bag store = if bag_empty bag then erase address store else put address bag store

  remove_found : A → String → Option PropertyBag → SparseStore A → Bool × SparseStore A
  unfolding store_bag
  remove_found address id none store = (false, store)
  remove_found address id (some bag) store =
      (contains id bag, store_bag address (erase id bag) store)

  unfoldable pub remove : A → String → SparseStore A → Bool × SparseStore A
  unfolding remove_found
  remove address id store = remove_found address id (find address store) store

  unfoldable pub set :
      A → String → PropertyValue → PropertyValue → SparseStore A → Bool × SparseStore A
  unfolding remove_found
  set address id value removal_default store =
      if value_eq value removal_default
      then remove_found address id (find address store) store
      else let bag = or_new (find address store) in
        if holds value (find id bag)
        then (false, try_emplace address empty store)
        else (true, put address (put id value bag) store)

  unfoldable pub address_count : SparseStore A → ℕ
  address_count store = size store

  total : List (A × PropertyBag) → ℕ
  total [] = 0
  total ((address, bag) ∷ rest) = size bag + total rest

  unfoldable pub entry_count : SparseStore A → ℕ
  unfolding total
  entry_count store = total store.entries
