-- ===== src/Comm/Queue.antt =====
-- world/communication/BoundedEnvelopeQueue.h: the FIFO with a fixed capacity, generic in what it
-- holds. Sizes do not wrap: a queue never holds more than its capacity.
pub mod Order
use clone_craft.Base.{
  ℕ, ◌+◌, ◌-◌, Bool, true, false, Option, none, some, List, [], ◌∷◌, ◌++◌, length, leb,
  if◌then◌else◌,
}

pub record BoundedQueue (A : Type 0) : Type 0 where
  pub capacity : ℕ
  pub items : List A

module _ {A : Type 0} where
  unfoldable pub new : ℕ → BoundedQueue A
  new capacity = record { capacity = capacity; items = [] }

  unfoldable pub try_push : A → BoundedQueue A → Bool × BoundedQueue A
  try_push a q =
      if leb q.capacity (length q.items)
      then (false, q)
      else (true, record q { items = q.items ++ a ∷ [] })

  abbrev pub head : List A → Option A
  head [] = none
  head (a ∷ rest) = some a

  abbrev pub tail : List A → List A
  tail [] = []
  tail (a ∷ rest) = rest

  unfoldable pub pop : BoundedQueue A → Option A × BoundedQueue A
  pop q = (head q.items, record q { items = tail q.items })

  unfoldable pub peek : BoundedQueue A → Option A
  peek q = head q.items

  unfoldable pub available : BoundedQueue A → ℕ
  available q = if leb q.capacity (length q.items) then 0 else q.capacity - length q.items

  abbrev empty_list : List A → Bool
  empty_list [] = true
  empty_list (a ∷ rest) = false

  unfoldable pub is_empty_queue : BoundedQueue A → Bool
  is_empty_queue q = empty_list q.items

  unfoldable pub is_full : BoundedQueue A → Bool
  is_full q = leb q.capacity (length q.items)

  unfoldable pub size : BoundedQueue A → ℕ
  size q = length q.items
