-- ===== src/World/Property/AtBlock.antt =====
-- A write of a property of a block.
use clone_craft.Base.{
  ◌≡◌, ◌≢◌, refl, sym, ap, ◌∙◌, subst, String, Bool, true, false, Option, none, some, inl, inr, ite,
  same, if_pos, if_neg, if◌then◌else◌, string_key, nat_key, ◌&&◌,
}
use clone_craft.Values.{PropertyValue, SidecarDef, value_fits_sidecar_def}
use clone_craft.Exec.{Result, ok, >>=-ok}
use clone_craft.Coords.{BlockAddress}
use clone_craft.State.Hierarchy.{block_key}
use clone_craft.State.Target.{WorldStateTarget, as_block}
use clone_craft.Registry.{PrototypePropertyDef}
use clone_craft.Chunks.Manager
use clone_craft.Chunks.Manager.{ChunkManager}
use clone_craft.Chunks.Manager.View.{override, Place}
use clone_craft.Chunks.Manager.Properties.{PropertySet, reports, left}
use clone_craft.Chunks.Manager.SetProperty.{set_block_property-PropertySet}
use clone_craft.World.{
  WorldState, declared, declared_by, logical_default_for, resolved, reading, on_chunks,
}
use clone_craft.World.Order.{Fits, IsWorld, owner, decl_at, declared-decl_at, decl_at-takes}
use clone_craft.World.Property.{set_at, set_declared, or_default, announce_if, delta}
use clone_craft.World.Property.Effective.{
  IsTarget, effective, shown_at, shown_by, place_at, effective-def, as_block-value, resolved-find,
}
use clone_craft.World.Property.Typed.{value_fits_sidecar_def-Fits}
use clone_craft.World.Property.Stored.{
  fits-value_eq, left-shows, left-quiet, left-loud, left-delta, left-some,
}
use clone_craft.World.Property.Shows.{
  taken, accepts, Shows, PropertyWritten, refused, stores, stored, stored_at, effective-from,
  announced-PropertyWritten, default_of, default_by,
}

logical_default-written :
    (def : SidecarDef) (decl : PrototypePropertyDef)
    → logical_default_for def decl ≡ default_by def (some decl)
unfolding logical_default_for
logical_default-written def decl = refl

module _ (w : WorldState) (v : IsWorld w) (t : WorldStateTarget) (id : String)
    (value : PropertyValue) (b : BlockAddress) (at_b : as_block t ≡ some b) (p : Place b)
    (def : SidecarDef) (r : resolved t id w ≡ some def)
    (fits : value_fits_sidecar_def def value ≡ true) where
  module _ (decl : PrototypePropertyDef) (here : decl_at b id w ≡ some decl) where
    abbrev d : PropertyValue
    d = logical_default_for def decl

    module _ (x : Result Bool × ChunkManager) (set : PropertySet b id value d w.chunks x) where
      abbrev w₁ : WorldState
      w₁ = stores x.1 w.hierarchy w

      decl_at-kept : (c : BlockAddress) (q : String) → Place c → decl_at c q w₁ ≡ decl_at c q w
      unfolding decl_at
      decl_at-kept c q k = ap (λ o. declared_by q (owner o w.ids w.prototypes)) (set.blocks c k)

      override-after :
          (c : BlockAddress) (n : String)
          → Place c
          → override c n x.1
            ≡ ite
                (same b c)
                (ite (same id n) (left value d (override b id w.chunks)) (override c n w.chunks))
                (override c n w.chunks)
      override-after c n k =
          set.overrides c n k
          ∙ ap
              (λ z.
                if z
                then ite (same b c)
                    (ite (same id n) (left value d (override b id w.chunks))
                      (override c n w.chunks))
                    (override c n w.chunks)
                else override c n w.chunks)
              (decl_at-takes b id w decl here)

      override-here : override b id x.1 ≡ left value d (override b id w.chunks)
      override-here =
          override-after b id p ∙ if_pos (same b b) refl _ _ ∙ if_pos (same id id) refl _ _

      override-apart :
          (c : BlockAddress) (n : String)
          → Place c
          → (b ≡ c → id ≢ n)
          → override c n x.1 ≡ override c n w.chunks
      override-apart c n k apart = override-after c n k ∙ elim (same b c) [
        | yes e ↦ if_pos (same b c) e _ _ ∙ if_neg (same id n) (apart e) _ _
        | no other ↦ if_neg (same b c) other _ _
      ]

      left-Fits :
          (y : PropertyValue)
          → left value d (override b id w.chunks) ≡ some y
          → Fits w.sidecars id y
      left-Fits y h = elim (left-some value d (override b id w.chunks) y h) [
        | inl old ↦ v.typed b id y p old
        | inr new ↦
            subst (λ z. Fits w.sidecars id z) new
              (value_fits_sidecar_def-Fits w v id def (resolved-find t id w def r) value fits)
      ]

      typed_after :
          (c : BlockAddress) (n : String) (y : PropertyValue)
          → Place c
          → override c n x.1 ≡ some y
          → Fits w.sidecars n y
      typed_after c n y k h = elim (same b c) [
        | yes e ↦ elim (same id n) [
          | yes f ↦
              subst (λ i. Fits w.sidecars i y) f
                (left-Fits y (
                  sym (override-after c n k ∙ if_pos (same b c) e _ _ ∙ if_pos (same id n) f _ _)
                  ∙ h))
          | no other ↦ v.typed c n y k (sym (override-apart c n k (λ e. other)) ∙ h)
        ]
        | no other ↦ v.typed c n y k (sym (override-apart c n k (λ e. absurd (other e))) ∙ h)
      ]

      stores-IsWorld : IsWorld w₁
      stores-IsWorld = record {
        chunks = set.managed;
        claimed = v.claimed;
        checked = v.checked;
        known = λ c i k h. v.known c i k (sym (set.blocks c k) ∙ h);
        typed = typed_after;
        typed_above = v.typed_above;
      }

      shown_apart :
          (u : WorldStateTarget) (q : String) (def : SidecarDef) (o : Option BlockAddress)
          → IsTarget u
          → as_block u ≡ o
          → (t.value ≡ u.value → id ≢ q)
          → shown_at u o q def w₁ ≡ shown_at u o q def w
      unfolding shown_at
      shown_apart u q def none target h apart = refl
      shown_apart u q def (some c) target h apart =
          let k = place_at u c target h in
          let other : override c q x.1 ≡ override c q w.chunks =
            override-apart c q k
              (λ e. apart (as_block-value t u c (at_b ∙ ap (λ a. some a) e) h)) in
          λ i. shown_by def (decl_at-kept c q k i) (other i)

      shown_here :
          (z : Option PropertyValue)
          → override b id x.1 ≡ z
          → effective t id w₁ ≡ some (or_default z d)
      unfolding shown_at
      shown_here z h =
          effective-def t id w₁ def (some b) r at_b
          ∙ (λ i. shown_by def ((decl_at-kept b id p ∙ here) i) (h i))

      shown_before : effective t id w ≡ some (or_default (override b id w.chunks) d)
      unfolding shown_at
      shown_before =
          effective-def t id w def (some b) r at_b
          ∙ ap (λ o. shown_by def o (override b id w.chunks)) here

      stores-Shows : Shows t id value w w₁
      stores-Shows = record {
        world = stores-IsWorld;
        here = (
          or_default (left value d (override b id w.chunks)) d,
          shown_here _ override-here,
          left-shows value d (override b id w.chunks) (fits-value_eq def value fits),
        );
        elsewhere = λ u q target apart.
            effective-from u q w x.1 w.hierarchy w.events
              (λ def. shown_apart u q def (as_block u) target refl apart);
        blocks = set.blocks;
      }

      quiet :
          reports value d (override b id w.chunks) ≡ false → effective t id w₁ ≡ effective t id w
      quiet h =
          shown_here _ (override-here ∙ left-quiet value d (override b id w.chunks) h)
          ∙ sym shown_before

      stored_after : stored t id w₁ ≡ left value d (override b id w.chunks)
      stored_after = ap (λ o. stored_at t o id x.1 w.hierarchy) at_b ∙ override-here

      stored_before : stored t id w ≡ override b id w.chunks
      stored_before = ap (λ o. stored_at t o id w.chunks w.hierarchy) at_b

      accepted : accepts t id value w ≡ true
      unfolding accepts taken
      accepted = (λ i. taken (r i) value (shown_before i)) ∙ ap (λ z. z && true) fits

      stored_then_told :
          PropertyWritten t id value w
            (announce_if (reports value d (override b id w.chunks)) t id def (delta value d) w₁)
      stored_then_told =
          announced-PropertyWritten t id value d def w x.1 w.hierarchy
            (reports value d (override b id w.chunks)) accepted r
            (logical_default-written def decl
              ∙ sym (ap (λ o. default_of o id def w) at_b ∙ ap (λ o. default_by def o) here))
            stores-Shows quiet
            (λ h. stored_after ∙ left-quiet value d (override b id w.chunks) h ∙ sym stored_before)
            (λ h e.
              left-loud value d (override b id w.chunks) (fits-value_eq def value fits) h
                (sym stored_after ∙ e ∙ stored_before))
            (λ h. stored_after ∙ left-delta value d (override b id w.chunks) h)

    set_declared-PropertyWritten :
        PropertyWritten t id value w (set_declared t b id def value (some decl) w)
    unfolding set_declared on_chunks
    set_declared-PropertyWritten =
        let set = set_block_property-PropertySet b id value d w.chunks p v.chunks in
        let x = Manager.set_block_property b id value d w.chunks in
        let returned =
          set.returned
          ∙ ap (λ z. ok (z && reports value d (override b id w.chunks)))
              (decl_at-takes b id w decl here) in
        subst (PropertyWritten t id value w)
          (sym (
            >>=-ok (on_chunks (Manager.set_block_property b id value d))
              (λ told. announce_if told t id def (delta value d)) w (stores x.1 w.hierarchy w)
              (reports value d (override b id w.chunks))
              (λ i. (returned i, stores x.1 w.hierarchy w))))
          (stored_then_told x set)

  undeclared : decl_at b id w ≡ none → accepts t id value w ≡ false
  unfolding accepts taken shown_at
  undeclared h =
      (λ i. taken (r i) value (
        (effective-def t id w def (some b) r at_b
            ∙ ap (λ o. shown_by def o (override b id w.chunks)) h)
          i))
      ∙ ap (λ z. z && false) fits

  by_decl :
      (o : Option PrototypePropertyDef)
      → decl_at b id w ≡ o
      → PropertyWritten t id value w (set_declared t b id def value o w)
  unfolding set_declared
  by_decl none h = refused (undeclared h)
  by_decl (some decl) h = set_declared-PropertyWritten decl h

  pub at_block-PropertyWritten : PropertyWritten t id value w (set_at t (some b) id def value w)
  unfolding set_at
  at_block-PropertyWritten =
      subst (PropertyWritten t id value w)
        (sym (
          >>=-ok (reading (declared b id)) (λ decl. set_declared t b id def value decl) w w
            (decl_at b id w) (ap (λ x. (x, w)) (declared-decl_at w v b id p))))
        (by_decl (decl_at b id w) refl)
