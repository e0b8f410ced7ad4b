-- ===== src/World/Property/Above.antt =====
-- A write of a property above the block scope.
use clone_craft.Base.{
  ◌≡◌, ◌≢◌, refl, sym, ap, ◌∙◌, subst, String, true, false, not, Option, none, some, inl, inr, same,
  if◌then◌else◌, string_key, ◌&&◌,
}
use clone_craft.Assoc.{is_some}
use clone_craft.Values.{PropertyValue, SidecarDef, value_eq, value_fits_sidecar_def}
use clone_craft.Coords.{BlockAddress}
use clone_craft.State.Target.{WorldStateTarget, as_block}
use clone_craft.State.Hierarchy
use clone_craft.State.Hierarchy.{HierarchySidecarStore}
use clone_craft.State.Hierarchy.Separate.{set-separate, set-reports}
use clone_craft.State.Sparse
use clone_craft.Chunks.Sidecar.{holds}
use clone_craft.Chunks.Manager.Properties.{reports, left}
use clone_craft.World.{WorldState, resolved}
use clone_craft.World.Order.{Fits, IsWorld, decl_at}
use clone_craft.World.Sink.{WorldStateTarget-discrete}
use clone_craft.World.Property.{set_at, or_default, announce_if, delta}
use clone_craft.World.Property.Effective.{
  effective, shown_at, effective-def, not-a-block, resolved-find,
}
use clone_craft.World.Property.Typed.{value_fits_sidecar_def-Fits}
use clone_craft.World.Property.Stored.{
  fits-value_eq, left-shows, left-quiet, left-loud, left-delta, left-some,
}
use clone_craft.World.Property.Shows.{
  taken, accepts, Shows, PropertyWritten, stores, stored, stored_at, effective-from,
  announced-PropertyWritten, default_of,
}

holds-same : (v : PropertyValue) (o : Option PropertyValue) → Sparse.holds v o ≡ holds value_eq v o
holds-same v none = refl
holds-same v (some x) = refl

module _ (w : WorldState) (v : IsWorld w) (t : WorldStateTarget) (id : String)
    (value : PropertyValue) (above : as_block t ≡ none) (def : SidecarDef)
    (r : resolved t id w ≡ some def) (fits : value_fits_sidecar_def def value ≡ true) where
  abbrev d : PropertyValue
  d = def.default_value

  abbrev old : Option PropertyValue
  old = Hierarchy.get t id w.hierarchy

  abbrev h₁ : HierarchySidecarStore
  h₁ = (Hierarchy.set t id value d w.hierarchy).1

  abbrev w₁ : WorldState
  w₁ = stores w.chunks h₁ w

  told : (Hierarchy.set t id value d w.hierarchy).0 ≡ reports value d old
  told =
      set-reports t id value d w.hierarchy (not-a-block t above)
      ∙ ap (λ z. if value_eq value d then is_some old else not z) (holds-same value old)

  got : Hierarchy.get t id h₁ ≡ left value d old
  got =
      (set-separate t t id id value d w.hierarchy (not-a-block t above)).0
      ∙ ap (λ z. if value_eq value d then none else if z then old else some value)
          (holds-same value old)

  got_apart :
      (u : WorldStateTarget) (q : String)
      → (t.value ≡ u.value → id ≢ q)
      → Hierarchy.get u q h₁ ≡ Hierarchy.get u q w.hierarchy
  got_apart u q = (set-separate t u id q value d w.hierarchy (not-a-block t above)).1

  left-Fits : (y : PropertyValue) → left value d old ≡ some y → Fits w.sidecars id y
  left-Fits y h = elim (left-some value d old y h) [
    | inl before ↦ v.typed_above t id y before
    | inr new ↦
        subst (λ z. Fits w.sidecars id z) new
          (value_fits_sidecar_def-Fits w v id def (resolved-find t id w def r) value fits)
  ]

  typed_after :
      (u : WorldStateTarget) (n : String) (y : PropertyValue)
      → Hierarchy.get u n h₁ ≡ some y
      → Fits w.sidecars n y
  typed_after u n y h = elim (WorldStateTarget-discrete t u) [
    | yes e ↦ elim (same id n) [
      | yes f ↦
          subst (λ i. Fits w.sidecars i y) f
            (left-Fits y (sym got ∙ (λ i. Hierarchy.get (e i) (f i) h₁) ∙ h))
      | no other ↦ v.typed_above u n y (sym (got_apart u n (λ k. other)) ∙ h)
    ]
    | no other ↦
        v.typed_above u n y
          (sym (got_apart u n (λ k. absurd (other (λ i. record { value = k i })))) ∙ h)
  ]

  shown_apart :
      (u : WorldStateTarget) (q : String) (def : SidecarDef) (o : Option BlockAddress)
      → (t.value ≡ u.value → id ≢ q)
      → shown_at u o q def w₁ ≡ shown_at u o q def w
  unfolding shown_at decl_at
  shown_apart u q def none apart =
      ap (λ z. some (or_default z def.default_value)) (got_apart u q apart)
  shown_apart u q def (some c) apart = refl

  shown_after :
      (z : Option PropertyValue)
      → Hierarchy.get t id h₁ ≡ z
      → effective t id w₁ ≡ some (or_default z d)
  unfolding shown_at
  shown_after z h = effective-def t id w₁ def none r above ∙ ap (λ o. some (or_default o d)) h

  shown_before : effective t id w ≡ some (or_default old d)
  unfolding shown_at
  shown_before = effective-def t id w def none r above

  stores-Shows : Shows t id value w w₁
  stores-Shows = record {
    world = record {
      chunks = v.chunks;
      claimed = v.claimed;
      checked = v.checked;
      known = v.known;
      typed = v.typed;
      typed_above = typed_after;
    };
    here = (
      or_default (left value d old) d,
      shown_after _ got,
      left-shows value d old (fits-value_eq def value fits),
    );
    elsewhere = λ u q target apart.
        effective-from u q w w.chunks h₁ w.events (λ def. shown_apart u q def (as_block u) apart);
    blocks = λ b p. refl;
  }

  quiet : reports value d old ≡ false → effective t id w₁ ≡ effective t id w
  quiet h = shown_after _ (got ∙ left-quiet value d old h) ∙ sym shown_before

  stored_after : stored t id w₁ ≡ left value d old
  stored_after = ap (λ o. stored_at t o id w.chunks h₁) above ∙ got

  stored_before : stored t id w ≡ old
  stored_before = ap (λ o. stored_at t o id w.chunks w.hierarchy) above

  accepted : accepts t id value w ≡ true
  unfolding accepts taken
  accepted = (λ i. taken (r i) value (shown_before i)) ∙ ap (λ z. z && true) fits

  pub above-PropertyWritten : PropertyWritten t id value w (set_at t none id def value w)
  unfolding set_at
  above-PropertyWritten =
      subst (λ z. PropertyWritten t id value w (announce_if z t id def (delta value d) w₁))
        (sym told)
        (announced-PropertyWritten t id value d def w w.chunks h₁ (reports value d old) accepted r
          (sym (ap (λ o. default_of o id def w) above)) stores-Shows quiet
          (λ h. stored_after ∙ left-quiet value d old h ∙ sym stored_before)
          (λ h e.
            left-loud value d old (fits-value_eq def value fits) h
              (sym stored_after ∙ e ∙ stored_before))
          (λ h. stored_after ∙ left-delta value d old h))
