-- ===== src/Coords/Delta/Search.antt =====
-- The search for a difference: what it finds, and how many rounds it takes.
use clone_craft.Base.{
  some_injective, ℕ, zero, suc, ◌+◌, ◌/◌, ◌^◌, ◌≤◌, ◌<◌, ◌≡◌, refl, ap, ◌∙◌, subst, if◌then◌else◌,
  true, Option, none, some, arith, and_split, if_both,
}
use clone_craft.Base.Int.{
  ℤ, pos, negsuc, pos_part, neg_part, ◌+ℤ◌, ◌-ℤ◌, ◌≤ℤ◌, ◌<ℤ◌, leb_ℤ, ltb_ℤ, +ℤ_parts, -ℤ_parts,
  eq_of_parts,
}
use clone_craft.Coords.Axis.{AxisAddress, quot}
use clone_craft.Coords.Delta.{
  eq_ℤ, same_axis, before_axis, Probe, found, over, between, middle, above, below, judge, go_on,
  probe, search,
}

half :
    (d : ℤ)
    → pos 0 ≤ℤ d
    → (neg_part d ≡ 0) × (neg_part (quot d 2) ≡ 0) × (pos_part (quot d 2) ≡ pos_part d / 2)
unfolding quot
half (pos n) h = (refl, refl, refl)
half (negsuc n) h = absurd (ground (arith, h))

abbrev pub twice_pos : ℤ → ℕ
twice_pos m = pos_part m + pos_part m

abbrev pub twice_neg : ℤ → ℕ
twice_neg m = neg_part m + neg_part m

-- The middle of a range halves it.
pub record Half (lo hi m : ℤ) : Type 0 where
  pub least : lo ≤ℤ m
  pub most : m ≤ℤ hi
  pub low : twice_pos m + (neg_part lo + neg_part hi) ≤ pos_part lo + pos_part hi + twice_neg m
  pub high :
      pos_part lo + pos_part hi + twice_neg m ≤ suc (twice_pos m + (neg_part lo + neg_part hi))

pub middle-Half : (lo hi : ℤ) → lo ≤ℤ hi → Half lo hi (middle lo hi)
unfolding middle
middle-Half lo hi h =
    let d = hi -ℤ lo in
    let minus = -ℤ_parts hi lo in
    let plus = +ℤ_parts lo (quot d 2) in
    let (d_pos, q_pos, halved) = half d (omega (arith, h, minus)) in
    record {
      least = omega (arith, plus, q_pos);
      most = omega (arith, h, minus, plus, d_pos, q_pos, halved);
      low = omega (arith, h, minus, plus, d_pos, q_pos, halved);
      high = omega (arith, h, minus, plus, d_pos, q_pos, halved);
    }

pub eq_ℤ→≡ : (a b : ℤ) → eq_ℤ a b ≡ true → a ≡ b
eq_ℤ→≡ a b h = eq_of_parts a b (ground (arith, h))

pub same_axis→≡ : (a b : AxisAddress) → same_axis a b ≡ true → a ≡ b
same_axis→≡ a b h =
    let (h₁, t₁) = and_split _ _ h in
    let (h₂, t₂) = and_split _ _ t₁ in
    let (h₃, t₃) = and_split _ _ t₂ in
    let (h₄, t₄) = and_split _ _ t₃ in
    let (h₅, h₆) = and_split _ _ t₄ in
    λ i. record {
      sector = eq_ℤ→≡ a.sector b.sector h₁ i;
      region = eq_ℤ→≡ a.region b.region h₂ i;
      section = eq_ℤ→≡ a.section b.section h₃ i;
      group = eq_ℤ→≡ a.group b.group h₄ i;
      chunk = eq_ℤ→≡ a.chunk b.chunk h₅ i;
      block = eq_ℤ→≡ a.block b.block h₆ i;
    }

power : (n : ℕ) → 2 ^ suc n ≡ 2 ^ n + 2 ^ n
power n = omega arith

-- A range of fewer places than 2 ^ n.
abbrev pub Fewer : ℕ → ℤ → ℤ → Type 0
Fewer n lo hi = suc (pos_part hi + neg_part lo) < 2 ^ n + (pos_part lo + neg_part hi)

pub above-Fewer :
    (n : ℕ) (lo hi mid : ℤ) → Half lo hi mid → Fewer (suc n) lo hi → Fewer n (mid +ℤ pos 1) hi
above-Fewer n lo hi mid h few = omega (arith, few, +ℤ_parts mid (pos 1), h.high, h.low, power n)

pub below-Fewer :
    (n : ℕ) (lo hi mid : ℤ) → Half lo hi mid → Fewer (suc n) lo hi → Fewer n lo (mid -ℤ pos 1)
below-Fewer n lo hi mid h few = omega (arith, few, -ℤ_parts mid (pos 1), h.high, h.low, power n)

module _ (offset : AxisAddress → ℤ → Option AxisAddress) (position origin : AxisAddress) where
  -- What a round makes of a range.
  data Probed (lo hi : ℤ) : Probe → Type 0 where
    hit : (d : ℤ) → lo ≤ℤ d → d ≤ℤ hi → offset origin d ≡ some position → Probed lo hi (found d)
    passed : hi <ℤ lo → Probed lo hi over
    narrowed :
        (lo' hi' : ℤ)
        → lo ≤ℤ lo'
        → hi' ≤ℤ hi
        → ((n : ℕ) → Fewer (suc n) lo hi → Fewer n lo' hi')
        → Probed lo hi (between lo' hi')

  above-Probed : (lo hi mid : ℤ) → Half lo hi mid → Probed lo hi (above mid hi)
  above-Probed lo hi mid h =
      let next = +ℤ_parts mid (pos 1) in
      narrowed (mid +ℤ pos 1) hi (omega (arith, next, h.least)) (omega arith)
        λ n few. above-Fewer n lo hi mid h few

  below-Probed : (lo hi mid : ℤ) → Half lo hi mid → Probed lo hi (below lo mid)
  below-Probed lo hi mid h =
      let last = -ℤ_parts mid (pos 1) in
      narrowed lo (mid -ℤ pos 1) (omega arith) (omega (arith, last, h.most))
        λ n few. below-Fewer n lo hi mid h few

  judge-Probed :
      (lo hi mid : ℤ) (answer : Option AxisAddress)
      → Half lo hi mid
      → offset origin mid ≡ answer
      → Probed lo hi (judge position lo hi mid answer)
  judge-Probed lo hi mid none h asked =
      if_both (Probed lo hi) (ltb_ℤ mid (pos 0)) (above mid hi) (below lo mid)
        (λ _. above-Probed lo hi mid h) (λ _. below-Probed lo hi mid h)
  judge-Probed lo hi mid (some candidate) h asked =
      if_both (Probed lo hi) (same_axis candidate position) (found mid)
        (if before_axis candidate position then above mid hi else below lo mid)
        (λ same. hit mid h.least h.most (asked ∙ ap some (same_axis→≡ candidate position same)))
        (λ _.
          if_both (Probed lo hi) (before_axis candidate position) (above mid hi) (below lo mid)
            (λ _. above-Probed lo hi mid h) (λ _. below-Probed lo hi mid h))

  probe-Probed : (lo hi : ℤ) → Probed lo hi (probe offset position origin lo hi)
  unfolding probe
  probe-Probed lo hi =
      if_both (Probed lo hi) (leb_ℤ lo hi)
        (judge position lo hi (middle lo hi) (offset origin (middle lo hi))) over
        (λ within.
          judge-Probed lo hi (middle lo hi) (offset origin (middle lo hi))
            (middle-Half lo hi (ground (arith, within))) refl)
        (λ out. passed (ground (arith, out)))

  abbrev Sound : ℤ → ℤ → ℤ → Type 0
  Sound lo hi d = (lo ≤ℤ d) × (d ≤ℤ hi) × (offset origin d ≡ some position)

  go_on-Sound :
      (lo hi d : ℤ) (rest : ℤ → ℤ → Option ℤ) (p : Probe)
      → Probed lo hi p
      → ((lo' hi' : ℤ) → rest lo' hi' ≡ some d → Sound lo' hi' d)
      → go_on rest p ≡ some d
      → Sound lo hi d
  go_on-Sound lo hi d rest _ (hit m low high there) f h =
      subst (Sound lo hi) (some_injective h) (low, high, there)
  go_on-Sound lo hi d rest _ (passed _) f h = absurd (ground (arith, h))
  go_on-Sound lo hi d rest _ (narrowed lo' hi' up down _) f h =
      let (low, high, there) = f lo' hi' h in
      (omega (arith, up, low), omega (arith, down, high), there)

  -- A search that finds a difference found it by an offset that leads to the place.
  pub search-Sound :
      (fuel : ℕ) (lo hi d : ℤ) → search offset position origin fuel lo hi ≡ some d → Sound lo hi d
  unfolding search
  search-Sound zero lo hi d h = absurd (ground (arith, h))
  search-Sound (suc fuel) lo hi d h =
      go_on-Sound lo hi d _ _ (probe-Probed lo hi) (λ lo' hi' h'. search-Sound fuel lo' hi' d h') h

  go_on-same :
      (n : ℕ) (lo hi : ℤ) (f g : ℤ → ℤ → Option ℤ) (p : Probe)
      → Probed lo hi p
      → Fewer (suc n) lo hi
      → ((lo' hi' : ℤ) → Fewer n lo' hi' → f lo' hi' ≡ g lo' hi')
      → go_on f p ≡ go_on g p
  go_on-same n lo hi f g _ (hit _ _ _ _) few same = refl
  go_on-same n lo hi f g _ (passed _) few same = refl
  go_on-same n lo hi f g _ (narrowed lo' hi' _ _ fewer) few same = same lo' hi' (fewer n few)

  past : (fuel : ℕ) (lo hi : ℤ) → hi <ℤ lo → search offset position origin fuel lo hi ≡ none
  unfolding search probe
  past zero lo hi h = refl
  past (suc fuel) lo hi h =
      if_both (λ p. go_on (search offset position origin fuel) p ≡ none) (leb_ℤ lo hi)
        (judge position lo hi (middle lo hi) (offset origin (middle lo hi))) over
        (λ within. absurd (ground (arith, h, within))) (λ _. refl)

  -- Where a range has fewer than 2 ^ n places, n rounds are as good as any more.
  pub search_enough :
      (n more : ℕ) (lo hi : ℤ)
      → Fewer n lo hi
      → n ≤ more
      → search offset position origin more lo hi ≡ search offset position origin n lo hi
  unfolding search
  search_enough zero more lo hi few h = past more lo hi (omega (arith, few))
  search_enough (suc n) zero lo hi few h = absurd (omega (arith, h))
  search_enough (suc n) (suc more) lo hi few h =
      go_on-same n lo hi _ _ _ (probe-Probed lo hi) few
        (λ lo' hi' few'. search_enough n more lo' hi' few' (omega (arith, h)))
