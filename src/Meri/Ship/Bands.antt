-- ===== src/Meri/Ship/Bands.antt =====
-- Which codes make which category.
use fintraffic.Base.{ℕ, ◌≤◌, ◌≡◌, ◌↔◌, ◌⊎◌, some, arith}
use fintraffic.Meri.Ship.{
  ShipCategory, passenger, cargo, tanker, highspeed, special, sailing, military, other, categorize,
}

-- The codes of a category, but for `other`, which has the rest.
unfoldable pub IsCode : ShipCategory → ℕ → Type 0
IsCode passenger t = (60 ≤ t) × (t ≤ 69)
IsCode cargo t = (70 ≤ t) × (t ≤ 79)
IsCode tanker t = (80 ≤ t) × (t ≤ 89)
IsCode highspeed t = (40 ≤ t) × (t ≤ 49)
IsCode special t = ((31 ≤ t) × (t ≤ 34)) ⊎ ((50 ≤ t) × (t ≤ 58))
IsCode sailing t = (36 ≤ t) × (t ≤ 37)
IsCode military t = t ≡ 35
IsCode other t = (t ≤ 30) ⊎ ((38 ≤ t) × (t ≤ 39)) ⊎ (t ≡ 59) ⊎ (90 ≤ t)

-- A vessel with an AIS type code has a category exactly when its code is one of the category: the
-- bands of tens, 35, 36 and 37, and for `special` 31 to 34 and 50 to 58; the rest is `other`.
pub categorize_iff : (t : ℕ) (c : ShipCategory) → (categorize (some t) ≡ c) ↔ IsCode c t
unfolding categorize IsCode
categorize_iff t passenger = ground arith
categorize_iff t cargo = ground arith
categorize_iff t tanker = ground arith
categorize_iff t highspeed = ground arith
categorize_iff t special = ground arith
categorize_iff t sailing = ground arith
categorize_iff t military = ground arith
categorize_iff t other = ground arith
