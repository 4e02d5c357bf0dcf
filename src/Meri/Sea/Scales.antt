-- ===== src/Meri/Sea/Scales.antt =====
-- What the scales and ramps have in common: on an ascending scale the loop finds the one step that
-- holds the value.
use fintraffic.Base.{
  ℕ, suc, ◌≤◌, ◌≡◌, refl, true, false, List, [], ◌∷◌, arith, if_cases, ◌∙◌, if◌then◌else◌, ◌+◌,
}
use fintraffic.Base.Number.{Number, IsOrdered, IsRounded, decimal}
use fintraffic.Meri.Sea.{
  last_reached, douglas, beaufort, douglas_limits, beaufort_limits, calm, still, Step,
}

module _ {A : Type 0} (n : Number A) where
  -- How many steps a value reaches.
  abbrev pub reached : A → List (Step A) → ℕ
  reached value [] = 0
  reached value (s ∷ steps) =
      let rest = reached value steps in if n.le s.min value then suc rest else rest

  -- From one step to the next the limit does not fall and the degree grows by one.
  IsRising : Step A → List (Step A) → Type 0
  IsRising s [] = Unit
  IsRising s (t ∷ steps) =
      ((n.le s.min t.min ≡ true) × (t.degree ≡ suc s.degree)) × IsRising t steps

module _ {A : Type 0} (n : Number A) (o : IsOrdered n) where
  none_reached :
      (value : A) (s : Step A) (steps : List (Step A))
      → IsRising n s steps
      → n.le s.min value ≡ false
      → reached n value steps ≡ 0
  unfolding IsRising
  none_reached value s [] h low = refl
  none_reached value s (t ∷ steps) h low =
      let below : n.le t.min value ≡ false = ground (arith, o.le_trans s.min t.min value h.0.0) in
      rw below (none_reached value t steps h.1 below)

  stays :
      (value : A) (s out : Step A) (steps : List (Step A))
      → IsRising n s steps
      → n.le s.min value ≡ false
      → last_reached n (λ (t : Step A). t.min) value out steps ≡ out
  unfolding IsRising last_reached
  stays value s out [] h low = refl
  stays value s out (t ∷ steps) h low =
      let below : n.le t.min value ≡ false = ground (arith, o.le_trans s.min t.min value h.0.0) in
      rw below (stays value t out steps h.1 below)

  climbs :
      (value : A) (s : Step A) (steps : List (Step A))
      → IsRising n s steps
      → (last_reached n (λ (t : Step A). t.min) value s steps).degree
        ≡ reached n value steps + s.degree
  unfolding IsRising last_reached
  climbs value s [] h = omega arith
  climbs value s (t ∷ steps) h = ground (
    arith,
    h.0.1,
    climbs value t steps h.1,
    none_reached value t steps h.1,
    stays value t s steps h.1,
  )

module _ {A : Type 0} (n : Number A) (o : IsOrdered n) (r : IsRounded n) where
  hundredths : (a c : ℕ) → a ≤ c → n.le (decimal n a 100) (decimal n c 100) ≡ true
  hundredths a c h = r.decimal_mono a 100 c 100 (omega arith) (omega arith) (omega (arith, h))

  tenths : (a c : ℕ) → a ≤ c → n.le (decimal n a 10) (decimal n c 10) ≡ true
  tenths a c h = r.decimal_mono a 10 c 10 (omega arith) (omega arith) (omega (arith, h))

  douglas_rises : IsRising n (calm n) (douglas_limits n)
  unfolding IsRising
  douglas_rises = (
    (hundredths 0 10 (omega arith), refl),
    (
      (hundredths 10 50 (omega arith), refl),
      (
        (hundredths 50 125 (omega arith), refl),
        (
          (hundredths 125 250 (omega arith), refl),
          (
            (hundredths 250 400 (omega arith), refl),
            (
              (hundredths 400 600 (omega arith), refl),
              (
                (hundredths 600 900 (omega arith), refl),
                ((hundredths 900 1400 (omega arith), refl), tt),
              ),
            ),
          ),
        ),
      ),
    ),
  )

  beaufort_rises : IsRising n (still n) (beaufort_limits n)
  unfolding IsRising
  beaufort_rises = (
    (tenths 0 5 (omega arith), refl),
    (
      (tenths 5 16 (omega arith), refl),
      (
        (tenths 16 34 (omega arith), refl),
        (
          (tenths 34 55 (omega arith), refl),
          (
            (tenths 55 80 (omega arith), refl),
            (
              (tenths 80 108 (omega arith), refl),
              (
                (tenths 108 139 (omega arith), refl),
                (
                  (tenths 139 172 (omega arith), refl),
                  (
                    (tenths 172 208 (omega arith), refl),
                    (
                      (tenths 208 245 (omega arith), refl),
                      (
                        (tenths 245 285 (omega arith), refl),
                        ((tenths 285 327 (omega arith), refl), tt),
                      ),
                    ),
                  ),
                ),
              ),
            ),
          ),
        ),
      ),
    ),
  )

  -- The Douglas degree of a wave height is the number of limits it reaches, of the eight limits
  -- above calm, and the Beaufort force of a wind speed likewise, of its twelve.
  pub degree-reached :
      (value : A)
      → ((douglas n value).degree ≡ reached n value (douglas_limits n))
        × ((beaufort n value).degree ≡ reached n value (beaufort_limits n))
  unfolding douglas beaufort last_reached
  degree-reached value = (
    if_cases
        (λ (s : Step A).
          (last_reached n (λ (t : Step A). t.min) value s (douglas_limits n)).degree
          ≡ reached n value (douglas_limits n))
        (n.le (calm n).min value)
        (λ e. climbs n o value (calm n) (douglas_limits n) douglas_rises ∙ ground arith)
        (λ e. climbs n o value (calm n) (douglas_limits n) douglas_rises ∙ ground arith),
    if_cases
        (λ (s : Step A).
          (last_reached n (λ (t : Step A). t.min) value s (beaufort_limits n)).degree
          ≡ reached n value (beaufort_limits n))
        (n.le (still n).min value)
        (λ e. climbs n o value (still n) (beaufort_limits n) beaufort_rises ∙ ground arith)
        (λ e. climbs n o value (still n) (beaufort_limits n) beaufort_rises ∙ ground arith),
  )
