-- ===== src/Meri/Sea.antt =====
-- The scales of the sea conditions: lib/seaConditions.ts.
pub mod Scales
mod Tests
use fintraffic.Base.{ℕ, Bool, true, false, List, [], ◌∷◌, String, if◌then◌else◌}
use fintraffic.Base.Number.{Number, decimal}

-- A step of a scale: `degree` or `force`, by the smallest value that reaches it.
pub record Step (A : Type 0) : Type 0 where
  pub min : A
  pub degree : ℕ
  pub label : String

-- The loop of `douglas`, `beaufort` and `rampColor`: the last step that the value reaches, or else
-- the one before the loop.
module _ {A B : Type 0} (n : Number A) (min : B → A) where
  unfoldable pub last_reached : A → B → List B → B
  last_reached value out [] = out
  last_reached value out (s ∷ steps) =
      last_reached value (if n.le (min s) value then s else out) steps

module _ {A : Type 0} (n : Number A) where
  abbrev pub band : ℕ → ℕ → ℕ → String → Step A
  band a b degree label = record { min = decimal n a b; degree = degree; label = label }

  abbrev pub calm : Step A
  calm = band 0 100 0 "Calm (glassy)"

  -- `DOUGLAS` is `calm` and these.
  abbrev pub douglas_limits : List (Step A)
  douglas_limits =
      band 10 100 1 "Calm (rippled)"
      ∷ band 50 100 2 "Smooth"
      ∷ band 125 100 3 "Slight"
      ∷ band 250 100 4 "Moderate"
      ∷ band 400 100 5 "Rough"
      ∷ band 600 100 6 "Very rough"
      ∷ band 900 100 7 "High"
      ∷ band 1400 100 8 "Very high"
      ∷ []

  unfoldable pub douglas : A → Step A
  unfolding last_reached
  douglas wave_height = last_reached n (λ s. s.min) wave_height calm (calm ∷ douglas_limits)

  abbrev pub still : Step A
  still = band 0 10 0 "Calm"

  -- `BEAUFORT` is `still` and these.
  abbrev pub beaufort_limits : List (Step A)
  beaufort_limits =
      band 5 10 1 "Light air"
      ∷ band 16 10 2 "Light breeze"
      ∷ band 34 10 3 "Gentle breeze"
      ∷ band 55 10 4 "Moderate breeze"
      ∷ band 80 10 5 "Fresh breeze"
      ∷ band 108 10 6 "Strong breeze"
      ∷ band 139 10 7 "Near gale"
      ∷ band 172 10 8 "Gale"
      ∷ band 208 10 9 "Strong gale"
      ∷ band 245 10 10 "Storm"
      ∷ band 285 10 11 "Violent storm"
      ∷ band 327 10 12 "Hurricane force"
      ∷ []

  unfoldable pub beaufort : A → Step A
  unfolding last_reached
  beaufort wind_speed = last_reached n (λ s. s.min) wind_speed still (still ∷ beaufort_limits)

  -- A ramp as pairs of a value and the colour from there on.
  abbrev pub Ramp : Type 0
  Ramp = List (A × String)

  abbrev pub wave_ramp : Ramp
  wave_ramp =
      (decimal n 0 100, "#22d3ee")
      ∷ (decimal n 50 100, "#2dd4bf")
      ∷ (decimal n 125 100, "#facc15")
      ∷ (decimal n 250 100, "#fb923c")
      ∷ (decimal n 400 100, "#ef4444")
      ∷ (decimal n 600 100, "#d946ef")
      ∷ []

  abbrev pub wind_ramp : Ramp
  wind_ramp =
      (decimal n 0 10, "#22d3ee")
      ∷ (decimal n 55 10, "#2dd4bf")
      ∷ (decimal n 108 10, "#facc15")
      ∷ (decimal n 139 10, "#fb923c")
      ∷ (decimal n 172 10, "#ef4444")
      ∷ (decimal n 245 10, "#d946ef")
      ∷ []

  -- The colour of a ramp that is not empty, given apart from its first pair.
  unfoldable pub ramp_color : A × String → Ramp → A → String
  unfolding last_reached
  ramp_color first rest value = (last_reached n (λ s. s.0) value first (first ∷ rest)).1
