-- ===== src/Ilma/Flight/Trail.antt =====
-- The trail of the selected aircraft.
use fintraffic.Base.{
  ℕ, suc, ◌≡◌, refl, sym, ap, ◌∙◌, true, List, [], ◌∷◌, ◌++◌, Option, none, some, String, arith,
  map, length, subst, if_cases,
}
use text.Mathlib.TextEquality.{eq_iff}
use fintraffic.Base.Number.{Number}
use fintraffic.Shared.Geo.{Trig}
use fintraffic.Ilma.Aircraft.{Aircraft}
use fintraffic.Ilma.Flight.{
  TrailPoint, Position, Segment, Coord, coord_of, pieces, to_trail, Flight, Event, selects,
  trail_answers, polls, step, run, get, live_position, live_end, drawn_trail, drawn_for,
  is_selected,
}

-- The pieces lead from one place to another without a gap.
unfoldable pub Joins : {A : Type 0} → Position A → List (Segment A) → Position A → Type 0
Joins a [] b = a ≡ b
Joins a (s ∷ segments) b = (s.start ≡ a) × Joins s.finish segments b

same_some : (k h : String) → some k ≡ some h → k ≡ h
same_some k h e = cc

module _ {A : Type 0} (n : Number A) where
  pieces-Joins :
      (c last : Coord A) (coords : List (Coord A))
      → Joins c.place (pieces n c (coords ++ (last ∷ []))) last.place
        × (length (pieces n c (coords ++ (last ∷ []))) ≡ suc (length coords))
  unfolding pieces Joins
  pieces-Joins c last [] = ((refl, refl), refl)
  pieces-Joins c last (d ∷ coords) =
      let rest = pieces-Joins d last coords in ((refl, rest.0), ap (λ (k : ℕ). suc k) rest.1)

  length-map {ℓ κ} :
      {A : Type ℓ} {B : Type κ} (f : A → B) (xs : List A) → length (map f xs) ≡ length xs
  length-map f [] = refl
  length-map f (x ∷ xs) = ap (λ (k : ℕ). suc k) (length-map f xs)

module _ {A : Type 0} (n : Number A) (trig : Trig A) where
  -- The trail that is drawn for a selected aircraft leads, without a gap, from its first recorded
  -- point to where the aircraft is shown at the time, in as many pieces as there are recorded points.
  pub drawn_trail-Joins :
      (s : Flight A) (clock : A) (hex : String) (a : Aircraft A) (p : TrailPoint A)
      (points : List (TrailPoint A))
      → s.selected ≡ some hex
      → get (λ (b : Aircraft A). b.hex) hex s.aircraft ≡ some a
      → s.trail ≡ p ∷ points
      → Joins
          (p.longitude, p.latitude)
          (drawn_trail n trig s clock)
          (live_position n trig a (n.add clock s.clock_offset))
        × (length (drawn_trail n trig s clock) ≡ length (p ∷ points))
  unfolding drawn_trail to_trail
  drawn_trail-Joins s clock hex a p points e f g =
      let now = n.add clock s.clock_offset in
      let same =
        ap (drawn_for n trig now s.trail s.aircraft) e
        ∙ ap (λ o. to_trail n s.trail (live_end n trig now o)) f
        ∙ ap (λ t. to_trail n t (live_end n trig now (some a))) g in
      let joined = pieces-Joins n (coord_of n p) _ (map (coord_of n) points) in
      (
        subst
            (λ (t : List (Segment A)).
              Joins (p.longitude, p.latitude) t (live_position n trig a now))
            (sym same) joined.0,
        ap length same ∙ joined.1 ∙ ap (λ (k : ℕ). suc k) (length-map n (coord_of n) points),
      )

-- What the trails are: `P hex` holds of the recorded points of the aircraft `hex`, and of none.
module _ {A : Type 0} (n : Number A) (trig : Trig A)
    (P : String → List (TrailPoint A) → Type 0) where
  unfoldable pub Belongs : Flight A → Type 0
  Belongs s = (hex : String) → s.selected ≡ some hex → P hex s.trail

  -- Every answer is of the aircraft that it was asked for.
  unfoldable pub IsGenuine : List (Event A) → Type 0
  IsGenuine [] = Unit
  IsGenuine (selects hex ∷ es) = IsGenuine es
  IsGenuine (trail_answers hex points ∷ es) = P hex points × IsGenuine es
  IsGenuine (polls time now aircraft ∷ es) = IsGenuine es

  answered-Belongs :
      (o : Option String) (hex : String) (points trail : List (TrailPoint A))
      → P hex points
      → is_selected o hex ≡ true
      → (h : String) → o ≡ some h
      → P h points
  answered-Belongs none hex points trail p e h f = absurd (ground (arith, e))
  answered-Belongs (some k) hex points trail p e h f =
      let at : hex ≡ k = sym ((eq_iff k hex).0 e) in
      subst (λ (x : String). P x points) (at ∙ same_some k h f) p

  step-Belongs :
      (s : Flight A) (e : Event A)
      → ((hex : String) → P hex [])
      → IsGenuine (e ∷ [])
      → Belongs s
      → Belongs (step n trig s e)
  unfolding step Belongs IsGenuine
  step-Belongs s (selects hex) empty g b = λ h e. empty h
  step-Belongs s (trail_answers hex points) empty g b =
      if_cases (λ (t : Flight A). (h : String) → t.selected ≡ some h → P h t.trail)
        (is_selected s.selected hex)
        (λ e h f. answered-Belongs s.selected hex points s.trail g.0 e h f) (λ e. b)
  step-Belongs s (polls time now aircraft) empty g b = b

  -- Whatever is selected and however late the answers come, the trail is of the aircraft that is
  -- selected then.
  pub run-Belongs :
      (es : List (Event A)) (s : Flight A)
      → ((hex : String) → P hex [])
      → IsGenuine es
      → Belongs s
      → Belongs (run n trig s es)
  unfolding run IsGenuine
  run-Belongs [] s empty g b = b
  run-Belongs (selects hex ∷ es) s empty g b =
      run-Belongs es (step n trig s (selects hex)) empty g (step-Belongs s (selects hex) empty tt b)
  run-Belongs (trail_answers hex points ∷ es) s empty g b =
      run-Belongs es (step n trig s (trail_answers hex points)) empty g.1
        (step-Belongs s (trail_answers hex points) empty (g.0, tt) b)
  run-Belongs (polls time now aircraft ∷ es) s empty g b =
      run-Belongs es (step n trig s (polls time now aircraft)) empty g
        (step-Belongs s (polls time now aircraft) empty tt b)
