-- ===== src/Ilma/App/Selected.antt =====
-- What is selected in the air mode, and where the map is sent.
use text.Mathlib.TextEquality.{eq_iff}
use fintraffic.Base.{
  ℕ, suc, ◌+◌, ◌≡◌, refl, ap, ◌∙◌, sym, Bool, true, false, List, [], ◌∷◌, Option, none, some, find,
  arith, length, str_eq, Bool-cases, inl, inr, String,
}
use fintraffic.Shared.Ids.{Text, chars, make_id}
use fintraffic.Ilma.Aircraft.{
  Aircraft, Airport, AircraftGroup, airline, general, rotorcraft, military,
}
use fintraffic.Ilma.App.{
  FocusRequest, Ilma, Event, Counts, counted, count_all, counts, polls, airports_come,
  selects_aircraft, selects_airport, searches_aircraft, searches_airport, clears,
  on_aircraft_update, select_aircraft, select_airport, search_aircraft, search_airport,
  clear_selection, reveal_detail, followed, or_prev, key_of, selection_key, aircraft_key,
  airport_key, next_seq, step, run,
}

module _ {A : Type 0} where
  -- What the events make of the sheet's key, when nothing else is known.
  abbrev pub keyed : Event A → Option Text → Option Text
  keyed (polls next) k = k
  keyed (airports_come next) k = k
  keyed (selects_aircraft mobile a) k = some (aircraft_key a)
  keyed (selects_airport mobile ap) k = some (airport_key ap)
  keyed (searches_aircraft mobile a) k = some (aircraft_key a)
  keyed (searches_airport mobile ap) k = some (airport_key ap)
  keyed clears k = none

  abbrev pub keyed_all : List (Event A) → Option Text → Option Text
  keyed_all [] k = k
  keyed_all (e ∷ es) k = keyed_all es (keyed e k)

  found-hex :
      (a : Aircraft A) (hex : String) (next : List (Aircraft A))
      → find (λ x. str_eq x.hex hex) next ≡ some a
      → a.hex ≡ hex
  found-hex a hex [] e = absurd (ground (arith, e))
  found-hex a hex (x ∷ next) e = elim (Bool-cases (str_eq x.hex hex)) [
    | inl at ↦
        let here : x ≡ a = ground (arith, at, e) in
        ap (λ y. y.hex) (sym here) ∙ (eq_iff x.hex hex).0 at
    | inr off ↦ found-hex a hex next (ground (arith, off, e))
  ]

  or_prev-hex :
      (prev : Aircraft A) (found : Option (Aircraft A))
      → ((a : Aircraft A) → found ≡ some a → a.hex ≡ prev.hex)
      → (or_prev prev found).hex ≡ prev.hex
  or_prev-hex prev none e = refl
  or_prev-hex prev (some a) e = e a refl

  followed-key :
      (next : List (Aircraft A)) (a : Option (Aircraft A)) (ap : Option (Airport A))
      → key_of (followed next a) ap ≡ key_of a ap
  followed-key next none ap = refl
  followed-key next (some prev) o =
      ap (λ hex. some (make_id (chars "aircraft") (chars hex)))
        (or_prev-hex prev (find (λ a. str_eq a.hex prev.hex) next)
          (λ a e. found-hex a prev.hex next e))

  step-key : (e : Event A) (s : Ilma A) → selection_key (step e s) ≡ keyed e (selection_key s)
  unfolding step selection_key on_aircraft_update select_aircraft select_airport search_aircraft
      search_airport clear_selection reveal_detail
  step-key (polls next) s = followed-key next s.selected_aircraft s.selected_airport
  step-key (airports_come next) s = refl
  step-key (selects_aircraft mobile a) s = refl
  step-key (selects_airport mobile ap) s = refl
  step-key (searches_aircraft mobile a) s = refl
  step-key (searches_airport mobile ap) s = refl
  step-key clears s = refl

  -- The key that the sheet follows is a function of the selections alone: through any events, the key
  -- of the state is the key that the selections and searches among them set last, none after a
  -- clear, and polls leave it as it is, also when they bring the selected aircraft anew or have lost
  -- it.
  pub run-key :
      (events : List (Event A)) (s : Ilma A)
      → selection_key (run events s) ≡ keyed_all events (selection_key s)
  unfolding run
  run-key [] s = refl
  run-key (e ∷ es) s = run-key es (step e s) ∙ ap (λ k. keyed_all es k) (step-key e s)

  -- At most one of the two is selected.
  abbrev pub one_of : Option (Aircraft A) → Option (Airport A) → Bool
  one_of none ap = true
  one_of (some a) none = true
  one_of (some a) (some ap) = false

  unfoldable pub is_exclusive : Ilma A → Bool
  is_exclusive s = one_of s.selected_aircraft s.selected_airport

  -- The number of the last request to the map.
  abbrev pub seq_of : Option (FocusRequest A) → ℕ
  seq_of none = 0
  seq_of (some f) = f.seq

  abbrev pub searches : List (Event A) → ℕ
  searches [] = 0
  searches (searches_aircraft mobile a ∷ es) = suc (searches es)
  searches (searches_airport mobile ap ∷ es) = suc (searches es)
  searches (_ ∷ es) = searches es

  followed-one :
      (next : List (Aircraft A)) (a : Option (Aircraft A)) (ap : Option (Airport A))
      → one_of a ap ≡ true
      → one_of (followed next a) ap ≡ true
  followed-one next none ap e = refl
  followed-one next (some a) none e = refl
  followed-one next (some a) (some ap) e = e

  step-exclusive :
      (e : Event A) (s : Ilma A) → is_exclusive s ≡ true → is_exclusive (step e s) ≡ true
  unfolding step is_exclusive on_aircraft_update select_aircraft select_airport search_aircraft
      search_airport clear_selection reveal_detail
  step-exclusive (polls next) s e = followed-one next s.selected_aircraft s.selected_airport e
  step-exclusive (airports_come next) s e = e
  step-exclusive (selects_aircraft mobile a) s e = refl
  step-exclusive (selects_airport mobile ap) s e = refl
  step-exclusive (searches_aircraft mobile a) s e = refl
  step-exclusive (searches_airport mobile ap) s e = refl
  step-exclusive clears s e = refl

  next-seq : (f : Option (FocusRequest A)) → next_seq f ≡ suc (seq_of f)
  next-seq none = refl
  next-seq (some f) = refl

  step-seq :
      (e : Event A) (es : List (Event A)) (s : Ilma A)
      → seq_of (step e s).focus + searches es ≡ seq_of s.focus + searches (e ∷ es)
  unfolding step on_aircraft_update select_aircraft select_airport search_aircraft search_airport
      clear_selection reveal_detail
  step-seq (polls next) es s = refl
  step-seq (airports_come next) es s = refl
  step-seq (selects_aircraft mobile a) es s = refl
  step-seq (selects_airport mobile ap) es s = refl
  step-seq (searches_aircraft mobile a) es s = ground (arith, next-seq s.focus)
  step-seq (searches_airport mobile ap) es s = ground (arith, next-seq s.focus)
  step-seq clears es s = refl

  -- Through any events, an aircraft and an airport are never selected at once if they were not at the
  -- start, and the number of the request to the map has grown by one for each pick of the search.
  pub run-exclusive :
      (events : List (Event A)) (s : Ilma A)
      → is_exclusive s ≡ true
      → (is_exclusive (run events s) ≡ true)
        × (seq_of (run events s).focus ≡ seq_of s.focus + searches events)
  unfolding run
  run-exclusive [] s e = (e, ground arith)
  run-exclusive (e ∷ es) s start =
      let later = run-exclusive es (step e s) (step-exclusive e s start) in
      (later.0, later.1 ∙ step-seq e es s)

abbrev pub total : Counts → ℕ
total c = c.airline + c.general + c.rotorcraft + c.military

total-counted : (g : AircraftGroup) (c : Counts) → total (counted g c) ≡ suc (total c)
total-counted airline c = ground arith
total-counted general c = ground arith
total-counted rotorcraft c = ground arith
total-counted military c = ground arith

total-count_all :
    {A : Type 0} (aircraft : List (Aircraft A)) (c : Counts)
    → total (count_all aircraft c) ≡ length aircraft + total c
unfolding count_all
total-count_all [] c = ground arith
total-count_all (a ∷ aircraft) c =
    let rest = total-count_all aircraft (counted a.group c) in
    let one = total-counted a.group c in ground (arith, rest, one)

-- The counts at the four chips add up to the number of aircraft of the answer.
counts-total :
    {A : Type 0} (aircraft : List (Aircraft A)) → total (counts aircraft) ≡ length aircraft
unfolding counts
counts-total aircraft = ground (
  arith,
  total-count_all aircraft (record { airline = 0; general = 0; rotorcraft = 0; military = 0 }),
)
