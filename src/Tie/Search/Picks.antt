-- ===== src/Tie/Search/Picks.antt =====
-- What a pick from the search selects.
use fintraffic.Base.{
  ℕ, ◌≡◌, refl, ap, ◌∙◌, sym, Bool, true, false, List, [], ◌∷◌, ◌++◌, some, map, find, any,
  any-append, arith, Bool-cases, inl, inr, ◌==◌,
}
use fintraffic.Base.Number.{Number}
use fintraffic.Shared.Ids.{colon, Text, chars, text_eq, make_id, parse_id}
use fintraffic.Shared.Ids.RoundTrip.{text_eq_refl, eq_of_text_eq, parse-make, find-key}
use fintraffic.Tie.Traffic.{Theme}
use fintraffic.Tie.Search.{
  station_item, facility_item, camera_item, charger_item, weather_item, Selection, station, parking,
  camera, charger, weather, TieData, Tie, SearchItem, selection_id, selected, picked, search_items,
  select, pick_search_result, select_found,
}

-- The item is in the list.
abbrev pub is_offered : Text → List SearchItem → Bool
is_offered id items = any (λ (i : SearchItem). text_eq i.id id) items

-- An item of one list is offered by the key of one of the things in it.
offered_key :
    {B : Type 0} (kind : Text) (key_of : B → Text) (item : B → SearchItem)
    → ((b : B) → (item b).id ≡ make_id kind (key_of b))
    → (xs : List B) (id : Text) → is_offered id (map item xs) ≡ true
    → (key : Text) × (make_id kind key ≡ id) × (any (λ x. text_eq (key_of x) key) xs ≡ true)
offered_key kind key_of item same [] id e = absurd (ground (arith, e))
offered_key kind key_of item same (x ∷ xs) id e = elim (Bool-cases (text_eq (item x).id id)) [
  | inl at ↦ (
    key_of x,
    sym (same x) ∙ eq_of_text_eq (item x).id id at,
    ground (arith, text_eq_refl (key_of x)),
  )
  | inr on ↦
      let rest = offered_key kind key_of item same xs id (ground (arith, e, on)) in
      (rest.0, rest.1, ground (arith, rest.2))
]

module _ {A : Type 0} (n : Number A) (digits : ℕ → Text) (lower : Text → Text) where
  -- A pick selects something of the id.
  abbrev Picks : TieData A → Text → Type 0
  Picks feeds id =
      (x : Selection A) × (picked digits feeds (parse_id id) ≡ some x)
      × (selection_id digits x ≡ id)

  kind-Picks :
      {B : Type 0} (feeds : TieData A) (kind : Text) (key_of : B → Text) (item : B → SearchItem)
      (as_selection : B → Selection A) (xs : List B) (id : Text)
      → any (λ c. c == colon) kind ≡ false
      → ((b : B) → (item b).id ≡ make_id kind (key_of b))
      → ((b : B) → selection_id digits (as_selection b) ≡ make_id kind (key_of b))
      → ((key : Text)
          → picked digits feeds (kind, key)
            ≡ selected digits as_selection (find (λ x. text_eq (key_of x) key) xs))
      → is_offered id (map item xs) ≡ true
      → Picks feeds id
  kind-Picks feeds kind key_of item as_selection xs id plain same id_of looks e =
      let o = offered_key kind key_of item same xs id e in
      let f = find-key key_of xs o.0 o.2 in
      (
        as_selection f.0,
        ap (λ t. picked digits feeds (parse_id t)) (sym o.1)
            ∙ ap (picked digits feeds) (parse-make kind o.0 plain)
            ∙ looks o.0
            ∙ ap (selected digits as_selection) f.1,
        id_of f.0 ∙ ap (make_id kind) f.2 ∙ o.1,
      )

  offered-Picks :
      (theme : Theme) (feeds : TieData A) (id : Text)
      → is_offered id (search_items n digits lower theme feeds) ≡ true
      → Picks feeds id
  unfolding search_items text_eq selection_id
  offered-Picks theme feeds id e =
      split (map (station_item n digits lower theme) feeds.stations) _ e
        (kind-Picks feeds (chars "station") (λ s. digits s.id) (station_item n digits lower theme)
          station feeds.stations id refl (λ s. refl) (λ s. refl) (λ key. refl))
        (λ e1.
          split (map (facility_item n digits lower theme) feeds.facilities) _ e1
            (kind-Picks feeds (chars "parking") (λ f. digits f.id)
              (facility_item n digits lower theme) parking feeds.facilities id refl (λ f. refl)
              (λ f. refl) (λ key. refl))
            (λ e2.
              split (map (camera_item n digits lower theme) feeds.cameras) _ e2
                (kind-Picks feeds (chars "camera") (λ c. chars c.id)
                  (camera_item n digits lower theme) camera feeds.cameras id refl (λ c. refl)
                  (λ c. refl) (λ key. refl))
                (λ e3.
                  split (map (charger_item n digits lower theme) feeds.chargers) _ e3
                    (kind-Picks feeds (chars "charger") (λ c. chars c.id)
                      (charger_item n digits lower theme) charger feeds.chargers id refl (λ c. refl)
                      (λ c. refl) (λ key. refl))
                    (kind-Picks feeds (chars "weather") (λ w. digits w.id)
                      (weather_item n digits lower theme) weather feeds.weathers id refl (λ w. refl)
                      (λ w. refl) (λ key. refl)))))
    where
      split :
          (xs ys : List SearchItem)
          → is_offered id (xs ++ ys) ≡ true
          → (is_offered id xs ≡ true → Picks feeds id)
          → (is_offered id ys ≡ true → Picks feeds id)
          → Picks feeds id
      split xs ys h f g = elim (Bool-cases (is_offered id xs)) [
        | inl here ↦ f here
        | inr later ↦
            g (ground (arith, any-append (λ (i : SearchItem). text_eq i.id id) xs ys, h, later))
      ]

  selection-select :
      (mobile : Bool) (x : Selection A) (s : Tie A) → (select mobile x s).selection ≡ some x
  unfolding select
  selection-select true x s = refl
  selection-select false x s = refl

  -- A pick of an item that the search offers selects something whose sheet key is the item's id, on a
  -- phone or not.
  pub pick-selects :
      (mobile : Bool) (theme : Theme) (id : Text) (s : Tie A)
      → is_offered id (search_items n digits lower theme s.feeds) ≡ true
      → (x : Selection A) × ((pick_search_result digits mobile id s).selection ≡ some x)
        × (selection_id digits x ≡ id)
  unfolding pick_search_result select
  pick-selects mobile theme id s e =
      let p = offered-Picks theme s.feeds id e in
      (
        p.0,
        ap (λ o. (select_found digits mobile o s).selection) p.1 ∙ selection-select mobile p.0 s,
        p.2,
      )
