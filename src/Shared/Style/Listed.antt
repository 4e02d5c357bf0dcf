-- ===== src/Shared/Style/Listed.antt =====
-- A style as a list of items and of the switches that were set, which shows that the laws of the
-- map can hold.
use fintraffic.Base.{
  ◌≡◌, refl, Bool, true, false, not, ◌&&◌, if_cases, List, [], ◌∷◌, none, some, String,
  if◌then◌else◌, str_eq,
}
use fintraffic.Shared.Style.{Item, source, layer_named, MapApi, IsMap}
use fintraffic.Shared.Style.Install.{holds}

pub record Style : Type 0 where
  pub items : List Item
  pub switched : List (String × Bool)
  pub is_loaded : Bool
  pub url : String

-- What every basemap has of its own.
abbrev pub own_items : List Item
own_items = source "carto" ∷ layer_named "roads" ∷ []

-- The last switch of a layer; a layer is visible until it is switched.
abbrev pub switched_to : String → List (String × Bool) → Bool
switched_to id [] = true
switched_to id ((j, on) ∷ switched) = if str_eq j id then on else switched_to id switched

abbrev pub listed : MapApi Style
listed = record {
  present = λ s j. holds s.items j;
  add = λ i s.
      if s.is_loaded && not (holds s.items i)
      then some (record s { items = i ∷ s.items })
      else none;
  set_style = λ url s. record { items = []; switched = []; is_loaded = false; url = url };
  landed = λ s.
      if s.is_loaded then s else record s { items = own_items; switched = []; is_loaded = true };
  loaded = λ s. s.is_loaded;
  wanted = λ s. s.url;
  basemap = λ url j. holds own_items j;
  set_visible = λ id on s. record s { switched = (id, on) ∷ s.switched };
  visible = λ s id. switched_to id s.switched;
}

pub listed-IsMap : IsMap listed
listed-IsMap = record {
  add_new = λ i s l e. (record s { items = i ∷ s.items }, rw l (rw e refl), (λ j. refl), l, refl);
  set_style_wants = λ url s. refl;
  set_style_unloads = λ url s. refl;
  landed_loads = λ s. if_cases (λ (t : Style). t.is_loaded ≡ true) s.is_loaded (λ e. e) (λ e. refl);
  landed_wants = λ s. if_cases (λ (t : Style). t.url ≡ s.url) s.is_loaded (λ e. refl) (λ e. refl);
  landed_fresh = λ s j e. rw e refl;
  landed_stays = λ s j e. rw e refl;
  set_visible_keeps = λ id on s e. (λ j. refl, refl, refl);
  visible-set_visible = λ id j on s e. refl;
}

-- Before the first style has landed.
abbrev pub blank : Style
blank = record { items = []; switched = []; is_loaded = false; url = "" }
