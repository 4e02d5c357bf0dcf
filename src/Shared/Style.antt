-- ===== src/Shared/Style.antt =====
-- What the maps of the modes put into a map style: images, sources and layers, as the object
-- literals of the source. The map itself is MapLibre's and is a parameter.
pub mod Install
pub mod Feeds
pub mod Switched
pub mod Listed
use fintraffic.Base.{
  ℕ, Bool, true, false, ◌&&◌, ◌||◌, List, [], ◌∷◌, Option, none, some, String, if◌then◌else◌, any,
  str_eq, ◌≡◌, ◌==◌,
}
use fintraffic.Base.Int.{ℤ}

-- A JavaScript literal; a number is in thousandths, an array a chain of items that `end` closes, an
-- object a chain of fields.
pub data Json : Type 0 where
  end : Json
  flag : Bool → Json
  num : ℤ → Json
  text : String → Json
  item : Json → Json → Json
  field : String → Json → Json → Json

abbrev pub arr : List Json → Json
arr [] = Json.end
arr (x ∷ xs) = item x (arr xs)

abbrev pub obj : List (String × Json) → Json
obj [] = Json.end
obj ((key, x) ∷ fields) = field key x (obj fields)

pub record Layer : Type 0 where
  pub id : String
  pub type : String
  pub source : String
  pub minzoom : Option ℤ
  pub filter : Option Json
  pub layout : List (String × Json)
  pub paint : List (String × Json)

-- What a style holds.
pub data Item : Type 0 where
  image : String → Item
  source : String → Item
  layer : Layer → Item

abbrev pub kind : Item → ℕ
kind (image a) = 0
kind (source a) = 1
kind (layer a) = 2

abbrev pub name : Item → String
name (image a) = a
name (source a) = a
name (layer a) = a.id

-- Two items of one kind and name, of which a style holds one at most.
abbrev pub same : Item → Item → Bool
same i j = (kind i == kind j) && str_eq (name i) (name j)

-- A layer as an argument of `getLayer`.
abbrev pub layer_named : String → Item
layer_named id = layer (record {
  id = id;
  type = "";
  source = "";
  minzoom = none;
  filter = none;
  layout = [];
  paint = [];
})

-- The calls of the map: `hasImage`, `getSource` and `getLayer`; `addImage`, `addSource` and
-- `addLayer`, which throw on a name that is taken, and the latter two on a style that is not loaded;
-- `setStyle`; `setLayoutProperty(id, 'visibility', …)` and what it has set. `landed` is the map once
-- the style that it was given last takes sources and layers, which `load`, `style.load` or
-- `styledata` tells; `loaded` is whether it does, `wanted` the address of that style, and `basemap`
-- what the style at an address has of its own.
pub record MapApi (S : Type 0) : Type 0 where
  pub present : S → Item → Bool
  pub add : Item → S → Option S
  pub set_style : String → S → S
  pub landed : S → S
  pub loaded : S → Bool
  pub wanted : S → String
  pub basemap : String → Item → Bool
  pub set_visible : String → Bool → S → S
  pub visible : S → String → Bool

-- What the calls do to the style. Of an addition while no style is loaded, and of what is there
-- between `setStyle` and the landing of the new style, nothing is said.
pub record IsMap {S : Type 0} (api : MapApi S) : Type 0 where
  pub add_new :
      (i : Item) (s : S)
      → api.loaded s ≡ true
      → api.present s i ≡ false
      → (s' : S) × (api.add i s ≡ some s')
        × ((j : Item) → api.present s' j ≡ (same i j || api.present s j))
        × (api.loaded s' ≡ true)
        × (api.wanted s' ≡ api.wanted s)
  pub set_style_wants : (url : String) (s : S) → api.wanted (api.set_style url s) ≡ url
  pub set_style_unloads : (url : String) (s : S) → api.loaded (api.set_style url s) ≡ false
  pub landed_loads : (s : S) → api.loaded (api.landed s) ≡ true
  pub landed_wants : (s : S) → api.wanted (api.landed s) ≡ api.wanted s
  -- A style that lands has what is its own, and nothing of what was added to the one before; a
  -- style that is there stays as it is.
  pub landed_fresh :
      (s : S) (j : Item)
      → api.loaded s ≡ false
      → api.present (api.landed s) j ≡ api.basemap (api.wanted s) j
  pub landed_stays :
      (s : S) (j : Item) → api.loaded s ≡ true → api.present (api.landed s) j ≡ api.present s j
  -- Of a layer that is there.
  pub set_visible_keeps :
      (id : String) (on : Bool) (s : S)
      → api.present s (layer_named id) ≡ true
      → ((j : Item) → api.present (api.set_visible id on s) j ≡ api.present s j)
        × (api.loaded (api.set_visible id on s) ≡ api.loaded s)
        × (api.wanted (api.set_visible id on s) ≡ api.wanted s)
  pub visible-set_visible :
      (id j : String) (on : Bool) (s : S)
      → api.present s (layer_named id) ≡ true
      → api.visible (api.set_visible id on s) j ≡ (if str_eq id j then on else api.visible s j)

-- A call that throws ends the install.
abbrev pub and_then {ℓ κ} : {A : Type ℓ} {B : Type κ} → Option A → (A → Option B) → Option B
and_then none f = none
and_then (some a) f = f a

module _ {S : Type 0} (api : MapApi S) where
  open api use {present, add, set_visible}

  unfoldable pub add_all : List Item → S → Option S
  add_all [] s = some s
  add_all (i ∷ is) s = and_then (add i s) (add_all is)

  -- Items that stand under one test of whether the first of them is there.
  unfoldable pub install_group : List Item → S → Option S
  unfolding add_all
  install_group [] s = some s
  install_group (i ∷ is) s = if present s i then some s else add_all (i ∷ is) s

  unfoldable pub install : List (List Item) → S → Option S
  unfolding install_group
  install [] s = some s
  install (g ∷ gs) s = and_then (install_group g s) (install gs)

  -- `if (m.getLayer(id)) m.setLayoutProperty(id, 'visibility', …)`, for each id.
  unfoldable pub set_layers_visible : List String → Bool → S → S
  set_layers_visible [] on s = s
  set_layers_visible (id ∷ ids) on s =
      set_layers_visible ids on (if present s (layer_named id) then set_visible id on s else s)

  -- Switches in a row, each of some layers.
  unfoldable pub switch_all : List (List String × Bool) → S → S
  unfolding set_layers_visible
  switch_all [] s = s
  switch_all ((ids, on) ∷ switches) s = switch_all switches (set_layers_visible ids on s)
