-- ===== src/Shared/Style/Feeds.antt =====
-- The maps of Tie and Raide: each feed brings a source and its layers into the style when its first
-- answer comes, the theme swaps the style under it, and handlers are bound once.
pub mod Whole
pub mod Runs
pub mod Returns
use fintraffic.Base.{
  ◌≡◌, refl, sym, ap, ◌∙◌, Bool, true, false, not, ◌&&◌, ◌||◌, List, [], ◌∷◌, ◌++◌, Option, none,
  some, String, if◌then◌else◌, any, all, arith, str_eq,
}
use fintraffic.Shared.Style.{
  layer_named, Item, same, MapApi, IsMap, add_all, set_layers_visible, and_then,
}

-- `guards` are the sources whose presence the feed tests, `items` what it adds, in order, `keys`
-- the switches of its layers, `bound` the layers that get handlers.
pub record Feed (L : Type 0) : Type 0 where
  pub guards : List Item
  pub items : List Item
  pub keys : List L
  pub bound : List String

-- `themeRef`, `styleThemeRef`, `styleReadyRef`, `visibilityRef` and `boundLayers`; whether the
-- listeners of a swap wait for the new style; the layers that handlers were registered for, in order.
pub record MapState (S L Theme : Type 0) : Type 0 where
  pub style : S
  pub theme : Theme
  pub style_theme : Theme
  pub style_ready : Bool
  pub waiting : Bool
  pub visibility : L → Bool
  pub bound_layers : List String
  pub handlers : List String

-- The map's `load`; a new theme; `style.load` or `styledata`; new switches; the answer of a feed, with
-- the theme when it was asked for. The style that was set last has landed by a style event.
pub data Event (K L Theme : Type 0) : Type 0 where
  loads : Event K L Theme
  themes : Theme → Event K L Theme
  style_loads : Event K L Theme
  switches : (L → Bool) → Event K L Theme
  answers : Theme → K → Event K L Theme

module _ {S L Theme : Type 0} where
  -- `bindOnce(layerId, bind)`.
  abbrev pub bind_once : String → MapState S L Theme → MapState S L Theme
  bind_once id m =
      if any (str_eq id) m.bound_layers
      then m
      else record m { bound_layers = id ∷ m.bound_layers; handlers = id ∷ m.handlers }

  unfoldable pub bind_all : List String → MapState S L Theme → MapState S L Theme
  bind_all [] m = m
  bind_all (id ∷ ids) m = bind_all ids (bind_once id m)

-- `same_theme` compares two themes, `style_url` is the basemap's style of a theme, `layer_ids` and
-- `layer_order` are the layers of a switch and all switches, `feed` what each feed brings, by the theme when it was asked for and that when it answers.
module _ {S K L Theme : Type 0} (api : MapApi S) (same_theme : Theme → Theme → Bool)
    (style_url : Theme → String) (layer_ids : L → List String) (layer_order : List L)
    (feed : Theme × Theme → K → Feed L) where
  open api use {present, set_style, landed}

  -- The theme effect: the old listeners are off, and a new theme discards the style.
  unfoldable pub set_theme : Theme → MapState S L Theme → MapState S L Theme
  set_theme theme m =
      if same_theme m.style_theme theme
      then record m { theme = theme; waiting = false }
      else record m {
        theme = theme;
        style_theme = theme;
        style_ready = false;
        style = set_style (style_url theme) m.style;
        waiting = true;
      }

  -- `onReady`: the first of the two events counts.
  unfoldable pub on_ready : MapState S L Theme → MapState S L Theme
  on_ready m = if m.waiting then record m { waiting = false; style_ready = true } else m

  -- `setLayersVisible` for each switch.
  unfoldable pub show_all : List L → (L → Bool) → S → S
  unfolding set_layers_visible
  show_all [] visibility s = s
  show_all (k ∷ ks) visibility s =
      show_all ks visibility (set_layers_visible api (layer_ids k) (visibility k) s)

  -- What a first answer adds.
  unfoldable pub install_feed : Feed L → MapState S L Theme → Option (MapState S L Theme)
  unfolding add_all show_all bind_all
  install_feed f m =
      and_then (add_all api f.items m.style)
        (λ s. some (bind_all f.bound (record m { style = show_all f.keys m.visibility s })))

  -- An answer: `setData` where the sources are there, nothing while a swap is under way, and the
  -- install otherwise. `none` is a call that throws.
  unfoldable pub answer : Theme → K → MapState S L Theme → Option (MapState S L Theme)
  unfolding install_feed
  answer asked k m =
      if all (present m.style) (feed (asked, m.theme) k).guards
      then some m
      else if not m.style_ready
      then some m
      else install_feed (feed (asked, m.theme) k) m

  unfoldable pub step : Event K L Theme → MapState S L Theme → Option (MapState S L Theme)
  unfolding set_theme on_ready show_all answer
  step loads m = some (record m { style_ready = true; style = landed m.style })
  step (themes theme) m = some (set_theme theme m)
  step style_loads m = some (on_ready (record m { style = landed m.style }))
  step (switches visibility) m =
      some (record m { visibility = visibility; style = show_all layer_order visibility m.style })
  step (answers asked k) m = answer asked k m

  unfoldable pub run : List (Event K L Theme) → MapState S L Theme → Option (MapState S L Theme)
  unfolding step
  run [] m = some m
  run (e ∷ es) m = and_then (step e m) (run es)
