-- ===== src/Meri/Map/Overlays.antt =====
-- Which layers of the sea map are on: the two visibility effects of components/Map.tsx, which run
-- again in each new style.
use fintraffic.Base.{
  ◌≡◌, refl, ap, ◌∙◌, Bool, true, false, not, ◌&&◌, ◌||◌, List, [], ◌∷◌, ◌++◌, some, String, arith,
}
use fintraffic.Shared.Style.{MapApi, IsMap, switch_all}
use fintraffic.Shared.Style.Install.{flatten, IsClearOf, swapped}
use fintraffic.Shared.Style.Switched.{
  last_switch, AllSwitchesPresent, AllSwitchesPresent-holds, visible-switch_all,
}
use fintraffic.Meri.Map.{content, setup_map_content}
use fintraffic.Meri.Map.Swap.{swap-setup}

-- `showPorts`, `showSeaConditions`, `showAton`, `showWebcams`, and whether there is a fleet replay
-- and a track replay.
pub record Shown : Type 0 where
  pub ports : Bool
  pub sea_conditions : Bool
  pub aton : Bool
  pub webcams : Bool
  pub replay : Bool
  pub track_replay : Bool

abbrev pub replay_active : Shown → Bool
replay_active p = p.replay

abbrev pub track_active : Shown → Bool
track_active p = p.track_replay && not (replay_active p)

abbrev pub historical : Shown → Bool
historical p = replay_active p || track_active p

abbrev pub overlay_switches : Shown → List (List String × Bool)
overlay_switches p =
    ("ports-layer" ∷ "ports-labels" ∷ [], p.ports)
    ∷ (
      "buoys-layer" ∷ "sea-level-layer" ∷ "sea-wave-layer" ∷ "sea-wind-layer"
          ∷ "sea-conditions-labels" ∷ [],
      p.sea_conditions,
    )
    ∷ ("aton-layer" ∷ [], p.aton)
    ∷ ("cameras-layer" ∷ [], p.webcams)
    ∷ []

abbrev pub live_layers : List String
live_layers = "vessels-moving" ∷ "vessels-stationary" ∷ "vessel-labels" ∷ "vessel-selection" ∷ []

abbrev pub replay_layers : List String
replay_layers = "replay-vessels" ∷ "replay-labels" ∷ []

abbrev pub track_layers : List String
track_layers = "track-progress-line" ∷ "track-ghost-halo" ∷ "track-ghost" ∷ []

abbrev pub mode_switches : Shown → List (List String × Bool)
mode_switches p =
    (live_layers, not (historical p))
    ∷ (replay_layers, historical p)
    ∷ ("replay-selection" ∷ [], replay_active p)
    ∷ ("trail-line" ∷ [], not (replay_active p))
    ∷ (track_layers, track_active p)
    ∷ []

unfoldable pub show_layers : {S : Type 0} → MapApi S → Shown → S → S
unfolding switch_all
show_layers api p s = switch_all api (overlay_switches p ++ mode_switches p) s

-- The last switch of each of the layers sets the flag.
abbrev AllLast : List (List String × Bool) → List String → Bool → (String → Bool) → Type 0
AllLast switches [] on was = Unit
AllLast switches (id ∷ ids) on was =
    (last_switch switches id (was id) ≡ on) × AllLast switches ids on was

historical_iff : (a b : Bool) → (a || (b && not a)) ≡ (a || b)
historical_iff true b = refl
historical_iff false true = refl
historical_iff false false = refl

module _ {S : Type 0} (api : MapApi S) (laws : IsMap api) where
  -- Each of the layers is visible exactly if the flag is on.
  abbrev pub AreVisible : List String → Bool → S → Type 0
  AreVisible [] on s = Unit
  AreVisible (id ∷ ids) on s = (api.visible s id ≡ on) × AreVisible ids on s

  AreVisible-switched :
      (switches : List (List String × Bool)) (s : S) (ids : List String) (on : Bool)
      → AllSwitchesPresent api laws switches s
      → AllLast switches ids on (api.visible s)
      → AreVisible ids on (switch_all api switches s)
  AreVisible-switched switches s [] on h e = tt
  AreVisible-switched switches s (id ∷ ids) on h e = (
    visible-switch_all api laws switches s id h ∙ e.0,
    AreVisible-switched switches s ids on h e.1,
  )

  -- Let the basemap have none of the set-up's images, sources and layers. Once it has landed in place
  -- of another style and after the set-up, the two effects leave on the map either the live fleet
  -- or a recorded one, and never both: the live layers are visible exactly if there is no replay, the
  -- replayed vessels exactly if there is one, the ghost and its line exactly in a track replay that
  -- no fleet replay covers, and the trail exactly if there is no fleet replay.
  pub live_or_recorded :
      (url : String) (dark : Bool) (p : Shown) (s : S)
      → IsClearOf api laws (flatten (content dark)) url
      → (s' : S) × (setup_map_content api dark (swapped api laws url s) ≡ some s')
        × AreVisible live_layers (not (p.replay || p.track_replay)) (show_layers api p s')
        × AreVisible replay_layers (p.replay || p.track_replay) (show_layers api p s')
        × AreVisible track_layers (p.track_replay && not p.replay) (show_layers api p s')
        × AreVisible ("trail-line" ∷ []) (not p.replay) (show_layers api p s')
  unfolding show_layers
  live_or_recorded url dark p s clear =
      let swap = swap-setup api laws url dark dark s clear in
      let all_there =
        AllSwitchesPresent-holds api laws (flatten (content dark)) swap.0
          (overlay_switches p ++ mode_switches p) (λ i e. ground (arith, swap.2 i, e)) refl in
      let e = historical_iff p.replay p.track_replay in
      let e' = ap not e in
      let shown = AreVisible-switched (overlay_switches p ++ mode_switches p) swap.0 in
      (
        swap.0,
        swap.1,
        shown live_layers _ all_there (e', (e', (e', (e', tt)))),
        shown replay_layers _ all_there (e, (e, tt)),
        shown track_layers _ all_there (refl, (refl, (refl, tt))),
        shown ("trail-line" ∷ []) _ all_there (refl, tt),
      )
