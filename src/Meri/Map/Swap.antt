-- ===== src/Meri/Map/Swap.antt =====
-- The style of the sea map after a swap of themes.
use fintraffic.Base.{◌≡◌, refl, Bool, ◌||◌, some, String, arith}
use fintraffic.Shared.Style.{Item, MapApi, IsMap}
use fintraffic.Shared.Style.Install.{
  flatten, holds, IsClearOf, swapped, install-swapped, install-again,
}
use fintraffic.Meri.Map.{content, setup_map_content}

module _ {S : Type 0} (api : MapApi S) (laws : IsMap api) where
  -- Let the basemap have none of the set-up's images, sources and layers. Once it has landed in place
  -- of another style, whatever that held, the set-up throws nothing and leaves in it the basemap's own
  -- and the images, sources and layers of its list, and no other; and to run it again, for either
  -- theme's labels, changes nothing.
  pub swap-setup :
      (url : String) (dark dark' : Bool) (s : S)
      → IsClearOf api laws (flatten (content dark)) url
      → (s' : S) × (setup_map_content api dark (swapped api laws url s) ≡ some s')
        × ((i : Item) → api.present s' i ≡ (holds (flatten (content dark)) i || api.basemap url i))
        × (setup_map_content api dark' s' ≡ some s')
  unfolding setup_map_content
  swap-setup url dark dark' s clear =
      let done = install-swapped api laws (content dark) url s refl clear in
      (
        done.0,
        done.1,
        done.2,
        install-again api laws (content dark') done.0 (λ j e. ground (arith, done.2 j, e)),
      )
