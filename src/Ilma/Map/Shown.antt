-- ===== src/Ilma/Map/Shown.antt =====
-- What the air map shows after a swap of themes.
use fintraffic.Base.{◌≡◌, Bool, ◌&&◌}
use fintraffic.Shared.Style.{MapApi, IsMap}
use fintraffic.Ilma.Aircraft.{AircraftGroup}
use fintraffic.Ilma.Layers.{LayerKey, labels}
use fintraffic.Ilma.Map.Content.{alert_id, icon_id, label_id}
use fintraffic.Ilma.Map.{group_key}

module _ {S : Type 0} (api : MapApi S) (laws : IsMap api) where
  -- What is visible of a group.
  abbrev pub GroupShown : (LayerKey → Bool) → S → AircraftGroup → Type 0
  GroupShown v s group =
      (api.visible s (alert_id group) ≡ v (group_key group))
      × (api.visible s (icon_id group) ≡ v (group_key group))
      × (api.visible s (label_id group) ≡ (v (group_key group) && v labels))
