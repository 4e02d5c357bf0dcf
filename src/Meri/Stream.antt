-- ===== src/Meri/Stream.antt =====
-- The live fleet: hooks/useVesselData.ts and the vessel of types/index.ts.
pub mod Messages
mod Tests
use fintraffic.Base.{ℕ, List, [], ◌∷◌, Option, none, some, String}
use fintraffic.Base.Dict.{Dict, remove, spread}

pub data VesselSource : Type 0 where
  digitraffic aisstream : VesselSource

pub record Vessel (A : Type 0) : Type 0 where
  pub mmsi : ℕ
  pub lat : A
  pub lng : A
  pub sog : A
  pub cog : A
  pub hdg : Option A
  pub nav_stat : ℕ
  pub rot : Option A
  pub ts : A
  pub source : Option VesselSource
  pub name : Option String
  pub call_sign : Option String
  pub dest : Option String
  pub ship_type : Option ℕ
  pub imo : Option ℕ
  pub draught : Option A
  pub eta : Option String

pub data MessageType : Type 0 where
  snapshot delta : MessageType

pub record StreamMessage (A : Type 0) : Type 0 where
  pub type : MessageType
  pub timestamp : String
  pub vessels : Dict (Vessel A)
  pub removed : Option (List ℕ)
  pub count : ℕ

abbrev pub given : Option (List ℕ) → List ℕ
given none = []
given (some ks) = ks

module _ {V : Type 0} where
  unfoldable pub remove_all : List ℕ → Dict V → Dict V
  remove_all [] m = m
  remove_all (k ∷ ks) m = remove_all ks (remove k m)

module _ {A : Type 0} where
  abbrev pub next_vessels :
      MessageType → Dict (Vessel A) → Option (List ℕ) → Dict (Vessel A) → Dict (Vessel A)
  next_vessels snapshot vessels removed prev = vessels
  next_vessels delta vessels removed prev = remove_all (given removed) (spread prev vessels)

  -- A snapshot replaces the map; a delta merges what changed and drops what is gone.
  unfoldable pub handle_message : StreamMessage A → Dict (Vessel A) → Dict (Vessel A)
  unfolding remove_all
  handle_message msg prev = next_vessels msg.type msg.vessels msg.removed prev

  unfoldable pub handle_all : List (StreamMessage A) → Dict (Vessel A) → Dict (Vessel A)
  handle_all [] m = m
  handle_all (msg ∷ msgs) m = handle_all msgs (handle_message msg m)
