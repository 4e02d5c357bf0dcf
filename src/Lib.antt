-- ===== src/Lib.antt =====
-- Fintraffic: a map of Finnish traffic with four modes, Meri (sea), Raide (rail), Tie (road) and Ilma
-- (air). This library models the front end's logic, frontend/src, above the browser: the state that
-- the React hooks keep and every change to it, and the functions that grade and rank what is shown.
--
-- How the program is put together. A WebSocket (Meri/Socket: modes/meri/hooks/useWebSocket.ts)
-- delivers messages to the live fleet (Meri/Stream: useVesselData.ts), as the server's hub sends them
-- (Meri/Hub: backend/internal/meri/ws/hub.go, for one client). The page (Meri/App:
-- modes/meri/MeriApp.tsx) holds the selection and the category filter, whose categories come from
-- Meri/Ship (lib/shipTypes.ts), and gives the map the vessels to draw. The selected vessel's recorded
-- track is fetched by Meri/Trail (useVesselTrail.ts). Two replays play recorded tracks: Meri/Replay/Fleet
-- (useFleetReplay.ts) for the whole fleet and Meri/Replay/Track (useTrackReplay.ts) for one vessel.
-- Each hands the map a control; the map's clock (Meri/Replay/Clock: components/Map.tsx) moves a playhead
-- frame by frame and reports back, and Meri/Replay/Pose (`poseAt` of the same file, lib/lerp.ts) says where
-- a vessel is at the playhead. Meri/Replay/Ghost (Map.tsx) is the same for one vessel's track, and what it paints. Meri/Display (MeriApp.tsx) decides between the live, the replayed and the
-- tracked vessel for the detail panel. Meri/Live (components/Map.tsx) takes in each new fleet and draws it
-- between the updates, and Meri/Map (the same file) is what the map's style holds and which of it is on.
-- Meri/Sea (lib/seaConditions.ts) has the scales of the sea layer, and Meri/VesselLink (lib/vesselLink.ts) the
-- links to a vessel, with the browser's URLs as an interface. `digits_of` prints at most sixteen digits.
-- Tie/Traffic, Tie/Weather, Tie/Parking, Tie/Charging and Tie/Maintenance (modes/tie/lib) grade the road
-- layers and Tie/Layers has their switches; Tie/Search (TieApp.tsx) has the selection and the search. Raide/Trains (modes/raide/lib/trains.ts) grades the delays, and
-- Raide/Selection (modes/raide/RaideApp.tsx) keeps the selection and its departure board. Ilma/Aircraft
-- (modes/ilma/lib/aircraft.ts) lists the aircraft around an airport, and Ilma/Flight (components/Map.tsx)
-- projects them and draws the trail of the selected one. Tie/Map, Raide/Map and Ilma/Map (components/Map.tsx
-- of each mode) are the sources and layers of the maps, on Shared/Style: MapLibre's map is a parameter,
-- `MapApi`, with the laws `IsMap`: a style takes additions once it is loaded; `setStyle` asks for another one, which
-- lands with a style event, with the basemap's own items and nothing of what was added. What the
-- basemaps hold is theirs; the theorems ask that they have none of the names that the maps add (Shared/Style/Feeds/Returns is on the feeds after a swap). The three maps' common machine of feeds, theme swaps and handlers is
-- Shared/Style/Feeds, and Shared/Style/Listed is a map that has the laws. Shared/Markers
-- is what their clicks look up; Tie/Map/Features, Tie/Map/Markers, Raide/Map/Features and Ilma/Map/Features make
-- the features, Raide/Fleet (RaideApp.tsx) follows the selected train, and Ilma/App (IlmaApp.tsx) is the air mode's state. Shared/Geo (shared/lib/geo.ts, modes/meri/lib/geo.ts) has the
-- distances, Shared/Sheet (shared/hooks/useSheetView.ts) the phone's sheet, and Shared/Sort stands for
-- `Array.prototype.sort`, and Shared/Ids reads the ids of the search boxes. Base has lists, dictionaries, tests and numbers.
--
-- How it is modelled. A hook is a record of its `useState` and `useRef` cells; a callback is a function
-- on it; renders, callbacks, timers and answers are events, in any order. A state setter acts at
-- once, and an effect runs with the render that causes it. A request is a value that names what it was sent for; its answer is an event, which may
-- come late, more than once or never. `Date.now()`, the size of the screen and the time of a frame
-- are arguments. Names are the source's, in snake case.
--
-- JavaScript numbers are a parameter, Base/Number: a type with its operations. The laws a theorem
-- relies on are the records IsOrdered (comparison is a total order), IsRounded (literals keep their
-- order) and HasZero, which doubles have apart from NaN; Base/Number/Milli, integers in thousandths,
-- has them, and the witnesses run on it. Codes, ids and counters are natural numbers; the keys of the
-- fleet's dictionaries are MMSI numbers in decimal, kept as numbers. Trigonometry is a parameter too.
--
-- Bounds. The binary search of `poseAt` halves its interval; its fuel is the number of fixes, which is
-- never less than the interval, and the theorems on `pose_at` hold with that fuel (Meri/Replay/Pose/Rounds has
-- the number of rounds). Numbers in the layers of a style are in thousandths.
--
-- Not modelled: drawing itself (MapLibre's and the canvas's, React elements, CSS), the order of
-- layers in a style, what the handlers of the maps do but for the lookup of a click, icons, the address bar and local
-- storage, texts in the locale of the browser, fetch itself, and the server under backend/ but for its hub.
pub mod Base
pub mod Meri
pub mod Tie
pub mod Shared
pub mod Raide
pub mod Ilma
