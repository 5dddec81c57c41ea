-- ===== src/Amr/GoodsPoints.antt =====
-- robot_ws/src/amr_behavior_manager/src/zone_station_loader.cpp and goods_point_resolver.cpp: the
-- zones and stations of a map, and the location where goods are loaded or unloaded. `R` is a
-- double. What yaml-cpp reads of the two files is an argument.
pub mod Resolving
use Prim.Native.Char.{code}
use amr_warehouse_collaborat.Prelude.{
  ℕ, ◌-◌, leb, String, ◌==◌, Bool, true, false, ◌&&◌, Option, none, some, List, [], ◌∷◌, ◌++◌, map,
  any, find, if◌then◌else◌,
}

pub record LocationInfo (R : Type 0) : Type 0 where
  pub id : String
  pub kind : String
  pub x : R
  pub y : R
  pub yaw : R

pub record StationInfo (R : Type 0) : Type 0 where
  pub id : String
  pub name : String
  pub zone_id : String
  pub locations : List (LocationInfo R)

pub record ZoneInfo : Type 0 where
  pub id : String
  pub name : String
  pub kind : String
  pub goods_ids : List String

pub record ZoneStationLoader (R : Type 0) : Type 0 where
  pub zones : List ZoneInfo
  pub stations : List (StationInfo R)

-- A file of YAML: LoadFile throws, the key is missing, or it has nodes under the key. A node is
-- `none` where reading one of its scalars throws.
pub data Document (N : Type 0) : Type 0 where
  broken : Document N
  keyless : Document N
  nodes : List (Option N) → Document N

module _ {R : Type 0} where
  -- The loop over the zones; false is an exception, and what was added stays.
  unfoldable pub push_zones :
      List (Option ZoneInfo) → ZoneStationLoader R → Bool × ZoneStationLoader R
  push_zones [] l = (true, l)
  push_zones (none ∷ rest) l = (false, l)
  push_zones (some zone ∷ rest) l = push_zones rest (record l { zones = l.zones ++ zone ∷ [] })

  unfoldable pub push_stations :
      List (Option (StationInfo R)) → ZoneStationLoader R → Bool × ZoneStationLoader R
  push_stations [] l = (true, l)
  push_stations (none ∷ rest) l = (false, l)
  push_stations (some station ∷ rest) l =
      push_stations rest (record l { stations = l.stations ++ station ∷ [] })

  read_zones : Document ZoneInfo → ZoneStationLoader R → Bool × ZoneStationLoader R
  unfolding push_zones
  read_zones broken l = (false, l)
  read_zones keyless l = (true, l)
  read_zones (nodes zones) l = push_zones zones l

  read_stations : Document (StationInfo R) → ZoneStationLoader R → Bool × ZoneStationLoader R
  unfolding push_stations
  read_stations broken l = (false, l)
  read_stations keyless l = (true, l)
  read_stations (nodes stations) l = push_stations stations l

  -- `load` of the source.
  unfoldable pub load_files :
      Document ZoneInfo → Document (StationInfo R) → Bool × ZoneStationLoader R
  unfolding read_zones read_stations
  load_files zones stations =
      let (read, l) = read_zones zones (record { zones = []; stations = [] }) in
      if read then read_stations stations l else (false, l)

-- The code points of a text.
abbrev pub codes : String → List ℕ
codes String.[] = []
codes (String.◌∷◌ c s) = code c ∷ codes s

-- std::toupper of the C locale.
unfoldable pub to_upper : ℕ → ℕ
to_upper c = if leb b'a' c && leb c b'z' then c - 32 else c

abbrev pub same_codes : List ℕ → List ℕ → Bool
same_codes [] [] = true
same_codes [] (d ∷ ds) = false
same_codes (c ∷ cs) [] = false
same_codes (c ∷ cs) (d ∷ ds) = leb c d && leb d c && same_codes cs ds

unfoldable pub target_zone_type : String → String
target_zone_type task_type = if task_type == "LOAD" then "LOAD" else "UNLOAD"

-- The test of the first `find_if`.
unfoldable pub is_zone_for : String → String → ZoneInfo → Bool
unfolding to_upper target_zone_type
is_zone_for goods_id task_type zone =
    same_codes (map to_upper (codes zone.kind)) (codes (target_zone_type task_type))
    && any (λ g. g == goods_id) zone.goods_ids

module _ {R : Type 0} where
  unfoldable pub is_station_of : ZoneInfo → StationInfo R → Bool
  is_station_of zone station = station.zone_id == zone.id

  unfoldable pub has_kind : String → LocationInfo R → Bool
  has_kind kind location = location.kind == kind

  unfoldable pub first_location : List (LocationInfo R) → Option (LocationInfo R)
  first_location [] = none
  first_location (location ∷ rest) = some location

  -- A WORK location, or else a WAIT location, or else the first.
  unfoldable pub work_location : List (LocationInfo R) → Option (LocationInfo R)
  unfolding has_kind first_location
  work_location locations = elim (find (has_kind "WORK") locations) [
    | some location ↦ some location
    | none ↦ elim (find (has_kind "WAIT") locations) [
      | some location ↦ some location
      | none ↦ first_location locations
    ]
  ]

  unfoldable pub resolve_in : List (StationInfo R) → ZoneInfo → Option (LocationInfo R)
  unfolding is_station_of work_location
  resolve_in stations zone = elim (find (is_station_of zone) stations) [
    | none ↦ none
    | some station ↦ work_location station.locations
  ]

  -- `m_loader` is `none` where it is null.
  unfoldable pub resolve : Option (ZoneStationLoader R) → String → String → Option (LocationInfo R)
  unfolding is_zone_for resolve_in
  resolve none goods_id task_type = none
  resolve (some l) goods_id task_type = elim (find (is_zone_for goods_id task_type) l.zones) [
    | none ↦ none
    | some zone ↦ resolve_in l.stations zone
  ]
