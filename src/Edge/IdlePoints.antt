-- ===== src/Edge/IdlePoints.antt =====
-- edge_server/src/service/idle_point_allocator.cpp: the IDLE points of a map package and which of
-- them are taken. `P` is Pose2D, three doubles; `near` is the comparison of two poses within 1e-6.
-- What libzip and yaml-cpp read from the package is an argument.
pub mod Order
pub mod Poses
pub mod Loading
use amr_warehouse_collaborat.Prelude.{
  ℕ, String, ◌==◌, Bool, true, false, not, Option, none, some, List, [], ◌∷◌, ◌++◌, length,
  is_empty, if◌then◌else◌,
}

pub record IdlePoint (P : Type 0) : Type 0 where
  pub station_id : String
  pub location_id : String
  pub pose : P

pub record Allocator (P : Type 0) : Type 0 where
  pub points : List (IdlePoint P)
  pub occupied : List Bool
  pub zone_ids : List String

-- A node of `locations`. `kind` is `none` where `location["type"]` throws; `pose` is `none` where
-- reading the three doubles throws.
pub record Location (P : Type 0) : Type 0 where
  pub kind : Option String
  pub id : String
  pub pose : Option P

-- A node of `stations`. `id` is `none` where `station["id"]` throws, `locations` where the key is
-- missing.
pub record Station (P : Type 0) : Type 0 where
  pub id : Option String
  pub locations : Option (List (Location P))

-- A node of `zones`, in the same way.
pub record Zone : Type 0 where
  pub kind : Option String
  pub id : String

-- A file of YAML: YAML::Load throws, the key is missing, or it has nodes under the key.
pub data Document (N : Type 0) : Type 0 where
  broken : Document N
  keyless : Document N
  nodes : List N → Document N

-- What extractFile gives of each file of the package: `none` when it fails.
pub record Package (P : Type 0) : Type 0 where
  pub zones : Option (Document Zone)
  pub stations : Option (Document (Station P))

module _ {P : Type 0} where
  unfoldable pub cleared : Allocator P
  cleared = record { points = []; occupied = []; zone_ids = [] }

  unfoldable pub add_zone : Zone → String → Allocator P → Allocator P
  add_zone zone kind a =
      if kind == "IDLE" then record a { zone_ids = a.zone_ids ++ zone.id ∷ [] } else a

  -- The loop of parseZones; false is an exception, and what was added stays.
  unfoldable pub add_zones : List Zone → Allocator P → Bool × Allocator P
  unfolding add_zone
  add_zones [] a = (true, a)
  add_zones (zone ∷ rest) a = elim zone.kind [
    | none ↦ (false, a)
    | some kind ↦ add_zones rest (add_zone zone kind a)
  ]

  unfoldable pub parse_zones : Document Zone → Allocator P → Bool × Allocator P
  unfolding add_zones
  parse_zones broken a = (false, a)
  parse_zones keyless a = (true, a)
  parse_zones (nodes zones) a = add_zones zones (record a { zone_ids = [] })

  unfoldable pub push_point : String → String → P → Allocator P → Allocator P
  push_point station_id location_id pose a = record a {
    points =
        a.points ++ record { station_id = station_id; location_id = location_id; pose = pose } ∷ [];
    occupied = a.occupied ++ false ∷ [];
  }

  -- The inner loop of parseStations: one location of type IDLE is one point.
  unfoldable pub add_location : String → Location P → String → Allocator P → Bool × Allocator P
  unfolding push_point
  add_location station_id location kind a =
      if kind == "IDLE"
      then (elim location.pose [
        | none ↦ (false, a)
        | some pose ↦ (true, push_point station_id location.id pose a)
      ])
      else (true, a)

  unfoldable pub add_locations : String → List (Location P) → Allocator P → Bool × Allocator P
  unfolding add_location
  add_locations station_id [] a = (true, a)
  add_locations station_id (location ∷ rest) a = elim location.kind [
    | none ↦ (false, a)
    | some kind ↦
        let (good, a') = add_location station_id location kind a in
        let after = add_locations station_id rest a' in if good then after else (false, a')
  ]

  unfoldable pub add_station : Station P → Allocator P → Bool × Allocator P
  unfolding add_locations
  add_station station a = elim station.id [
    | none ↦ (false, a)
    | some station_id ↦ elim station.locations [
      | none ↦ (true, a)
      | some locations ↦ add_locations station_id locations a
    ]
  ]

  unfoldable pub add_stations : List (Station P) → Allocator P → Bool × Allocator P
  unfolding add_station
  add_stations [] a = (true, a)
  add_stations (station ∷ rest) a =
      let (good, a') = add_station station a in
      let after = add_stations rest a' in if good then after else (false, a')

  unfoldable pub parse_stations : Document (Station P) → Allocator P → Bool × Allocator P
  unfolding add_stations
  parse_stations broken a = (false, a)
  parse_stations keyless a = (true, a)
  parse_stations (nodes stations) a =
      add_stations stations (record a { points = []; occupied = [] })

  -- The result of parseZones is not looked at.
  unfoldable pub load_zones : Option (Document Zone) → Allocator P → Allocator P
  unfolding parse_zones
  load_zones none a = a
  load_zones (some zones) a = (parse_zones zones a).1

  -- The state before `load` is cleared, whatever it was.
  unfoldable pub load : Package P → Allocator P → Bool × Allocator P
  unfolding cleared load_zones parse_stations
  load files old = elim files.stations [
    | none ↦ (false, load_zones files.zones cleared)
    | some stations ↦ parse_stations stations (load_zones files.zones cleared)
  ]

  -- The loop of `allocate`: the first point that is not occupied, and the occupation after it is
  -- taken. (Where `m_occupied` ended before `m_points` the source would read past its end; IsAligned
  -- excludes that.)
  unfoldable pub take_free : List (IdlePoint P) → List Bool → Option (IdlePoint P × List Bool)
  take_free [] occupied = none
  take_free (p ∷ points) [] = none
  take_free (p ∷ points) (false ∷ occupied) = some (p, true ∷ occupied)
  take_free (p ∷ points) (true ∷ occupied) = elim (take_free points occupied) [
    | none ↦ none
    | some (x, occupied') ↦ some (x, true ∷ occupied')
  ]

  -- `none` is the return value false, which leaves `pose` as it was.
  unfoldable pub allocate : Allocator P → Option P × Allocator P
  unfolding take_free
  allocate a = elim (take_free a.points a.occupied) [
    | none ↦ (none, a)
    | some (x, occupied') ↦ (some x.pose, record a { occupied = occupied' })
  ]

  -- The loop of `markOccupied`: the first point near the pose.
  mark_first : (P → P → Bool) → P → List (IdlePoint P) → List Bool → List Bool
  mark_first near pose [] occupied = occupied
  mark_first near pose (p ∷ points) [] = []
  mark_first near pose (p ∷ points) (o ∷ occupied) =
      let rest = mark_first near pose points occupied in
      if near p.pose pose then true ∷ occupied else o ∷ rest

  unfoldable pub mark_occupied : (P → P → Bool) → P → Allocator P → Allocator P
  unfolding mark_first
  mark_occupied near pose a = record a { occupied = mark_first near pose a.points a.occupied }

  unfoldable pub empty : Allocator P → Bool
  empty a = is_empty a.points

  unfoldable pub size : Allocator P → ℕ
  size a = length a.points
