-- ===== src/Edge/IdlePoints/Poses.antt =====
-- The poses that stations.yaml names, read off the document alone.
use amr_warehouse_collaborat.Prelude.{◌==◌, none, some, List, [], ◌∷◌, ◌++◌, if◌then◌else◌}
use amr_warehouse_collaborat.Edge.IdlePoints.{Location, Station, Document, broken, keyless, nodes}

module _ {P : Type 0} where
  -- The poses that a location, a station and a file of stations name: those of type IDLE.
  unfoldable pub location_poses : Location P → List P
  location_poses location = elim location.kind [
    | none ↦ []
    | some kind ↦
        if kind == "IDLE" then (elim location.pose [ none ↦ [] | some p ↦ p ∷ [] ]) else []
  ]

  unfoldable pub locations_poses : List (Location P) → List P
  unfolding location_poses
  locations_poses [] = []
  locations_poses (location ∷ rest) = location_poses location ++ locations_poses rest

  unfoldable pub station_poses : Station P → List P
  unfolding locations_poses
  station_poses station = elim station.locations [
    | none ↦ []
    | some locations ↦ locations_poses locations
  ]

  unfoldable pub stations_poses : List (Station P) → List P
  unfolding station_poses
  stations_poses [] = []
  stations_poses (station ∷ rest) = station_poses station ++ stations_poses rest

  unfoldable pub document_poses : Document (Station P) → List P
  unfolding stations_poses
  document_poses broken = []
  document_poses keyless = []
  document_poses (nodes stations) = stations_poses stations
