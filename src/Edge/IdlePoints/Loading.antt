-- ===== src/Edge/IdlePoints/Loading.antt =====
-- What IdlePointAllocator::load makes of a map package.
use amr_warehouse_collaborat.Prelude.{
  ℕ, ◌+◌, ◌≡◌, refl, ap, sym, subst, ◌∙◌, String, ◌==◌, Bool, true, false, Option, none, some, List,
  [], ◌∷◌, ◌++◌, length, length-append, arith, Bool-cases, Option-cases, inl, inr, if◌then◌else◌,
}
use mathlib.Core.List.{append-nil, append_assoc}
use amr_warehouse_collaborat.Edge.IdlePoints.{
  IdlePoint, Allocator, Location, Station, Zone, Document, broken, keyless, nodes, Package, cleared,
  push_point, add_location, add_locations, add_station, add_stations, parse_stations, load_zones,
  load, add_zone, add_zones, parse_zones,
}
use amr_warehouse_collaborat.Edge.IdlePoints.Order.{
  IsAligned, free_of, free_poses, first_of, allocate_times, allocations_in_order,
}
use amr_warehouse_collaborat.Edge.IdlePoints.Poses.{
  location_poses, locations_poses, station_poses, stations_poses, document_poses,
}

module _ {P : Type 0} where
  free_of-append :
      (points more : List (IdlePoint P)) (occupied flags : List Bool)
      → length points ≡ length occupied
      → free_of (points ++ more) (occupied ++ flags) ≡ free_of points occupied ++ free_of more flags
  unfolding free_of
  free_of-append [] more [] flags h = refl
  free_of-append [] more (o ∷ occupied) flags h = absurd (ground arith)
  free_of-append (p ∷ points) more [] flags h = absurd (ground arith)
  free_of-append (p ∷ points) more (false ∷ occupied) flags h =
      ap (λ ps. p.pose ∷ ps) (free_of-append points more occupied flags (omega arith))
  free_of-append (p ∷ points) more (true ∷ occupied) flags h =
      free_of-append points more occupied flags (omega arith)

  -- From `a`, a part of the parser returned `r`: flags stay one for each point, and unless it
  -- failed it appended free points with these poses.
  record Adds (poses : List P) (a : Allocator P) (r : Bool × Allocator P) : Type 0 where
    aligned : IsAligned a → IsAligned r.1
    free : IsAligned a → r.0 ≡ true → free_poses r.1 ≡ free_poses a ++ poses

  Adds-nothing : (a : Allocator P) (good : Bool) → Adds [] a (good, a)
  Adds-nothing a good = record { aligned = λ h. h; free = λ h e. sym (append-nil (free_poses a)) }

  Adds-failed : (poses : List P) (a : Allocator P) → Adds poses a (false, a)
  Adds-failed poses a = record { aligned = λ h. h; free = λ h e. absurd (ground arith) }

  Adds-then :
      (ps qs : List P) (a : Allocator P) (r : Bool × Allocator P)
      (k : Allocator P → Bool × Allocator P)
      → Adds ps a r
      → Adds qs r.1 (k r.1)
      → Adds (ps ++ qs) a (if r.0 then k r.1 else (false, r.1))
  Adds-then ps qs a (true, a') k f g = record {
    aligned = λ h. g.aligned (f.aligned h);
    free = λ h e.
        g.free (f.aligned h) e
        ∙ ap (λ l. l ++ qs) (f.free h refl)
        ∙ append_assoc (free_poses a) ps qs;
  }
  Adds-then ps qs a (false, a') k f g = record {
    aligned = f.aligned;
    free = λ h e. absurd (ground arith);
  }

  push_point-Adds :
      (station_id location_id : String) (pose : P) (a : Allocator P)
      → Adds (pose ∷ []) a (true, push_point station_id location_id pose a)
  unfolding push_point free_poses free_of
  push_point-Adds station_id location_id pose a = record {
    aligned = λ h.
        length-append a.points _ ∙ ap (λ n. n + 1) h ∙ sym (length-append a.occupied (false ∷ []));
    free = λ h e. free_of-append a.points _ a.occupied (false ∷ []) h;
  }

  location-Adds :
      (station_id kind : String) (location : Location P) (a : Allocator P)
      → location.kind ≡ some kind
      → Adds (location_poses location) a (add_location station_id location kind a)
  unfolding location_poses add_location
  location-Adds station_id kind location a k = elim (Bool-cases (kind == "IDLE")) [
    | inr e ↦ rw (k, e) (Adds-nothing a true)
    | inl e ↦ elim (Option-cases location.pose) [
      | inl n ↦ rw (k, e, n) (Adds-failed _ a)
      | inr (pose, n) ↦ rw (k, e, n) (push_point-Adds station_id location.id pose a)
    ]
  ]

  add_locations-kind :
      (station_id kind : String) (location : Location P) (rest : List (Location P))
      (a : Allocator P)
      → location.kind ≡ some kind
      → add_locations station_id (location ∷ rest) a ≡ (
          let r = add_location station_id location kind a in
          if r.0 then add_locations station_id rest r.1 else (false, r.1))
  unfolding add_locations
  add_locations-kind station_id kind location rest a k = rw k refl

  locations-Adds :
      (station_id : String) (locations : List (Location P)) (a : Allocator P)
      → Adds (locations_poses locations) a (add_locations station_id locations a)
  unfolding locations_poses add_locations
  locations-Adds station_id [] a = Adds-nothing a true
  locations-Adds station_id (location ∷ rest) a = elim (Option-cases location.kind) [
    | inl k ↦ rw k (Adds-failed _ a)
    | inr (kind, k) ↦
        subst (Adds (locations_poses (location ∷ rest)) a)
          (sym (add_locations-kind station_id kind location rest a k))
          (Adds-then _ _ a (add_location station_id location kind a) (add_locations station_id rest)
            (location-Adds station_id kind location a k) (locations-Adds station_id rest _))
  ]

  station-Adds :
      (station : Station P) (a : Allocator P)
      → Adds (station_poses station) a (add_station station a)
  unfolding station_poses add_station
  station-Adds station a = elim (Option-cases station.id) [
    | inl n ↦ rw n (Adds-failed _ a)
    | inr (id, n) ↦ elim (Option-cases station.locations) [
      | inl m ↦ rw (n, m) (Adds-nothing a true)
      | inr (locations, m) ↦ rw (n, m) (locations-Adds id locations a)
    ]
  ]

  stations-Adds :
      (stations : List (Station P)) (a : Allocator P)
      → Adds (stations_poses stations) a (add_stations stations a)
  unfolding stations_poses add_stations
  stations-Adds [] a = Adds-nothing a true
  stations-Adds (station ∷ rest) a =
      Adds-then _ _ a (add_station station a) (add_stations rest) (station-Adds station a)
        (stations-Adds rest _)

  document-Adds :
      (stations : Document (Station P)) (a : Allocator P)
      → a.points ≡ []
      → a.occupied ≡ []
      → (parse_stations stations a).0 ≡ true
      → IsAligned (parse_stations stations a).1
        × (free_poses (parse_stations stations a).1 ≡ document_poses stations)
  unfolding parse_stations document_poses free_poses free_of
  document-Adds broken a e f h = absurd (ground arith)
  document-Adds keyless a e f h = rw (e, f) (refl, refl)
  document-Adds (nodes stations) a e f h =
      let adds = stations-Adds stations (record a { points = []; occupied = [] }) in
      (adds.aligned refl, adds.free refl h)

  add_zones_lem :
      (zones : List Zone) (a : Allocator P)
      → ((add_zones zones a).1.points ≡ a.points) × ((add_zones zones a).1.occupied ≡ a.occupied)
  unfolding add_zones add_zone
  add_zones_lem [] a = (refl, refl)
  add_zones_lem (zone ∷ rest) a = elim (Option-cases zone.kind) [
    | inl n ↦ ground arith
    | inr (kind, n) ↦ ground (arith, add_zones_lem rest (add_zone zone kind a))
  ]

  load_zones_lem :
      (zones : Option (Document Zone)) (a : Allocator P)
      → ((load_zones zones a).points ≡ a.points) × ((load_zones zones a).occupied ≡ a.occupied)
  unfolding load_zones parse_zones
  load_zones_lem none a = (refl, refl)
  load_zones_lem (some broken) a = (refl, refl)
  load_zones_lem (some keyless) a = (refl, refl)
  load_zones_lem (some (nodes zones)) a = add_zones_lem zones (record a { zone_ids = [] })

  load_parses :
      (files : Package P) (stations : Document (Station P)) (old : Allocator P)
      → files.stations ≡ some stations
      → load files old ≡ parse_stations stations (load_zones files.zones cleared)
  unfolding load
  load_parses files stations old e = rw e refl

  -- A load that succeeds leaves one flag for each point, and all points of the document free.
  pub load-IsAligned :
      (files : Package P) (stations : Document (Station P)) (old : Allocator P)
      → files.stations ≡ some stations
      → (load files old).0 ≡ true
      → IsAligned (load files old).1 × (free_poses (load files old).1 ≡ document_poses stations)
  unfolding load cleared
  load-IsAligned files stations old e h =
      let (points, flags) = load_zones_lem files.zones cleared in
      let parsed = load_parses files stations old e in
      subst (λ x. IsAligned x.1 × (free_poses x.1 ≡ document_poses stations)) (sym parsed)
        (document-Adds stations (load_zones files.zones cleared) points flags
          (ap (λ x. x.0) (sym parsed) ∙ h))

  -- After a load that succeeds, `n` calls of `allocate` return the IDLE poses of stations.yaml in
  -- the order of the file and then nothing, whatever was handed out or marked before the load.
  pub hands_out_after_load :
      (files : Package P) (stations : Document (Station P)) (old : Allocator P) (n : ℕ)
      → files.stations ≡ some stations
      → (load files old).0 ≡ true
      → (allocate_times n (load files old).1).0 ≡ first_of n (document_poses stations)
  hands_out_after_load files stations old n e h =
      let (aligned, free) = load-IsAligned files stations old e h in
      allocations_in_order n (load files old).1 aligned ∙ ap (first_of n) free
