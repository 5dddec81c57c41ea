-- ===== src/Amr/GoodsPoints/Resolving.antt =====
-- Which location GoodsPointResolver::resolve finds
-- (robot_ws/src/amr_behavior_manager/src/goods_point_resolver.cpp).
use amr_warehouse_collaborat.Prelude.{
  String, ◌==◌, eq_iff, &&-eq_true, Bool, true, false, ◌≡◌, refl, ◌⊎◌, inl, inr, Option, none, some,
  List, [], ◌∷◌, map, any, find, arith, Bool-cases,
}
use amr_warehouse_collaborat.Amr.GoodsPoints.{
  LocationInfo, StationInfo, ZoneInfo, ZoneStationLoader, to_upper, same_codes, codes,
  target_zone_type, is_zone_for, is_station_of, has_kind, first_location, work_location, resolve_in,
  resolve,
}

module _ {A : Type 0} where
  abbrev pub In : A → List A → Type 0
  In a [] = ⊥
  In a (x ∷ xs) = (x ≡ a) ⊎ In a xs

  find-In : (q : A → Bool) (xs : List A) (a : A) → find q xs ≡ some a → In a xs
  find-In q [] a h = cc
  find-In q (x ∷ xs) a h = elim (Bool-cases (q x)) [
    | inl e ↦ inl (ground arith)
    | inr e ↦ inr (find-In q xs a (ground arith))
  ]

  find_passes : (q : A → Bool) (xs : List A) (a : A) → find q xs ≡ some a → q a ≡ true
  find_passes q [] a h = cc
  find_passes q (x ∷ xs) a h = ground (arith, find_passes q xs a)

  find-none : (q : A → Bool) (xs : List A) → find q xs ≡ none → any q xs ≡ false
  find-none q [] h = refl
  find-none q (x ∷ xs) h = ground (arith, find-none q xs)

any-In : (x : String) (xs : List String) → any (λ g. g == x) xs ≡ true → In x xs
any-In x [] h = cc
any-In x (g ∷ xs) h = elim (Bool-cases (g == x)) [
  | inl e ↦ inl ((eq_iff g x).0 e)
  | inr e ↦ inr (any-In x xs (ground arith))
]

is_zone_for-parts :
    (goods_id task_type : String) (zone : ZoneInfo)
    → is_zone_for goods_id task_type zone ≡ true
    → (same_codes (map to_upper (codes zone.kind)) (codes (target_zone_type task_type)) ≡ true)
      × In goods_id zone.goods_ids
unfolding is_zone_for
is_zone_for-parts goods_id task_type zone h =
    let parts =
      &&-eq_true (same_codes (map to_upper (codes zone.kind)) (codes (target_zone_type task_type)))
        (any (λ g. g == goods_id) zone.goods_ids) h in
    (parts.0, any-In goods_id zone.goods_ids parts.1)

module _ {R : Type 0} where
  -- A WORK location; where there is none a WAIT location; where there is none of either, any.
  abbrev pub IsPreferred : LocationInfo R → List (LocationInfo R) → Type 0
  IsPreferred location locations =
      (location.kind ≡ "WORK")
      ⊎ ((any (has_kind "WORK") locations ≡ false)
          × ((location.kind ≡ "WAIT") ⊎ (any (has_kind "WAIT") locations ≡ false)))

  abbrev Chosen : Option (LocationInfo R) → List (LocationInfo R) → Type 0
  Chosen none locations = locations ≡ []
  Chosen (some location) locations = In location locations × IsPreferred location locations

  has_kind→eq :
      (kind : String) (location : LocationInfo R)
      → has_kind kind location ≡ true
      → location.kind ≡ kind
  unfolding has_kind
  has_kind→eq kind location h = (eq_iff location.kind kind).0 h

  station_of :
      (zone : ZoneInfo) (station : StationInfo R)
      → is_station_of zone station ≡ true
      → station.zone_id ≡ zone.id
  unfolding is_station_of
  station_of zone station h = (eq_iff station.zone_id zone.id).0 h

  first-Chosen :
      (locations : List (LocationInfo R))
      → any (has_kind "WORK") locations ≡ false
      → any (has_kind "WAIT") locations ≡ false
      → Chosen (first_location locations) locations
  unfolding first_location
  first-Chosen [] h k = refl
  first-Chosen (location ∷ rest) h k = (inl refl, inr (h, inr k))

  work_location-Chosen :
      (locations : List (LocationInfo R)) → Chosen (work_location locations) locations
  unfolding work_location
  work_location-Chosen locations =
      working (find (has_kind "WORK") locations) (find (has_kind "WAIT") locations) refl refl
    where
      working :
          (o o' : Option (LocationInfo R))
          → find (has_kind "WORK") locations ≡ o
          → find (has_kind "WAIT") locations ≡ o'
          → Chosen
              (elim o [
                | some location ↦ some location
                | none ↦ elim o' [ some location ↦ some location | none ↦ first_location locations ]
              ])
              locations
      working (some location) o' e e' = (
        find-In (has_kind "WORK") locations location e,
        inl (has_kind→eq "WORK" location (find_passes (has_kind "WORK") locations location e)),
      )
      working none (some location) e e' = (
        find-In (has_kind "WAIT") locations location e',
        inr (
          find-none (has_kind "WORK") locations e,
          inl (has_kind→eq "WAIT" location (find_passes (has_kind "WAIT") locations location e')),
        ),
      )
      working none none e e' =
          first-Chosen locations (find-none (has_kind "WORK") locations e)
            (find-none (has_kind "WAIT") locations e')

  module _ (l : ZoneStationLoader R) (goods_id task_type : String) where
    -- A zone of the right type that holds the goods.
    abbrev pub IsZone : ZoneInfo → Type 0
    IsZone zone =
        In zone l.zones
        × (same_codes (map to_upper (codes zone.kind)) (codes (target_zone_type task_type)) ≡ true)
        × In goods_id zone.goods_ids

    abbrev pub IsStation : ZoneInfo → StationInfo R → Type 0
    IsStation zone station = In station l.stations × (station.zone_id ≡ zone.id)

    abbrev pub Resolves : Option (LocationInfo R) → Type 0
    Resolves (some location) =
        (zone : ZoneInfo) × (station : StationInfo R) × IsZone zone
        × IsStation zone station
        × In location station.locations
        × IsPreferred location station.locations
    Resolves none =
        (any (is_zone_for goods_id task_type) l.zones ≡ false)
        ⊎ ((zone : ZoneInfo) × IsZone zone
            × ((any (is_station_of zone) l.stations ≡ false)
                ⊎ ((station : StationInfo R) × IsStation zone station × (station.locations ≡ []))))

    Chosen-Resolves :
        (zone : ZoneInfo) (station : StationInfo R) (o : Option (LocationInfo R))
        → IsZone zone
        → IsStation zone station
        → Chosen o station.locations
        → Resolves o
    Chosen-Resolves zone station none z s h = inr (zone, z, inr (station, s, h))
    Chosen-Resolves zone station (some location) z s h = (zone, station, z, s, h.0, h.1)

    in_zone-Resolves : (zone : ZoneInfo) → IsZone zone → Resolves (resolve_in l.stations zone)
    unfolding resolve_in
    in_zone-Resolves zone z = at_station (find (is_station_of zone) l.stations) refl
      where
        at_station :
            (o : Option (StationInfo R))
            → find (is_station_of zone) l.stations ≡ o
            → Resolves (elim o [ none ↦ none | some station ↦ work_location station.locations ])
        at_station none e = inr (zone, z, inl (find-none (is_station_of zone) l.stations e))
        at_station (some station) e =
            Chosen-Resolves zone station (work_location station.locations) z
              (
                find-In (is_station_of zone) l.stations station e,
                station_of zone station (find_passes (is_station_of zone) l.stations station e),
              )
              (work_location-Chosen station.locations)

    -- `resolve` returns a location of a station of a zone of the wanted type that holds the goods:
    -- a WORK location, or a WAIT location where the station has no WORK location, or any location
    -- where it has neither. It returns nothing only when no zone of that type holds the goods, or
    -- such a zone has no station, or has a station without locations.
    pub resolve_outcome : Resolves (resolve (some l) goods_id task_type)
    unfolding resolve
    resolve_outcome = in_zones (find (is_zone_for goods_id task_type) l.zones) refl
      where
        in_zones :
            (o : Option ZoneInfo)
            → find (is_zone_for goods_id task_type) l.zones ≡ o
            → Resolves (elim o [ none ↦ none | some zone ↦ resolve_in l.stations zone ])
        in_zones none e = inl (find-none (is_zone_for goods_id task_type) l.zones e)
        in_zones (some zone) e =
            let (kind, goods) =
              is_zone_for-parts goods_id task_type zone
                (find_passes (is_zone_for goods_id task_type) l.zones zone e) in
            in_zone-Resolves zone
              (find-In (is_zone_for goods_id task_type) l.zones zone e, kind, goods)
