-- ===== src/ClusterRouter/BestPath.antt =====
-- cluster-router/graph/bestpath.go. `seen` is the set `seenInAdv`, and a loop over a slice is a fold
-- whose state is what the loop writes.
pub mod Order
pub mod Offers
pub mod Accepted
pub mod Choice
pub mod Result
pub mod Bounds
pub mod Advertise
pub mod Keys
use built_on_envoy.Prelude.{
  ℕ, ◌+◌, Bytes, text, bytes_ltb, bytes_eq, ◌==◌, ltb, leb, nat_beq, length, Bool, true, false, not,
  ◌&&◌, ◌||◌, Option, none, some, List, [], ◌∷◌, ◌≡◌, refl, if◌then◌else◌,
}
use built_on_envoy.Prelude.Int.{ℤ, pos, ◌+ℤ◌, ltb_ℤ, eqb_ℤ}
use built_on_envoy.Prelude.Assoc.{GoMap, lookup, insert}
use built_on_envoy.Prelude.Sort.{sort_slice, by_key}
use built_on_envoy.ClusterRouter.Graph.{
  PeerSpec, LocalCluster, Route, Advertisement, Table, is_terminal,
}

abbrev pub max_as_path : ℕ
max_as_path = 32

abbrev pub max_distance : ℤ
max_distance = pos max_as_path

abbrev pub hop_cost : ℤ
hop_cost = pos 1

pub record PeerAdvertisement : Type 0 where
  pub peer : PeerSpec
  pub adv : Advertisement

unfoldable pub has_in_path : List Bytes → Bytes → Bool
has_in_path [] id = false
has_in_path (p ∷ path) id = if p == id then true else has_in_path path id

unfoldable pub prepend : Bytes → List Bytes → List Bytes
prepend id path = id ∷ path

unfoldable pub valid_advertised_route : Route → Bool
valid_advertised_route r =
    if r.target_cluster == []
    then false
    else if ltb_ℤ r.distance (pos 0) || ltb_ℤ max_distance r.distance
    then false
    else if ltb max_as_path (length r.as_path)
    then false
    else true

-- The first element, or the empty string of an empty path.
unfoldable pub first_hop : List Bytes → Bytes
first_hop [] = []
first_hop (h ∷ path) = h

unfoldable pub better : Route → Route → Bool
unfolding first_hop
better a b =
    if not (eqb_ℤ a.distance b.distance)
    then ltb_ℤ a.distance b.distance
    else if not (nat_beq (length a.as_path) (length b.as_path))
    then ltb (length a.as_path) (length b.as_path)
    else bytes_ltb (first_hop a.as_path) (first_hop b.as_path)

unfoldable pub is_empty {ℓ} : {A : Type ℓ} → List A → Bool
is_empty [] = true
is_empty (x ∷ xs) = false

unfoldable pub local_route : Bytes → Route
local_route name = record {
  target_cluster = name;
  next_hop_local_cluster = name;
  distance = pos 0;
  as_path = [];
}

-- for name, c := range locals
unfoldable pub add_locals : GoMap LocalCluster → GoMap Route → GoMap Route
unfolding local_route
add_locals [] out = out
add_locals ((name, c) ∷ locals) out =
    add_locals locals (if is_terminal c.role then insert name (local_route name) out else out)

unfoldable pub candidate : PeerSpec → Route → Route
unfolding prepend
candidate p r = record {
  target_cluster = r.target_cluster;
  next_hop_local_cluster = p.local_cluster;
  distance = r.distance +ℤ hop_cost;
  as_path = prepend p.id r.as_path;
}

-- The body of the inner loop from `existing, ok := out[r.TargetCluster]` on.
unfoldable pub offer : Route → GoMap Route → GoMap Route
offer c out = elim (lookup c.target_cluster out) [
  | none ↦ insert c.target_cluster c out
  | some existing ↦
      if is_empty existing.as_path
      then out
      else if better c existing
      then insert c.target_cluster c out
      else out
]

pub record Scan : Type 0 where
  pub out : GoMap Route
  pub seen : List Bytes

-- for _, r := range pa.Adv.Routes
unfoldable pub scan_route : Bytes → PeerSpec → Route → Scan → Scan
scan_route local_envoy_id p r s =
    if not (valid_advertised_route r)
    then s
    else if has_in_path s.seen r.target_cluster
    then s
    else if has_in_path r.as_path local_envoy_id || has_in_path r.as_path p.id
    then record s { seen = r.target_cluster ∷ s.seen }
    else record { out = offer (candidate p r) s.out; seen = r.target_cluster ∷ s.seen }

unfoldable pub scan_routes : Bytes → PeerSpec → List Route → Scan → Scan
scan_routes local_envoy_id p [] s = s
scan_routes local_envoy_id p (r ∷ routes) s =
    scan_routes local_envoy_id p routes (scan_route local_envoy_id p r s)

unfoldable pub scan_peer :
    Bytes → GoMap LocalCluster → PeerAdvertisement → GoMap Route → GoMap Route
scan_peer local_envoy_id locals pa out = elim (lookup pa.peer.local_cluster locals) [
  | none ↦ out
  | some _ ↦
      (scan_routes local_envoy_id pa.peer pa.adv.routes (record { out = out; seen = [] })).out
]

-- for _, pa := range sorted
unfoldable pub scan_peers :
    Bytes → GoMap LocalCluster → List PeerAdvertisement → GoMap Route → GoMap Route
scan_peers local_envoy_id locals [] out = out
scan_peers local_envoy_id locals (pa ∷ advs) out =
    scan_peers local_envoy_id locals advs (scan_peer local_envoy_id locals pa out)

unfoldable pub by_peer_id : PeerAdvertisement → PeerAdvertisement → Bool
by_peer_id = by_key (λ pa. pa.peer.id)

unfoldable pub compute : Bytes → GoMap LocalCluster → List PeerAdvertisement → GoMap Route
compute local_envoy_id locals advs =
    scan_peers local_envoy_id locals (sort_slice by_peer_id advs) (add_locals locals [])

-- for _, r := range t.Routes
unfoldable pub withhold : Bytes → GoMap Route → List Route
withhold peer_id [] = []
withhold peer_id ((k, r) ∷ routes) =
    let rest = withhold peer_id routes in if has_in_path r.as_path peer_id then rest else r ∷ rest

unfoldable pub advertise_to : Table → Bytes → List Route
advertise_to t peer_id = sort_slice (by_key (λ r. r.target_cluster)) (withhold peer_id t.routes)
