-- ===== src/ClusterRouter/Tests/Tables.antt =====
-- Runs of `Compute`, `AdvertiseTo`, the poll loop, the validation and the filter of cluster-router.

use mathlib.Core.List.{Permᴰ}
use built_on_envoy.Prelude.{
  ℕ, ◌+◌, ◌≤◌, Bytes, text, bytes_eq, bytes_beq, true, false, some, List, [], ◌∷◌, Memᴰ, ◌≡◌, ◌≢◌,
  ◌↔◌, ◌⊎◌, refl, arith, length, bytes_ltb,
}
use built_on_envoy.Prelude.Int.{pos, ◌+ℤ◌, ◌≤ℤ◌}
use built_on_envoy.Prelude.Assoc.{GoMap, lookup, insert}
use built_on_envoy.Prelude.Sort.{sort_slice}
use built_on_envoy.ClusterRouter.Graph.{
  PeerSpec, LocalCluster, Route, Table, role_terminal, role_peer, is_terminal,
}
use built_on_envoy.ClusterRouter.BestPath.{
  PeerAdvertisement, max_as_path, better, local_route, candidate, compute, advertise_to,
  valid_advertised_route, has_in_path, by_peer_id, scan_peers, scan_peer, scan_routes, scan_route,
  add_locals, offer, is_empty, withhold,
}
use built_on_envoy.ClusterRouter.BestPath.Offers.{IsFirstValid, Offered, not-mem_of_has_in_path}
use built_on_envoy.ClusterRouter.BestPath.Result.{
  compute-local, compute_sound, compute_best, compute-eq_of_perm,
}
use built_on_envoy.ClusterRouter.BestPath.Bounds.{compute_loop_free, compute_bounds, compute_hops}
use built_on_envoy.ClusterRouter.BestPath.Advertise.{advertise_to-mem, advertise_to-eq_of_perm}

abbrev pub a_id : Bytes
a_id = text "a"

abbrev pub peer_b : PeerSpec
peer_b = record { id = text "b"; endpoint = text "http://b:1"; local_cluster = text "to_b" }

abbrev pub peer_c : PeerSpec
peer_c = record { id = text "c"; endpoint = text "http://c:1"; local_cluster = text "to_c" }

abbrev pub own_terminal : LocalCluster
own_terminal = record { name = text "own"; role = role_terminal; peer_id = [] }

abbrev pub peer_cluster : PeerSpec → LocalCluster
peer_cluster p = record { name = p.local_cluster; role = role_peer; peer_id = p.id }

abbrev pub locals : GoMap LocalCluster
locals =
    (text "own", own_terminal)
    ∷ (text "to_b", peer_cluster peer_b)
    ∷ (text "to_c", peer_cluster peer_c)
    ∷ []

abbrev pub svc_at : Bytes → ℕ → List Bytes → Route
svc_at hop n path = record {
  target_cluster = text "svc";
  next_hop_local_cluster = hop;
  distance = pos n;
  as_path = path;
}

abbrev pub from_b : PeerAdvertisement
from_b = record {
  peer = peer_b;
  adv = record { envoy_id = text "b"; routes = svc_at (text "svc") 0 [] ∷ [] };
}

abbrev pub from_c : PeerAdvertisement
from_c = record {
  peer = peer_c;
  adv = record { envoy_id = text "c"; routes = svc_at (text "x") 1 (text "d" ∷ []) ∷ [] };
}

abbrev pub advs : List PeerAdvertisement
advs = from_c ∷ from_b ∷ []

abbrev pub svc_route : Route
svc_route = svc_at (text "to_b") 1 (text "b" ∷ [])

-- The nearer of two offers wins, in whatever order they come.
compute_run : lookup (text "svc") (compute a_id locals advs) ≡ some svc_route
unfolding compute scan_peers scan_peer scan_routes scan_route add_locals offer is_empty better
    by_peer_id sort_slice lookup insert valid_advertised_route has_in_path candidate local_route
    is_terminal bytes_beq bytes_ltb ◌+ℤ◌
compute_run = refl

compute-local_example :
    lookup (text "own") (compute a_id locals advs) ≡ some (local_route (text "own"))
compute-local_example =
    compute-local a_id locals advs (text "own") own_terminal (Memᴰ.head refl) refl

compute_sound_example :
    ((c : LocalCluster) × Memᴰ (text "svc", c) locals
      × (c.role ≡ role_terminal)
      × (svc_route ≡ local_route (text "svc")))
    ⊎ (Offered a_id locals advs svc_route × (svc_route.target_cluster ≡ text "svc"))
compute_sound_example = compute_sound a_id locals advs (text "svc") svc_route compute_run

valid_svc : valid_advertised_route (svc_at (text "x") 1 (text "d" ∷ [])) ≡ true
unfolding valid_advertised_route bytes_beq
valid_svc = refl

-- What `c` offers, which is not what is chosen.
far_route : Offered a_id locals advs (candidate peer_c (svc_at (text "x") 1 (text "d" ∷ [])))
unfolding lookup bytes_beq has_in_path
far_route = record {
  source = from_c;
  received = Memᴰ.head refl;
  cluster = peer_cluster peer_c;
  known = refl;
  accepted = record {
    route = svc_at (text "x") 1 (text "d" ∷ []);
    first = IsFirstValid.here refl valid_svc;
    no_loop = not-mem_of_has_in_path (text "d" ∷ []) a_id refl;
    no_return = not-mem_of_has_in_path (text "d" ∷ []) (text "c") refl;
    made = refl;
  };
}

compute_best_example :
    (r : Route) × (lookup (text "svc") (compute a_id locals advs) ≡ some r)
    × (better (candidate peer_c (svc_at (text "x") 1 (text "d" ∷ []))) r ≡ false)
unfolding candidate
compute_best_example =
    compute_best a_id locals advs (candidate peer_c (svc_at (text "x") 1 (text "d" ∷ []))) far_route

compute-eq_of_perm_example : compute a_id locals advs ≡ compute a_id locals (from_b ∷ from_c ∷ [])
compute-eq_of_perm_example =
    compute-eq_of_perm a_id locals advs (from_b ∷ from_c ∷ []) (Permᴰ.swap refl refl)
      (((λ e. ground arith), tt), (tt, tt))

compute_loop_free_example : ¬ Memᴰ a_id svc_route.as_path
compute_loop_free_example =
    compute_loop_free a_id locals advs (text "svc") svc_route
      ((λ e. ground arith), ((λ e. ground arith), tt)) compute_run

compute_bounds_example :
    (pos 0 ≤ℤ svc_route.distance)
    × (svc_route.distance ≤ℤ pos (max_as_path + 1))
    × (length svc_route.as_path ≤ max_as_path + 1)
compute_bounds_example = compute_bounds a_id locals advs (text "svc") svc_route compute_run

compute_hops_example : svc_route.distance ≡ pos (length svc_route.as_path)
compute_hops_example =
    compute_hops a_id locals advs (text "svc") svc_route ((refl, tt), ((refl, tt), tt)) compute_run

abbrev pub table : Table
table = record {
  envoy_id = a_id;
  routes = (text "own", local_route (text "own")) ∷ (text "svc", svc_route) ∷ [];
  local_clusters = locals;
}

abbrev pub walked_backwards : Table
walked_backwards = record table {
  routes = (text "svc", svc_route) ∷ (text "own", local_route (text "own")) ∷ [];
}

advertise_run : advertise_to table (text "b") ≡ local_route (text "own") ∷ []
unfolding advertise_to withhold has_in_path bytes_beq sort_slice local_route
advertise_run = refl

advertise_to-mem_example :
    Memᴰ svc_route (advertise_to table (text "b"))
    ↔ ((k : Bytes) × Memᴰ (k, svc_route) table.routes × ¬ Memᴰ (text "b") svc_route.as_path)
advertise_to-mem_example = advertise_to-mem table (text "b") svc_route

other_targets : (local_route (text "own")).target_cluster ≢ svc_route.target_cluster
unfolding local_route
other_targets e = ground arith

advertise_to-eq_of_perm_example :
    advertise_to table (text "d") ≡ advertise_to walked_backwards (text "d")
advertise_to-eq_of_perm_example =
    advertise_to-eq_of_perm table walked_backwards (text "d") (Permᴰ.swap refl refl)
      (((other_targets), tt), (tt, tt))
