-- ===== src/ClusterRouter/BestPath/Offers.antt =====
-- The candidates that `Compute` (cluster-router/graph/bestpath.go) considers, as a relation that does
-- not follow its loops, and as the list in the order of its loops.
use built_on_envoy.Prelude.{
  Bytes, bytes_eq, ◌==◌, eq_iff, true, false, not, ◌||◌, none, some, List, [], ◌∷◌, ◌++◌, Memᴰ, ◌≡◌,
  ◌≢◌, refl, sym, arith, inl, inr, Bool-cases, Option-cases, if◌then◌else◌,
}
use built_on_envoy.Prelude.Assoc.{GoMap, lookup}
use built_on_envoy.ClusterRouter.Graph.{PeerSpec, LocalCluster, Route}
use built_on_envoy.ClusterRouter.BestPath.{
  PeerAdvertisement, has_in_path, valid_advertised_route, candidate, offer, Scan, scan_route,
  scan_routes, scan_peer, scan_peers,
}

pub mem_of_has_in_path :
    (path : List Bytes) (id : Bytes) → has_in_path path id ≡ true → Memᴰ id path
unfolding has_in_path
mem_of_has_in_path [] id h = cc
mem_of_has_in_path (p ∷ path) id h = elim (Bool-cases (p == id)) [
  | inl e ↦ Memᴰ.head (sym ((eq_iff p id).0 e))
  | inr e ↦ Memᴰ.tail (mem_of_has_in_path path id (ground arith))
]

pub has_in_path_of_mem :
    (path : List Bytes) (id : Bytes) → Memᴰ id path → has_in_path path id ≡ true
unfolding has_in_path
has_in_path_of_mem [] id m = elim m [ ]
has_in_path_of_mem (p ∷ path) id (Memᴰ.head e) = ground (arith, eq_iff p id)
has_in_path_of_mem (p ∷ path) id (Memᴰ.tail m) = ground (arith, has_in_path_of_mem path id m)

pub not-mem_of_has_in_path :
    (path : List Bytes) (id : Bytes) → has_in_path path id ≡ false → ¬ Memᴰ id path
not-mem_of_has_in_path path id h m = cc (has_in_path_of_mem path id m)

pub has_in_path_of_not-mem :
    (path : List Bytes) (id : Bytes) → ¬ Memᴰ id path → has_in_path path id ≡ false
has_in_path_of_not-mem path id h = elim (Bool-cases (has_in_path path id)) [
  | inl e ↦ absurd (h (mem_of_has_in_path path id e))
  | inr e ↦ e
]

-- `r` is the first valid route to its target in the list.
pub data IsFirstValid (r : Route) : List Route → Type 0 where
  here :
      {q : Route} {rest : List Route}
      → r ≡ q
      → valid_advertised_route q ≡ true
      → IsFirstValid r (q ∷ rest)
  later :
      {q : Route} {rest : List Route}
      → (valid_advertised_route q ≡ true → q.target_cluster ≢ r.target_cluster)
      → IsFirstValid r rest
      → IsFirstValid r (q ∷ rest)

-- `c` is made from a route that peer `p` advertises, and that has not been through this Envoy or `p`.
pub record Accepts (local_envoy_id : Bytes) (p : PeerSpec) (routes : List Route) (c : Route)
    : Type 0 where
  pub route : Route
  pub first : IsFirstValid route routes
  pub no_loop : ¬ Memᴰ local_envoy_id route.as_path
  pub no_return : ¬ Memᴰ p.id route.as_path
  pub made : c ≡ candidate p route

-- Some peer behind a known local cluster offers `c`.
pub record Offered (local_envoy_id : Bytes) (locals : GoMap LocalCluster)
    (advs : List PeerAdvertisement) (c : Route) : Type 0 where
  pub source : PeerAdvertisement
  pub received : Memᴰ source advs
  pub cluster : LocalCluster
  pub known : lookup source.peer.local_cluster locals ≡ some cluster
  pub accepted : Accepts local_envoy_id source.peer source.adv.routes c

unfoldable pub seen_after : Route → List Bytes → List Bytes
seen_after r seen =
    if not (valid_advertised_route r)
    then seen
    else if has_in_path seen r.target_cluster
    then seen
    else r.target_cluster ∷ seen

module _ (local_envoy_id : Bytes) (p : PeerSpec) where
  unfoldable pub offer_of : Route → List Bytes → List Route
  offer_of r seen =
      if not (valid_advertised_route r)
      then []
      else if has_in_path seen r.target_cluster
      then []
      else if has_in_path r.as_path local_envoy_id || has_in_path r.as_path p.id
      then []
      else candidate p r ∷ []

  unfoldable pub route_offers : List Route → List Bytes → List Route
  route_offers [] seen = []
  route_offers (r ∷ routes) seen = offer_of r seen ++ route_offers routes (seen_after r seen)

unfoldable pub offer_all : List Route → GoMap Route → GoMap Route
offer_all [] out = out
offer_all (c ∷ cs) out = offer_all cs (offer c out)

pub offer_all-append :
    (cs ds : List Route) (out : GoMap Route)
    → offer_all (cs ++ ds) out ≡ offer_all ds (offer_all cs out)
unfolding offer_all
offer_all-append [] ds out = refl
offer_all-append (c ∷ cs) ds out = offer_all-append cs ds (offer c out)

module _ (local_envoy_id : Bytes) (p : PeerSpec) where
  scan_route_out :
      (r : Route) (s : Scan)
      → (scan_route local_envoy_id p r s).out ≡ offer_all (offer_of local_envoy_id p r s.seen) s.out
  unfolding scan_route offer_of offer_all
  scan_route_out r s = ground arith

  scan_route_seen :
      (r : Route) (s : Scan) → (scan_route local_envoy_id p r s).seen ≡ seen_after r s.seen
  unfolding scan_route seen_after
  scan_route_seen r s = ground arith

  scan_routes-eq :
      (routes : List Route) (s : Scan)
      → (scan_routes local_envoy_id p routes s).out
        ≡ offer_all (route_offers local_envoy_id p routes s.seen) s.out
  unfolding scan_routes route_offers
  scan_routes-eq [] s = unfold offer_all in refl
  scan_routes-eq (r ∷ routes) s = cc (
    scan_routes-eq routes (scan_route local_envoy_id p r s),
    scan_route_out r s,
    scan_route_seen r s,
    offer_all-append (offer_of local_envoy_id p r s.seen)
        (route_offers local_envoy_id p routes (seen_after r s.seen)) s.out,
  )

module _ (local_envoy_id : Bytes) (locals : GoMap LocalCluster) where
  unfoldable pub peer_offers : PeerAdvertisement → List Route
  peer_offers pa = elim (lookup pa.peer.local_cluster locals) [
    | none ↦ []
    | some _ ↦ route_offers local_envoy_id pa.peer pa.adv.routes []
  ]

  unfoldable pub offers : List PeerAdvertisement → List Route
  offers [] = []
  offers (pa ∷ advs) = peer_offers pa ++ offers advs

  scan_peer-eq :
      (pa : PeerAdvertisement) (out : GoMap Route)
      → scan_peer local_envoy_id locals pa out ≡ offer_all (peer_offers pa) out
  unfolding scan_peer peer_offers
  scan_peer-eq pa out = elim (Option-cases (lookup pa.peer.local_cluster locals)) [
    | inl e ↦ rw (e, scan_peer, peer_offers) (unfold offer_all in refl)
    | inr (c, e) ↦
        rw (e, scan_peer, peer_offers)
          (scan_routes-eq local_envoy_id pa.peer pa.adv.routes (record { out = out; seen = [] }))
  ]

  -- The loops of `Compute` make one offer after the other.
  pub scan_peers-eq :
      (advs : List PeerAdvertisement) (out : GoMap Route)
      → scan_peers local_envoy_id locals advs out ≡ offer_all (offers advs) out
  unfolding scan_peers offers
  scan_peers-eq [] out = unfold offer_all in refl
  scan_peers-eq (pa ∷ advs) out = cc (
    scan_peers-eq advs (scan_peer local_envoy_id locals pa out),
    scan_peer-eq pa out,
    offer_all-append (peer_offers pa) (offers advs) out,
  )
