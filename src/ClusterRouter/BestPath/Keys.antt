-- ===== src/ClusterRouter/BestPath/Keys.antt =====
-- The routes that `Compute` (cluster-router/graph/bestpath.go) returns are a map keyed by target.
use built_on_envoy.Prelude.{
  Bytes, bytes_eq, Option-cases, List, [], ◌∷◌, Memᴰ, ◌≡◌, refl, sym, ap, inl, inr, ◌∙◌, Bool-cases,
  All-tabulate, some,
}
use built_on_envoy.Prelude.Assoc.{GoMap, lookup, IsMap, insert-IsMap, lookup_of_mem}
use built_on_envoy.Prelude.Sort.{sort_slice}
use built_on_envoy.ClusterRouter.Graph.{LocalCluster, Route, is_terminal}
use built_on_envoy.ClusterRouter.BestPath.{
  PeerAdvertisement, better, is_empty, local_route, add_locals, offer, compute, by_peer_id,
}
use built_on_envoy.ClusterRouter.BestPath.Offers.{offer_all, offers, scan_peers-eq}
use built_on_envoy.ClusterRouter.BestPath.Result.{compute_sound}
use built_on_envoy.ClusterRouter.BestPath.Advertise.{DistinctTargets}

add_locals-IsMap :
    (locals : GoMap LocalCluster) (out : GoMap Route) → IsMap out → IsMap (add_locals locals out)
unfolding add_locals
add_locals-IsMap [] out h = h
add_locals-IsMap ((name, c) ∷ locals) out h = elim (Bool-cases (is_terminal c.role)) [
  | inl e ↦ rw e (add_locals-IsMap locals _ (insert-IsMap name (local_route name) out h))
  | inr e ↦ rw e (add_locals-IsMap locals out h)
]

offer-IsMap : (c : Route) (out : GoMap Route) → IsMap out → IsMap (offer c out)
unfolding offer
offer-IsMap c out h = elim (Option-cases (lookup c.target_cluster out)) [
  | inl e ↦ rw (e, offer) (insert-IsMap c.target_cluster c out h)
  | inr (r, e) ↦ elim (Bool-cases (is_empty r.as_path)) [
    | inl k ↦ rw (e, offer, k) h
    | inr k ↦ elim (Bool-cases (better c r)) [
      | inl b ↦ rw (e, offer, k, b) (insert-IsMap c.target_cluster c out h)
      | inr b ↦ rw (e, offer, k, b) h
    ]
  ]
]

offer_all-IsMap : (cs : List Route) (out : GoMap Route) → IsMap out → IsMap (offer_all cs out)
unfolding offer_all
offer_all-IsMap [] out h = h
offer_all-IsMap (c ∷ cs) out h = offer_all-IsMap cs (offer c out) (offer-IsMap c out h)

module _ (local_envoy_id : Bytes) (locals : GoMap LocalCluster)
    (advs : List PeerAdvertisement) where
  pub compute-IsMap : IsMap (compute local_envoy_id locals advs)
  unfolding compute
  compute-IsMap =
      rw (scan_peers-eq local_envoy_id locals (sort_slice by_peer_id advs) (add_locals locals [])) (
        offer_all-IsMap (offers local_envoy_id locals (sort_slice by_peer_id advs)) _
          (add_locals-IsMap locals [] tt))

  -- Every route stands under its target.
  pub compute-target :
      (k : Bytes) (r : Route)
      → lookup k (compute local_envoy_id locals advs) ≡ some r
      → r.target_cluster ≡ k
  unfolding local_route
  compute-target k r h = elim (compute_sound local_envoy_id locals advs k r h) [
    | inl (c, m, role, e) ↦ ap (λ (x : Route). x.target_cluster) e
    | inr (o, e) ↦ e
  ]

DistinctTargets-of_IsMap :
    (m : GoMap Route)
    → IsMap m
    → ((k : Bytes) (r : Route) → Memᴰ (k, r) m → r.target_cluster ≡ k)
    → DistinctTargets m
DistinctTargets-of_IsMap [] i at = tt
DistinctTargets-of_IsMap ((k, r) ∷ m) i at = (
  All-tabulate _ m
      (λ e h same. clash e h (sym (at k r (Memᴰ.head refl)) ∙ same ∙ at e.0 e.1 (Memᴰ.tail h))),
  DistinctTargets-of_IsMap m i.1 (λ j q h. at j q (Memᴰ.tail h)),
)
  where
    clash : (e : Bytes × Route) → Memᴰ e m → k ≡ e.0 → ⊥
    clash e h same = cc (i.0, lookup_of_mem e.0 e.1 m i.1 h, same)

-- So what `AdvertiseTo` sends of such a table does not depend on the order of the map.
pub compute-DistinctTargets :
    (local_envoy_id : Bytes) (locals : GoMap LocalCluster) (advs : List PeerAdvertisement)
    → DistinctTargets (compute local_envoy_id locals advs)
compute-DistinctTargets local_envoy_id locals advs =
    DistinctTargets-of_IsMap (compute local_envoy_id locals advs)
      (compute-IsMap local_envoy_id locals advs)
      λ k r m.
        compute-target local_envoy_id locals advs k r
          (lookup_of_mem k r _ (compute-IsMap local_envoy_id locals advs) m)
