-- ===== src/ClusterRouter/BestPath/Bounds.antt =====
-- What holds of each route in the table of `Compute` (cluster-router/graph/bestpath.go): no loops,
-- bounded length, and a distance that counts hops.
use built_on_envoy.Prelude.{
  suc, ◌+◌, ◌≤◌, Bytes, List, ◌∷◌, Memᴰ, All, All-mem, ◌≡◌, ◌≢◌, refl, sym, arith, inl, inr, subst,
  length, some, true,
}
use built_on_envoy.Prelude.Int.{pos, ◌+ℤ◌, ◌≤ℤ◌}
use built_on_envoy.Prelude.Assoc.{GoMap, lookup}
use built_on_envoy.ClusterRouter.Graph.{LocalCluster, Route}
use built_on_envoy.ClusterRouter.BestPath.{
  PeerAdvertisement, valid_advertised_route, local_route, candidate, compute, max_as_path,
}
use built_on_envoy.ClusterRouter.BestPath.Offers.{IsFirstValid}
use built_on_envoy.ClusterRouter.BestPath.Result.{compute_sound, valid_of_first}

pub mem_of_first : {r : Route} {routes : List Route} → IsFirstValid r routes → Memᴰ r routes
mem_of_first (IsFirstValid.here e v) = Memᴰ.head e
mem_of_first (IsFirstValid.later _ f) = Memᴰ.tail (mem_of_first f)

module _ (local_envoy_id : Bytes) (locals : GoMap LocalCluster)
    (advs : List PeerAdvertisement) where
  -- What holds of the local routes and of every candidate holds of every route of the table.
  pub compute_induction {ℓ} :
      (P : Route → Type ℓ)
      → ((t : Bytes) → P (local_route t))
      → ((pa : PeerAdvertisement) (r : Route)
          → Memᴰ pa advs
          → Memᴰ r pa.adv.routes
          → valid_advertised_route r ≡ true
          → ¬ Memᴰ local_envoy_id r.as_path
          → P (candidate pa.peer r))
      → (t : Bytes) (r : Route) → lookup t (compute local_envoy_id locals advs) ≡ some r
      → P r
  compute_induction P base step t r h = elim (compute_sound local_envoy_id locals advs t r h) [
    | inl (c, m, role, e) ↦ subst P (sym e) (base t)
    | inr (o, _) ↦
        let a = o.accepted in
        subst P (sym a.made) (
          step o.source a.route o.received (mem_of_first a.first) (valid_of_first a.first)
            a.no_loop)
  ]

  -- No route of the table leads back through this Envoy.
  pub compute_loop_free :
      (t : Bytes) (r : Route)
      → All (λ pa. pa.peer.id ≢ local_envoy_id) advs
      → lookup t (compute local_envoy_id locals advs) ≡ some r
      → ¬ Memᴰ local_envoy_id r.as_path
  unfolding local_route candidate
  compute_loop_free t r others =
      compute_induction (λ q. ¬ Memᴰ local_envoy_id q.as_path) (λ t m. elim m [ ])
        (λ pa q from here valid out m. prepended pa q (All-mem _ advs others from) out m) t r
    where
      prepended :
          (pa : PeerAdvertisement) (q : Route)
          → pa.peer.id ≢ local_envoy_id
          → ¬ Memᴰ local_envoy_id q.as_path
          → ¬ Memᴰ local_envoy_id (pa.peer.id ∷ q.as_path)
      prepended pa q ne out (Memᴰ.head e) = ne (sym e)
      prepended pa q ne out (Memᴰ.tail m) = out m

  -- Distances and path lengths stay within one hop of the bounds on what is accepted.
  pub compute_bounds :
      (t : Bytes) (r : Route)
      → lookup t (compute local_envoy_id locals advs) ≡ some r
      → (pos 0 ≤ℤ r.distance)
        × (r.distance ≤ℤ pos (max_as_path + 1))
        × (length r.as_path ≤ max_as_path + 1)
  unfolding local_route candidate valid_advertised_route ◌+ℤ◌
  compute_bounds =
      compute_induction
        (λ r.
          (pos 0 ≤ℤ r.distance)
          × (r.distance ≤ℤ pos (max_as_path + 1))
          × (length r.as_path ≤ max_as_path + 1))
        (λ t. omega arith) (λ pa r _ _ valid _. ground arith)

  -- If every advertised distance counts the hops of its path, so does every distance of the table.
  pub compute_hops :
      (t : Bytes) (r : Route)
      → All (λ pa. All (λ q. q.distance ≡ pos (length q.as_path)) pa.adv.routes) advs
      → lookup t (compute local_envoy_id locals advs) ≡ some r
      → r.distance ≡ pos (length r.as_path)
  unfolding local_route candidate ◌+ℤ◌
  compute_hops t r hops =
      compute_induction (λ q. q.distance ≡ pos (length q.as_path)) (λ t. refl)
        (λ pa q from here _ _. counted q (All-mem _ pa.adv.routes (All-mem _ advs hops from) here))
        t r
    where
      counted :
          (q : Route)
          → q.distance ≡ pos (length q.as_path)
          → q.distance +ℤ pos 1 ≡ pos (suc (length q.as_path))
      counted q e = rw e (ground arith)
