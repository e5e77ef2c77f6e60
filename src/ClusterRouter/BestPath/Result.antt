-- ===== src/ClusterRouter/BestPath/Result.antt =====
-- What the routing table of `Compute` (cluster-router/graph/bestpath.go) holds, in terms of the local
-- clusters and of the routes that the peers offer.
use built_on_envoy.Prelude.{
  Bytes, bytes_eq, bytes_ltb_total, ◌==◌, eq_iff, true, false, some, List, [], ◌∷◌, Memᴰ, All,
  All-imp, All-tabulate, ◌≡◌, ◌≢◌, ◌⊎◌, refl, sym, ap, arith, inl, inr, Bool-cases, Option-cases,
  ◌∙◌,
}
use mathlib.Core.List.{Permᴰ}
use built_on_envoy.Prelude.Int.{◌+ℤ◌}
use built_on_envoy.Prelude.Assoc.{GoMap, lookup, lookup-insert}
use built_on_envoy.Prelude.Sort.{
  sort_slice, mem-sort_slice, sort_slice-eq_of_perm, by_key-IsStrictWeak, Untied,
}
use built_on_envoy.ClusterRouter.Graph.{
  PeerSpec, LocalCluster, Route, ClusterRole, role_terminal, role_peer, role_ignore, is_terminal,
}
use built_on_envoy.ClusterRouter.BestPath.{
  PeerAdvertisement, valid_advertised_route, better, is_empty, local_route, add_locals, candidate,
  by_peer_id, compute,
}
use built_on_envoy.ClusterRouter.BestPath.Offers.{IsFirstValid, Offered, offers, scan_peers-eq}
use built_on_envoy.ClusterRouter.BestPath.Accepted.{offers_sound, offers_complete}
use built_on_envoy.ClusterRouter.BestPath.Choice.{
  Yields, pick_all, lookup-offer_all, pick_all_local, pick_all_source, pick_all_best,
}

is_terminal_iff : (r : ClusterRole) → is_terminal r ≡ true → r ≡ role_terminal
unfolding is_terminal
is_terminal_iff role_terminal h = refl
is_terminal_iff role_peer h = cc
is_terminal_iff role_ignore h = cc

add_locals_keeps :
    (t : Bytes) (locals : GoMap LocalCluster) (out : GoMap Route)
    → lookup t out ≡ some (local_route t)
    → lookup t (add_locals locals out) ≡ some (local_route t)
unfolding add_locals
add_locals_keeps t [] out h = h
add_locals_keeps t ((name, c) ∷ locals) out h = elim (Bool-cases (is_terminal c.role)) [
  | inl e ↦ rw e (
      add_locals_keeps t locals _
        (ground (arith, lookup-insert name t (local_route name) out, eq_iff name t)))
  | inr e ↦ rw e (add_locals_keeps t locals out h)
]

add_locals_terminal :
    (t : Bytes) (c : LocalCluster) (locals : GoMap LocalCluster) (out : GoMap Route)
    → Memᴰ (t, c) locals
    → c.role ≡ role_terminal
    → lookup t (add_locals locals out) ≡ some (local_route t)
unfolding add_locals
add_locals_terminal t c [] out m e = elim m [ ]
add_locals_terminal t c ((name, d) ∷ locals) out (Memᴰ.head q) e =
    let at : t ≡ name = ap (λ (x : Bytes × LocalCluster). x.0) q in
    let role : is_terminal d.role ≡ true =
      unfold is_terminal in (rw (← (ap (λ (x : Bytes × LocalCluster). x.1.role) q), e) refl) in
    rw role (
      add_locals_keeps t locals _
        (ground (arith, lookup-insert name t (local_route name) out, eq_iff name t)))
add_locals_terminal t c ((name, d) ∷ locals) out (Memᴰ.tail m) e =
    add_locals_terminal t c locals _ m e

add_locals_source :
    (t : Bytes) (r : Route) (locals : GoMap LocalCluster) (out : GoMap Route)
    → lookup t (add_locals locals out) ≡ some r
    → (lookup t out ≡ some r)
      ⊎ ((c : LocalCluster) × Memᴰ (t, c) locals × (c.role ≡ role_terminal) × (r ≡ local_route t))
unfolding add_locals
add_locals_source t r [] out h = inl h
add_locals_source t r ((name, c) ∷ locals) out h = elim (add_locals_source t r locals _ h) [
  | inr (d, m, e, k) ↦ inr (d, Memᴰ.tail m, e, k)
  | inl k ↦ elim (Bool-cases (is_terminal c.role)) [
    | inr e ↦ inl (rw e at k)
    | inl e ↦ elim (Bool-cases (name == t)) [
      | inl n ↦ inr (
        c,
        Memᴰ.head (ap (λ (x : Bytes). (x, c)) (sym ((eq_iff name t).0 n))),
        is_terminal_iff c.role e,
        ground (arith, lookup-insert name t (local_route name) out, eq_iff name t),
      )
      | inr n ↦ inl (ground (arith, lookup-insert name t (local_route name) out))
    ]
  ]
]

pub valid_of_first :
    {r : Route} {routes : List Route} → IsFirstValid r routes → valid_advertised_route r ≡ true
valid_of_first (IsFirstValid.here e v) = rw e v
valid_of_first (IsFirstValid.later _ f) = valid_of_first f

-- A candidate is one hop away at least, so it does not beat a local cluster.
better-local_route :
    (p : PeerSpec) (r : Route) (t : Bytes)
    → valid_advertised_route r ≡ true
    → better (candidate p r) (local_route t) ≡ false
unfolding better candidate valid_advertised_route local_route ◌+ℤ◌
better-local_route p r t h = ground arith

module _ (local_envoy_id : Bytes) (locals : GoMap LocalCluster)
    (advs : List PeerAdvertisement) where
  abbrev sorted : List PeerAdvertisement
  sorted = sort_slice by_peer_id advs

  lookup-compute :
      (t : Bytes)
      → lookup t (compute local_envoy_id locals advs)
        ≡ pick_all t (offers local_envoy_id locals sorted) (lookup t (add_locals locals []))
  unfolding compute
  lookup-compute t =
      rw (scan_peers-eq local_envoy_id locals sorted (add_locals locals []))
        (lookup-offer_all t (offers local_envoy_id locals sorted) (add_locals locals []))

  local_source :
      (t : Bytes) (e : Route)
      → lookup t (add_locals locals []) ≡ some e
      → (c : LocalCluster) × Memᴰ (t, c) locals × (c.role ≡ role_terminal) × (e ≡ local_route t)
  unfolding lookup
  local_source t e h = elim (add_locals_source t e locals [] h) [ inl k ↦ cc | inr s ↦ s ]

  offers_learned : All (λ q. is_empty q.as_path ≡ false) (offers local_envoy_id locals sorted)
  unfolding candidate is_empty
  offers_learned =
      All-tabulate _ _
        (λ c m. rw (offers_sound local_envoy_id locals sorted c m).accepted.made refl)

  -- A target that is a terminal cluster here is routed to that cluster, whatever the peers advertise.
  pub compute-local :
      (t : Bytes) (c : LocalCluster)
      → Memᴰ (t, c) locals
      → c.role ≡ role_terminal
      → lookup t (compute local_envoy_id locals advs) ≡ some (local_route t)
  compute-local t c m e =
      lookup-compute t
      ∙ rw (add_locals_terminal t c locals [] m e) (
          pick_all_local t (offers local_envoy_id locals sorted) (local_route t)
            (unfold local_route is_empty in refl))

  -- Every route of the table is that of a local terminal, or one that a peer offers for the target.
  pub compute_sound :
      (t : Bytes) (r : Route)
      → lookup t (compute local_envoy_id locals advs) ≡ some r
      → ((c : LocalCluster) × Memᴰ (t, c) locals × (c.role ≡ role_terminal) × (r ≡ local_route t))
        ⊎ (Offered local_envoy_id locals advs r × (r.target_cluster ≡ t))
  compute_sound t r h =
      elim (pick_all_source t (offers local_envoy_id locals sorted)
        (lookup t (add_locals locals [])) r (sym (lookup-compute t) ∙ h)) [
          | inl e ↦ inl (local_source t r e)
          | inr (m, e) ↦
              let o = offers_sound local_envoy_id locals sorted r m in
              inr (
                record {
                  source = o.source;
                  received = (mem-sort_slice by_peer_id o.source advs).0 o.received;
                  cluster = o.cluster;
                  known = o.known;
                  accepted = o.accepted;
                },
                e,
              )
        ]

  -- If any peer offers a route for a target, the table has a route for it that no such offer beats.
  pub compute_best :
      (c : Route)
      → Offered local_envoy_id locals advs c
      → (r : Route) × (lookup c.target_cluster (compute local_envoy_id locals advs) ≡ some r)
        × (better c r ≡ false)
  compute_best c o =
      let (r, h, b) =
        pick_all_best t (offers local_envoy_id locals sorted) (lookup t (add_locals locals [])) c
          offers_learned
          (offers_complete local_envoy_id locals sorted c o.source o.cluster
            ((mem-sort_slice by_peer_id o.source advs).1 o.received) o.known o.accepted)
          refl yields in
      (r, lookup-compute t ∙ h, b)
    where
      t : Bytes
      t = c.target_cluster

      yields : Yields t c (lookup t (add_locals locals []))
      yields = elim (Option-cases (lookup t (add_locals locals []))) [
        | inl e ↦ inl e
        | inr (e, h) ↦ inr (
          e,
          h,
          inr (
              rw ((local_source t e h).3, o.accepted.made)
                (better-local_route o.source.peer o.accepted.route _
                  (valid_of_first o.accepted.first))),
        )
      ]

-- No two advertisements come from one peer id.
abbrev pub DistinctPeers : List PeerAdvertisement → Type 0
DistinctPeers [] = Unit
DistinctPeers (pa ∷ advs) = All (λ q. pa.peer.id ≢ q.peer.id) advs × DistinctPeers advs

Untied-peers : (advs : List PeerAdvertisement) → DistinctPeers advs → Untied by_peer_id advs
unfolding by_peer_id
Untied-peers [] d = tt
Untied-peers (pa ∷ advs) d = (
  All-imp _ _ (λ q ne t. ne (bytes_ltb_total pa.peer.id q.peer.id t.0 t.1)) advs d.0,
  Untied-peers advs d.1,
)

-- The table does not depend on the order in which the advertisements arrive.
pub compute-eq_of_perm :
    (local_envoy_id : Bytes) (locals : GoMap LocalCluster) (advs others : List PeerAdvertisement)
    → Permᴰ advs others
    → DistinctPeers advs
    → compute local_envoy_id locals advs ≡ compute local_envoy_id locals others
unfolding compute by_peer_id
compute-eq_of_perm local_envoy_id locals advs others p d = rw (
    sort_slice-eq_of_perm _ (by_key-IsStrictWeak (λ (pa : PeerAdvertisement). pa.peer.id)) p
      (Untied-peers advs d))
