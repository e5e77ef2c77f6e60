-- ===== src/ClusterRouter/Daemon/Ticks.antt =====
-- What a tick of the daemon (cluster-router/graph/daemon.go) puts into the routing table.
use built_on_envoy.Prelude.{
  ℕ, Bytes, bytes_eq, eq_iff, some, List, [], ◌∷◌, Memᴰ, ◌≡◌, ◌⊎◌, refl, ap, arith, inl, inr,
}
use built_on_envoy.Prelude.Int.{ℤ, sub_ℕ, ◌≤ℤ◌}
use built_on_envoy.Prelude.Assoc.{GoMap, lookup, lookup-insert, mem-insert, mem_of_lookup}
use built_on_envoy.ClusterRouter.Graph.{
  PeerSpec, LocalCluster, Advertisement, role_terminal, role_peer, lookup_route,
}
use built_on_envoy.ClusterRouter.BestPath.{local_route}
use built_on_envoy.ClusterRouter.BestPath.Result.{compute-local}
use built_on_envoy.ClusterRouter.Peer.{Fetched, FetchError, ok, err}
use built_on_envoy.ClusterRouter.Daemon.{
  DaemonConfig, Daemon, PeerCacheEntry, build_locals, terminal_locals, peer_locals, tick,
}

-- An entry of the local clusters that is a terminal is a configured one.
terminal_locals_source :
    (terminals : List Bytes) (out : GoMap LocalCluster) (t : Bytes) (c : LocalCluster)
    → Memᴰ (t, c) (terminal_locals terminals out)
    → Memᴰ t terminals ⊎ Memᴰ (t, c) out
unfolding terminal_locals
terminal_locals_source [] out t c m = inr m
terminal_locals_source (name ∷ terminals) out t c m =
    elim (terminal_locals_source terminals _ t c m) [
      | inl h ↦ inl (Memᴰ.tail h)
      | inr h ↦ elim (mem-insert name t _ c out h) [ inl e ↦ inl (Memᴰ.head e.0) | inr r ↦ inr r ]
    ]

abbrev peer_cluster : PeerSpec → LocalCluster
peer_cluster p = record { name = p.local_cluster; role = role_peer; peer_id = p.id }

peer_locals_role :
    (peers : List PeerSpec) (out : GoMap LocalCluster)
    → ((t : Bytes) (c : LocalCluster) → Memᴰ (t, c) out → c.role ≡ role_peer)
    → (t : Bytes) (c : LocalCluster) → Memᴰ (t, c) (peer_locals peers out)
    → c.role ≡ role_peer
unfolding peer_locals
peer_locals_role [] out h = h
peer_locals_role (p ∷ peers) out h = peer_locals_role peers _ λ t c m.
    elim (mem-insert p.local_cluster t (peer_cluster p) c out m) [
      | inl e ↦ ap (λ (x : LocalCluster). x.role) e.1
      | inr r ↦ h t c r
    ]

pub build_locals_source :
    (cfg : DaemonConfig) (t : Bytes) (c : LocalCluster)
    → Memᴰ (t, c) (build_locals cfg)
    → c.role ≡ role_terminal
    → Memᴰ t cfg.terminals
unfolding build_locals
build_locals_source cfg t c m role = elim (terminal_locals_source cfg.terminals _ t c m) [
  | inl h ↦ h
  | inr h ↦ cc (peer_locals_role cfg.peers [] (λ t c n. elim n [ ]) t c h)
]

abbrev terminal_cluster : Bytes → LocalCluster
terminal_cluster t = record { name = t; role = role_terminal; peer_id = [] }

terminal_locals_keeps :
    (terminals : List Bytes) (out : GoMap LocalCluster) (t : Bytes)
    → lookup t out ≡ some (terminal_cluster t)
    → lookup t (terminal_locals terminals out) ≡ some (terminal_cluster t)
unfolding terminal_locals
terminal_locals_keeps [] out t h = h
terminal_locals_keeps (name ∷ terminals) out t h =
    terminal_locals_keeps terminals _ t
      (ground (arith, lookup-insert name t (terminal_cluster name) out, eq_iff name t))

terminal_locals_adds :
    (terminals : List Bytes) (out : GoMap LocalCluster) (t : Bytes)
    → Memᴰ t terminals
    → lookup t (terminal_locals terminals out) ≡ some (terminal_cluster t)
unfolding terminal_locals
terminal_locals_adds [] out t m = elim m [ ]
terminal_locals_adds (name ∷ terminals) out t (Memᴰ.head e) =
    terminal_locals_keeps terminals _ t
      (ground (arith, lookup-insert name t (terminal_cluster name) out, eq_iff name t))
terminal_locals_adds (name ∷ terminals) out t (Memᴰ.tail m) = terminal_locals_adds terminals _ t m

-- Every configured terminal is routed to itself by every tick, whatever the peers say.
pub tick-local :
    (d : Daemon) (now : ℕ) (fetch : PeerSpec → Fetched) (t : Bytes)
    → Memᴰ t d.cfg.terminals
    → lookup_route (tick d now fetch).table t ≡ some (local_route t)
unfolding lookup_route tick build_locals
tick-local d now fetch t m =
    compute-local d.cfg.envoy_id (build_locals d.cfg) _ t (terminal_cluster t)
      (mem_of_lookup t (terminal_cluster t) _ (terminal_locals_adds d.cfg.terminals _ t m)) refl

module _ (stale_after : ℤ) (now : ℕ) (fetch : PeerSpec → Fetched)
    (cache : GoMap PeerCacheEntry) where
  -- The advertisement was fetched in this tick, or its peer is silent and it is in the cache and
  -- no older than `stale_after`.
  abbrev pub IsCurrent : PeerSpec → Advertisement → Type 0
  IsCurrent p adv =
      (fetch p ≡ ok adv)
      ⊎ ((e : FetchError) × (entry : PeerCacheEntry) × (fetch p ≡ err e)
          × (lookup p.id cache ≡ some entry)
          × (entry.adv ≡ adv)
          × (sub_ℕ now entry.received ≤ℤ stale_after))
