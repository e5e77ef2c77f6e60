-- ===== src/ClusterRouter/Mesh/Paths.antt =====
-- In every state that a mesh of daemons (cluster-router/graph) reaches, the paths in the routing tables
-- are real.
use built_on_envoy.Prelude.{
  ℕ, Bytes, text, bytes_eq, ◌==◌, eq_iff, Bool-cases, some, List, [], ◌∷◌, Memᴰ, All, All-mem,
  All-tabulate, ◌≡◌, ◌≢◌, inl, inr, refl, sym, ap, ◌∙◌, subst, arith, length,
}
use built_on_envoy.Prelude.Int.{pos, ◌+ℤ◌}
use built_on_envoy.Prelude.Assoc.{lookup, lookup_of_mem, mem_of_lookup}
use built_on_envoy.ClusterRouter.Graph.{PeerSpec, Advertisement, Route, Table, lookup_route}
use built_on_envoy.ClusterRouter.BestPath.{PeerAdvertisement, candidate, local_route, advertise_to}
use built_on_envoy.ClusterRouter.BestPath.Result.{compute_sound}
use built_on_envoy.ClusterRouter.BestPath.Bounds.{mem_of_first}
use built_on_envoy.ClusterRouter.BestPath.Keys.{compute-IsMap, compute-target}
use built_on_envoy.ClusterRouter.BestPath.Advertise.{advertise_to-mem}
use built_on_envoy.ClusterRouter.Peer.{Fetched, ok, advertise, handle}
use built_on_envoy.ClusterRouter.Daemon.{DaemonConfig, Daemon, tick, build_locals, collect_peers}
use built_on_envoy.ClusterRouter.Daemon.Collect.{CacheHolds, collect_peers-holds}
use built_on_envoy.ClusterRouter.Daemon.Ticks.{build_locals_source}
use built_on_envoy.ClusterRouter.Mesh.{
  Node, Network, start, publish, Step, ticks, Reach, here, next, Walk, arrive, hop,
}

abbrev pub NoRepeats : List Bytes → Type 0
NoRepeats [] = Unit
NoRepeats (x ∷ xs) = (¬ Memᴰ x xs) × NoRepeats xs

-- Each Envoy has its own id, and is no peer of itself; `Config` shows that validation asks for both.
abbrev pub WellConfigured : (Bytes → DaemonConfig) → Type 0
WellConfigured configs =
    (e : Bytes) → ((configs e).envoy_id ≡ e) × All (λ p. p.id ≢ e) (configs e).peers

module _ (configs : Bytes → DaemonConfig) where
  -- The path of the route is a walk to its target that visits no Envoy twice, and its distance is the
  -- length of the walk.
  abbrev pub IsReal : Bytes → Route → Type 0
  IsReal e r =
      Walk configs e r.target_cluster r.as_path
      × (r.distance ≡ pos (length r.as_path))
      × NoRepeats (e ∷ r.as_path)

  abbrev AllReal : Bytes → Table → Type 0
  AllReal e t =
      (k : Bytes) (r : Route) → Memᴰ (k, r) t.routes → (r.target_cluster ≡ k) × (IsReal e r)

  abbrev Served : Bytes → Advertisement → Type 0
  Served id adv = All (IsReal id) adv.routes

  -- The node of `e` has its configuration, and all it has published or keeps of its peers is real.
  record NodeInv (e : Bytes) (n : Node) : Type 0 where
    pub fixed : n.daemon.cfg ≡ configs e
    pub current : AllReal e n.daemon.table
    pub tables : All (AllReal e) n.published
    pub caches : CacheHolds Served n.daemon.last_peer

  abbrev Inv : Network → Type 0
  Inv n = (e : Bytes) → NodeInv e (n e)

  candidate-IsReal :
      (e : Bytes) (p : PeerSpec) (r : Route)
      → Memᴰ p (configs e).peers
      → p.id ≢ e
      → ¬ Memᴰ e r.as_path
      → IsReal p.id r
      → IsReal e (candidate p r)
  unfolding candidate ◌+ℤ◌
  candidate-IsReal e p r m other out (w, d, simple) =
      (hop p m w refl, rw d (ground arith), (outside, simple))
    where
      outside : ¬ Memᴰ e (p.id ∷ r.as_path)
      outside (Memᴰ.head h) = other (sym h)
      outside (Memᴰ.tail h) = out h

  local-IsReal : (e t : Bytes) → Memᴰ t (configs e).terminals → IsReal e (local_route t)
  unfolding local_route
  local-IsReal e t m = (arrive m, refl, ((λ h. elim h [ ]), tt))

  -- A daemon that hears only real routes publishes only real routes.
  tick-IsReal :
      (e : Bytes) (d : Daemon) (now : ℕ) (fetch : PeerSpec → Fetched)
      → WellConfigured configs
      → d.cfg ≡ configs e
      → ((p : PeerSpec) (adv : Advertisement) → fetch p ≡ ok adv → Served p.id adv)
      → CacheHolds Served d.last_peer
      → AllReal e (tick d now fetch).table × CacheHolds Served (tick d now fetch).last_peer
  unfolding tick
  tick-IsReal e d now fetch good same heard cache = (
    λ k r m. (
      compute-target d.cfg.envoy_id (build_locals d.cfg) advs k r
          (lookup_of_mem k r _ (compute-IsMap _ _ advs) m),
      elim (compute_sound d.cfg.envoy_id (build_locals d.cfg) advs k r
          (lookup_of_mem k r _ (compute-IsMap _ _ advs) m)) [
            | inl (c, at, role, is) ↦ subst (IsReal e) (sym is) (
                local-IsReal e k
                  (subst (λ x. Memᴰ k x.terminals) same (build_locals_source d.cfg k c at role)))
            | inr (o, is) ↦
                let a = o.accepted in
                let (from, served) = All-mem _ advs held.0 o.received in
                subst (IsReal e) (sym a.made) (
                  candidate-IsReal e o.source.peer a.route (mine o.source.peer from)
                    (All-mem _ (configs e).peers (good e).1 (mine o.source.peer from))
                    (subst (λ x. ¬ Memᴰ x a.route.as_path)
                      (ap (λ (x : DaemonConfig). x.envoy_id) same ∙ (good e).0) a.no_loop)
                    (All-mem _ o.source.adv.routes served (mem_of_first a.first)))
          ],
    ),
    held.1,
  )
    where
      mine : (p : PeerSpec) → Memᴰ p d.cfg.peers → Memᴰ p (configs e).peers
      mine p m = subst (λ x. Memᴰ p x.peers) same m

      advs : List PeerAdvertisement
      advs = (collect_peers d.cfg.stale_after now fetch d.cfg.peers d.last_peer).0

      held :
          All (λ pa. Memᴰ pa.peer d.cfg.peers × Served pa.peer.id pa.adv) advs
          × CacheHolds Served (collect_peers d.cfg.stale_after now fetch d.cfg.peers d.last_peer).1
      held =
          collect_peers-holds d.cfg.stale_after now Served fetch d.cfg.peers d.last_peer heard cache

  -- An answer that is served from real routes has only real routes.
  handle-Served :
      (id e : Bytes) (t : Table) (adv : Advertisement)
      → AllReal id t
      → handle id t (text "GET") e ≡ advertise adv
      → Served id adv
  unfolding handle
  handle-Served id e t adv real h = All-tabulate (IsReal id) adv.routes λ r m.
      let (k, at, _) = (advertise_to-mem t e r).0 (subst (λ x. Memᴰ r x.routes) (sym same) m) in
      (real k r at).1
    where
      same : record { envoy_id = id; routes = advertise_to t e } ≡ adv
      same = ground arith

  publish-NodeInv :
      (e : Bytes) (n : Node) (now : ℕ) (fetch : PeerSpec → Fetched)
      → WellConfigured configs
      → NodeInv e n
      → ((p : PeerSpec) (adv : Advertisement) → fetch p ≡ ok adv → Served p.id adv)
      → NodeInv e (publish n (tick n.daemon now fetch))
  unfolding publish
  publish-NodeInv e n now fetch good v heard =
      let (real, kept) = tick-IsReal e n.daemon now fetch good v.fixed heard v.caches in
      record {
        fixed = unfold tick in v.fixed;
        current = real;
        tables = (real, v.tables);
        caches = kept;
      }

  Step-Inv : {n m : Network} → WellConfigured configs → Inv n → Step n m → Inv m
  Step-Inv {n} {m} good v (ticks e now fetch served at rest) = λ o. elim (Bool-cases (o == e)) [
    | inl same ↦
        subst (λ x. NodeInv x (m x)) (sym ((eq_iff o e).0 same))
          (subst (NodeInv e) (sym at) (
            publish-NodeInv e (n e) now fetch good (v e) λ p adv h.
              let (t, from, answer) = served p adv h in
              handle-Served p.id e t adv
                (All-mem (AllReal p.id) (n p.id).published (v p.id).tables from) answer))
    | inr other ↦ subst (NodeInv o) (sym (rest o (λ k. cc (other, (eq_iff o e).1 k)))) (v o)
  ]

  start-Inv : Inv (start configs)
  unfolding start
  start-Inv e = record {
    fixed = refl;
    current = λ k r m. elim m [ ];
    tables = (λ k r m. elim m [ ], tt);
    caches = λ id entry h. unfold lookup in (cc);
  }

  Reach-Inv : {n : Network} → WellConfigured configs → Reach (start configs) n → Inv n
  Reach-Inv good here = start-Inv
  Reach-Inv good (next r s) = Step-Inv good (Reach-Inv good r) s

-- Whatever the daemons of a mesh have done since they started, in whatever order, the path of every
-- route in a table is a walk over configured peers from the table's Envoy to one that has the target as
-- a terminal; the walk visits no Envoy twice, and the route's distance is its length.
pub Reach-IsReal :
    (configs : Bytes → DaemonConfig) (n : Network) (e t : Bytes) (r : Route)
    → WellConfigured configs
    → Reach (start configs) n
    → lookup_route (n e).daemon.table t ≡ some r
    → Walk configs e t r.as_path × (r.distance ≡ pos (length r.as_path)) × NoRepeats (e ∷ r.as_path)
unfolding lookup_route
Reach-IsReal configs n e t r good reach h =
    let (at, (walk, distance, simple)) =
      (Reach-Inv configs good reach e).current t r
        (mem_of_lookup t r (n e).daemon.table.routes h) in
    (subst (λ x. Walk configs e x r.as_path) at walk, distance, simple)
