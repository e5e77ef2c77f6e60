-- ===== src/ClusterRouter/Tests/Meshes.antt =====
-- A mesh of two Envoys (cluster-router/graph), and the theorems on ticks, validation and the filter.
use built_on_envoy.Prelude.{
  sym, ap, subst, ◌∙◌, Bytes, text, bytes_eq, bytes_beq, eq_iff, ◌==◌, Bool-cases, false, some, [],
  ◌∷◌, Memᴰ, ◌≡◌, ◌≢◌, inl, inr, refl, arith, if◌then◌else◌, length,
}
use built_on_envoy.Prelude.Int.{pos}
use built_on_envoy.Prelude.Assoc.{GoMap, lookup, insert}
use built_on_envoy.Prelude.Sort.{sort_slice}
use built_on_envoy.ClusterRouter.Graph.{
  PeerSpec, Route, Advertisement, Table, is_terminal, lookup_route, new_table,
}
use built_on_envoy.ClusterRouter.BestPath.{
  local_route, candidate, compute, advertise_to, valid_advertised_route, has_in_path, scan_peers,
  scan_peer, scan_routes, scan_route, add_locals, offer, withhold,
}
use built_on_envoy.ClusterRouter.Peer.{Fetched, ok, err, peer_request, advertise, handle}
use built_on_envoy.ClusterRouter.Daemon.{
  DaemonConfig, PeerCacheEntry, tick, new_daemon, build_locals, peer_locals, terminal_locals,
  collect_peers, collect_peer, append_used, cached, is_fresh,
}
use built_on_envoy.ClusterRouter.Daemon.Collect.{contributions, collect_peers-contributions}
use built_on_envoy.ClusterRouter.Daemon.Ticks.{tick-local}
use built_on_envoy.ClusterRouter.Mesh.{Network, start, publish, Step, ticks, here, next, Walk}
use built_on_envoy.ClusterRouter.Mesh.Paths.{WellConfigured, NoRepeats, Reach-IsReal}

abbrev svc : Bytes
svc = text "svc"

abbrev a_id : Bytes
a_id = text "a"

abbrev b_id : Bytes
b_id = text "b"

abbrev peer_b : PeerSpec
peer_b = record { id = b_id; endpoint = text "http://b:1"; local_cluster = text "to_b" }

abbrev configs : Bytes → DaemonConfig
configs e = record {
  envoy_id = e;
  advertise_listen = text ":1";
  peers = if e == b_id then [] else peer_b ∷ [];
  terminals = if e == b_id then svc ∷ [] else [];
  poll_interval = pos 10;
  stale_after = pos 60;
}

configs-WellConfigured : WellConfigured configs
configs-WellConfigured e = elim (Bool-cases (e == b_id)) [
  | inl h ↦ (refl, rw h tt)
  | inr h ↦ (refl, rw h ((λ k. cc (h, (eq_iff e b_id).1 (sym k))), tt))
]

abbrev silent : PeerSpec → Fetched
silent p = err peer_request

-- `b` ticks and publishes its terminal.
b_ticked : Network
unfolding start
b_ticked o =
    if o == b_id
    then publish (start configs b_id) (tick (start configs b_id).daemon 0 silent)
    else start configs o

abbrev answer : Advertisement
answer = record { envoy_id = b_id; routes = local_route svc ∷ [] }

abbrev hears_b : PeerSpec → Fetched
hears_b p = if p.id == b_id then ok answer else err peer_request

-- Then `a` ticks and hears of it.
a_ticked : Network
a_ticked o =
    if o == a_id
    then publish (b_ticked a_id) (tick (b_ticked a_id).daemon 5 hears_b)
    else b_ticked o

ne_test : (o e : Bytes) → o ≢ e → (o == e) ≡ false
ne_test o e h = elim (Bool-cases (o == e)) [ inl k ↦ absurd (h ((eq_iff o e).0 k)) | inr k ↦ k ]

b_moves : Step (start configs) b_ticked
unfolding b_ticked bytes_beq
b_moves = ticks b_id 0 silent (λ p adv h. cc) refl (λ o h. rw (ne_test o b_id h))

b_routes : (b_ticked b_id).daemon.table.routes ≡ (svc, local_route svc) ∷ []
unfolding b_ticked start publish new_daemon tick build_locals peer_locals terminal_locals
    collect_peers compute scan_peers add_locals insert is_terminal sort_slice bytes_beq
b_routes = refl

b_answers : handle b_id (b_ticked b_id).daemon.table (text "GET") a_id ≡ advertise answer
unfolding handle advertise_to withhold sort_slice has_in_path local_route b_ticked bytes_beq start
    publish new_daemon tick build_locals peer_locals terminal_locals collect_peers compute
    scan_peers add_locals insert is_terminal
b_answers = refl

b_published : Memᴰ (b_ticked b_id).daemon.table (b_ticked b_id).published
unfolding b_ticked bytes_beq publish
b_published = Memᴰ.head refl

b_serves :
    (p : PeerSpec) (adv : Advertisement)
    → hears_b p ≡ ok adv
    → (t : Table) × Memᴰ t (b_ticked p.id).published
      × (handle p.id t (text "GET") a_id ≡ advertise adv)
b_serves p adv h = elim (Bool-cases (p.id == b_id)) [
  | inr k ↦ cc (rw k at h)
  | inl k ↦
      let same : answer ≡ adv = ground arith in
      subst
        (λ x.
          (t : Table) × Memᴰ t (b_ticked x).published
          × (handle x t (text "GET") a_id ≡ advertise adv))
        (sym ((eq_iff p.id b_id).0 k))
        ((b_ticked b_id).daemon.table, b_published, b_answers ∙ ap advertise same)
]

a_moves : Step b_ticked a_ticked
unfolding a_ticked bytes_beq
a_moves = ticks a_id 5 hears_b b_serves refl (λ o h. rw (ne_test o a_id h))

svc_route : Route
unfolding local_route
svc_route = candidate peer_b (local_route svc)

a_routes : lookup_route (a_ticked a_id).daemon.table svc ≡ some svc_route
unfolding svc_route a_ticked b_ticked start publish new_daemon tick build_locals peer_locals
    terminal_locals collect_peers collect_peer append_used compute scan_peers scan_peer scan_routes
    scan_route valid_advertised_route has_in_path candidate add_locals offer lookup lookup_route
    insert is_terminal sort_slice bytes_beq new_table local_route
a_routes = refl

Reach-IsReal_example :
    Walk configs a_id svc svc_route.as_path
    × (svc_route.distance ≡ pos (length svc_route.as_path))
    × NoRepeats (a_id ∷ svc_route.as_path)
Reach-IsReal_example =
    Reach-IsReal configs a_ticked a_id svc svc_route configs-WellConfigured
      (next (next here b_moves) a_moves) a_routes

tick-local_example :
    lookup_route (tick (start configs b_id).daemon 7 silent).table svc ≡ some (local_route svc)
unfolding start new_daemon bytes_beq
tick-local_example = tick-local (start configs b_id).daemon 7 silent svc (Memᴰ.head refl)

abbrev cache : GoMap PeerCacheEntry
cache = (b_id, record { adv = answer; received = 3 }) ∷ []

collect_peers-contributions_example :
    (collect_peers (pos 60) 9 silent (peer_b ∷ []) cache).0
    ≡ contributions (pos 60) 9 silent cache (peer_b ∷ [])
collect_peers-contributions_example =
    collect_peers-contributions (pos 60) 9 silent (peer_b ∷ []) cache (tt, tt)

-- A silent peer's routes last for `stale_after`, to the nanosecond.
cached_run :
    ((collect_peers (pos 60) 63 silent (peer_b ∷ []) cache).0
      ≡ record { peer = peer_b; adv = answer } ∷ [])
    × ((collect_peers (pos 60) 64 silent (peer_b ∷ []) cache).0 ≡ [])
unfolding collect_peers collect_peer append_used cached is_fresh lookup bytes_beq
cached_run = (refl, refl)
