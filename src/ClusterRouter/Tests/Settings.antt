-- ===== src/ClusterRouter/Tests/Settings.antt =====
-- The theorems on the validation and the filter of cluster-router at concrete inputs.
use built_on_envoy.Prelude.{
  Bytes, text, bytes_eq, bytes_beq, ◌==◌, Bool, true, Option, none, some, [], ◌∷◌, ◌≡◌, ◌⊎◌, ◌≢◌,
  ◌↔◌, refl, if◌then◌else◌, eq_iff,
}
use built_on_envoy.Prelude.Int.{ℤ, pos, negsuc}
use built_on_envoy.ClusterRouter.Graph.{lookup_route}
use built_on_envoy.ClusterRouter.BestPath.{has_in_path}
use built_on_envoy.ClusterRouter.Config.{
  Config, peer_id_duplicate, peer_id_is_envoy_id, terminal_is_peer_cluster, with_defaults, validate,
  identity_errors, check_poll_interval, check_stale_after, stale_errors, peers_errors, peer_errors,
  terminals_errors, terminal_errors, peer_clusters, error_if,
}
use built_on_envoy.ClusterRouter.Config.Accepts.{IsValid, IsStaleAtOnce, validate_iff}
use built_on_envoy.ClusterRouter.Filter.{
  HeaderMap, stop, on_request_headers, target_of, next_hop_of, on_request_headers_next_hop,
}
use built_on_envoy.ClusterRouter.Tests.Tables.{peer_b, peer_c, table}

-- A parser that knows the durations of the sample.
abbrev parse_duration : Bytes → Option ℤ
parse_duration s =
    if s == text "10s"
    then some (pos 10_000_000_000)
    else if s == text "60s"
    then some (pos 60_000_000_000)
    else if s == text "-1s"
    then some (negsuc 999_999_999)
    else none

abbrev any_url : Bytes → Bool
any_url s = true

abbrev config : Config
config = record {
  envoy_id = text "a";
  advertise_listen = text ":1";
  target_cluster_source = [];
  target_cluster_header = [];
  next_hop_header = [];
  peers = peer_b ∷ peer_c ∷ [];
  terminals = text "own" ∷ [];
  poll_interval = [];
  stale_after = [];
  metadata_namespace = [];
  poll_interval_ns = pos 0;
  stale_after_ns = pos 0;
}

validate_iff_example : ((validate parse_duration any_url config).1 ≡ []) ↔ (
    IsValid parse_duration any_url (with_defaults config)
    ⊎ IsStaleAtOnce parse_duration any_url (with_defaults config))
validate_iff_example = validate_iff parse_duration any_url config

accepted : (validate parse_duration any_url config).1 ≡ []
unfolding validate with_defaults identity_errors check_poll_interval check_stale_after stale_errors
    peers_errors peer_errors terminals_errors terminal_errors peer_clusters error_if has_in_path
    bytes_beq
accepted = refl

-- A negative staleness passes, although it is shorter than the poll interval.
negative_staleness :
    (validate parse_duration any_url (record config { stale_after = text "-1s" })).1 ≡ []
unfolding validate with_defaults identity_errors check_poll_interval check_stale_after stale_errors
    peers_errors peer_errors terminals_errors terminal_errors peer_clusters error_if has_in_path
    bytes_beq
negative_staleness = refl

three_mistakes :
    (validate parse_duration any_url (record config {
      envoy_id = text "b";
      peers = peer_b ∷ peer_b ∷ [];
      terminals = text "to_b" ∷ [];
    })).1
    ≡ peer_id_is_envoy_id 0
      ∷ peer_id_is_envoy_id 1
      ∷ peer_id_duplicate 1
      ∷ terminal_is_peer_cluster 0
      ∷ []
unfolding validate with_defaults identity_errors check_poll_interval check_stale_after stale_errors
    peers_errors peer_errors terminals_errors terminal_errors peer_clusters error_if has_in_path
    bytes_beq
three_mistakes = refl

get_set : (k v : Bytes) (h : Bytes → Bytes) → (if k == k then v else h k) ≡ v
get_set k v h = rw ((eq_iff k k).1 refl)

-- Headers as a function, empty where a header is not there.
abbrev header_function : HeaderMap
header_function = record {
  Headers = Bytes → Bytes;
  get_one = λ k h. h k;
  set = λ k v h j. if k == j then v else h j;
  remove = λ k h j. if k == j then [] else h j;
  get_one-set = get_set;
  get_one-remove = λ k h. get_set k [] h;
}

abbrev request : Bytes → Bytes
request k = if k == text "x-target-cluster" then text "svc" else text "forged"

abbrev settings : Config
settings = record config {
  target_cluster_source = text "header";
  target_cluster_header = text "x-target-cluster";
  next_hop_header = text "x-next-hop";
}

on_request_headers_next_hop_example :
    (h' : Bytes → Bytes) × ((on_request_headers header_function settings table
        (some request)).headers
      ≡ some h')
    × (h' (text "x-next-hop")
        ≡ next_hop_of header_function table (target_of header_function settings request))
    × (((on_request_headers header_function settings table (some request)).status ≡ stop) ↔ (
        (target_of header_function settings request ≢ [])
        × (lookup_route table (target_of header_function settings request) ≡ none)))
on_request_headers_next_hop_example =
    on_request_headers_next_hop header_function settings table request
