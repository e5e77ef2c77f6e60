-- ===== src/ClusterRouter/Config.antt =====
-- `Config.validate` of cluster-router/cluster_router.go. `time.ParseDuration` and the test that a URL
-- parses with a scheme and a host are parameters; the JSON decoding before it is not modelled. The
-- messages of the errors are the constructors of `ConfigError`, with the index that they name.
pub mod Valid
pub mod Accepts
use built_on_envoy.Prelude.{
  ℕ, ◌+◌, Bytes, text, bytes_eq, ◌==◌, Bool, true, false, not, ◌&&◌, ◌||◌, Option, none, some, List,
  [], ◌∷◌, ◌++◌, if◌then◌else◌,
}
use built_on_envoy.Prelude.Int.{ℤ, pos, ltb_ℤ}
use built_on_envoy.ClusterRouter.Graph.{PeerSpec}
use built_on_envoy.ClusterRouter.BestPath.{has_in_path}

pub record Config : Type 0 where
  pub envoy_id : Bytes
  pub advertise_listen : Bytes
  pub target_cluster_source : Bytes
  pub target_cluster_header : Bytes
  pub next_hop_header : Bytes
  pub peers : List PeerSpec
  pub terminals : List Bytes
  pub poll_interval : Bytes
  pub stale_after : Bytes
  pub metadata_namespace : Bytes
  pub poll_interval_ns : ℤ
  pub stale_after_ns : ℤ

pub data ConfigError : Type 0 where
  envoy_id_required advertise_listen_required target_cluster_source_unknown : ConfigError
  poll_interval_unparsed poll_interval_too_short stale_after_unparsed : ConfigError
  stale_after_too_short : ℤ → ℤ → ConfigError
  peer_fields_required peer_endpoint_not_absolute peer_id_is_envoy_id peer_id_duplicate :
      ℕ → ConfigError
  terminal_name_required terminal_name_duplicate terminal_is_peer_cluster : ℕ → ConfigError

abbrev pub target_source_header : Bytes
target_source_header = text "header"

abbrev pub default_metadata_namespace : Bytes
default_metadata_namespace = text "io.builtonenvoy.cluster_router"

-- 100 * time.Millisecond
abbrev pub min_poll_interval : ℤ
min_poll_interval = pos 100_000_000

unfoldable pub or_default : Bytes → Bytes → Bytes
or_default s d = if s == [] then d else s

unfoldable pub with_defaults : Config → Config
unfolding or_default
with_defaults c = record c {
  target_cluster_source = or_default c.target_cluster_source target_source_header;
  target_cluster_header = or_default c.target_cluster_header (text "x-target-cluster");
  next_hop_header = or_default c.next_hop_header (text "x-next-hop");
  poll_interval = or_default c.poll_interval (text "10s");
  stale_after = or_default c.stale_after (text "60s");
  metadata_namespace = or_default c.metadata_namespace default_metadata_namespace;
}

-- if b { errs = append(errs, e) }
unfoldable pub error_if : Bool → ConfigError → List ConfigError
error_if b e = if b then e ∷ [] else []

unfoldable pub identity_errors : Config → List ConfigError
unfolding error_if
identity_errors c =
    error_if (c.envoy_id == []) envoy_id_required
    ++ (error_if (c.advertise_listen == []) advertise_listen_required
        ++ error_if (not (c.target_cluster_source == target_source_header))
            target_cluster_source_unknown)

-- The errors of a duration, and the field that it sets: 0 where it stays unset.
unfoldable pub check_poll_interval : Option ℤ → List ConfigError × ℤ
check_poll_interval none = (poll_interval_unparsed ∷ [], pos 0)
check_poll_interval (some d) =
    if ltb_ℤ d min_poll_interval then (poll_interval_too_short ∷ [], pos 0) else ([], d)

unfoldable pub check_stale_after : Option ℤ → List ConfigError × ℤ
check_stale_after none = (stale_after_unparsed ∷ [], pos 0)
check_stale_after (some d) = ([], d)

unfoldable pub stale_errors : ℤ → ℤ → List ConfigError
unfolding error_if
stale_errors poll stale =
    error_if (ltb_ℤ (pos 0) poll && (ltb_ℤ (pos 0) stale && ltb_ℤ stale poll))
      (stale_after_too_short stale poll)

module _ (is_absolute_url : Bytes → Bool) (envoy_id : Bytes) where
  unfoldable pub peer_errors : ℕ → PeerSpec → List Bytes → List ConfigError
  unfolding error_if
  peer_errors i p seen =
      error_if (p.id == [] || (p.endpoint == [] || p.local_cluster == [])) (peer_fields_required i)
      ++ (error_if (not (p.endpoint == []) && not (is_absolute_url p.endpoint))
            (peer_endpoint_not_absolute i)
          ++ (error_if (p.id == envoy_id) (peer_id_is_envoy_id i)
              ++ error_if (has_in_path seen p.id) (peer_id_duplicate i)))

  -- for i, p := range c.Peers; `seen` holds the ids so far
  unfoldable pub peers_errors : ℕ → List PeerSpec → List Bytes → List ConfigError
  peers_errors i [] seen = []
  peers_errors i (p ∷ peers) seen = peer_errors i p seen ++ peers_errors (i + 1) peers (p.id ∷ seen)

-- The keys of the set `peerLocals`.
unfoldable pub peer_clusters : List PeerSpec → List Bytes
peer_clusters [] = []
peer_clusters (p ∷ peers) = p.local_cluster ∷ peer_clusters peers

unfoldable pub terminal_errors : List Bytes → ℕ → Bytes → List Bytes → List ConfigError
unfolding error_if
terminal_errors peer_locals i name seen =
    error_if (name == []) (terminal_name_required i)
    ++ (error_if (has_in_path seen name) (terminal_name_duplicate i)
        ++ error_if (has_in_path peer_locals name) (terminal_is_peer_cluster i))

-- for i, name := range c.Terminals
unfoldable pub terminals_errors : List Bytes → ℕ → List Bytes → List Bytes → List ConfigError
terminals_errors peer_locals i [] seen = []
terminals_errors peer_locals i (name ∷ terminals) seen =
    terminal_errors peer_locals i name seen
    ++ terminals_errors peer_locals (i + 1) terminals (name ∷ seen)

module _ (parse_duration : Bytes → Option ℤ) (is_absolute_url : Bytes → Bool) where
  -- The configuration as `validate` leaves it, and the errors that it joins.
  unfoldable pub validate : Config → Config × List ConfigError
  validate raw =
      let c = with_defaults raw in
      let (poll_errors, poll) = check_poll_interval (parse_duration c.poll_interval) in
      let (stale_after_errors, stale) = check_stale_after (parse_duration c.stale_after) in
      (
        record c { poll_interval_ns = poll; stale_after_ns = stale },
        identity_errors c
            ++ (poll_errors
                ++ (stale_after_errors
                    ++ (stale_errors poll stale
                        ++ (peers_errors is_absolute_url c.envoy_id 0 c.peers []
                            ++ terminals_errors (peer_clusters c.peers) 0 c.terminals [])))),
      )
