-- ===== src/ClusterRouter/Config/Accepts.antt =====
-- When `Config.validate` (cluster-router/cluster_router.go) accepts a configuration.
use built_on_envoy.Prelude.{
  eq_iff, Bytes, bytes_eq, Bool, Option, none, some, [], All, ◌≡◌, ◌≢◌, ◌↔◌, ◌⊎◌, inl, inr, refl,
  arith, ne_of_test, test_of_ne, append_eq_nil,
}
use built_on_envoy.Prelude.Int.{ℤ, pos, ◌≤ℤ◌}
use built_on_envoy.ClusterRouter.Config.{
  Config, with_defaults, target_source_header, min_poll_interval, error_if, identity_errors,
  check_poll_interval, check_stale_after, stale_errors, peers_errors, peer_clusters, validate,
}
use built_on_envoy.ClusterRouter.Config.Valid.{
  FreshAfter, ids, append_nil_complete, IsValidPeer, peers_errors_sound, peers_errors_complete,
  IsValidTerminal, terminals_errors_sound, terminals_errors_complete, ValidDurations, StaleAtOnce,
}

identity_errors_sound :
    (c : Config)
    → identity_errors c ≡ []
    → (c.envoy_id ≢ [])
      × (c.advertise_listen ≢ [])
      × (c.target_cluster_source ≡ target_source_header)
unfolding identity_errors error_if
identity_errors_sound c h = (
  ne_of_test c.envoy_id [] (ground arith),
  ne_of_test c.advertise_listen [] (ground arith),
  (eq_iff c.target_cluster_source target_source_header).0 (ground arith),
)

identity_errors_complete :
    (c : Config)
    → c.envoy_id ≢ []
    → c.advertise_listen ≢ []
    → c.target_cluster_source ≡ target_source_header
    → identity_errors c ≡ []
unfolding identity_errors error_if
identity_errors_complete c h k e = ground (
  arith,
  test_of_ne c.envoy_id [] h,
  test_of_ne c.advertise_listen [] k,
  (eq_iff c.target_cluster_source target_source_header).1 e,
)

poll_sound :
    (o : Option ℤ)
    → (check_poll_interval o).0 ≡ []
    → (d : ℤ) × (o ≡ some d) × (min_poll_interval ≤ℤ d) × ((check_poll_interval o).1 ≡ d)
unfolding check_poll_interval
poll_sound none h = cc
poll_sound (some d) h = (d, refl, ground arith, ground arith)

poll_complete : (d : ℤ) → min_poll_interval ≤ℤ d → check_poll_interval (some d) ≡ ([], d)
unfolding check_poll_interval
poll_complete d h = ground arith

stale_sound :
    (o : Option ℤ)
    → (check_stale_after o).0 ≡ []
    → (d : ℤ) × (o ≡ some d) × ((check_stale_after o).1 ≡ d)
unfolding check_stale_after
stale_sound none h = cc
stale_sound (some d) h = (d, refl, refl)

stale_errors_sound :
    (poll stale : ℤ)
    → min_poll_interval ≤ℤ poll
    → stale_errors poll stale ≡ []
    → (stale ≤ℤ pos 0) ⊎ (poll ≤ℤ stale)
unfolding stale_errors error_if
stale_errors_sound poll stale m h = ground arith

stale_errors_complete :
    (poll stale : ℤ) → (stale ≤ℤ pos 0) ⊎ (poll ≤ℤ stale) → stale_errors poll stale ≡ []
unfolding stale_errors error_if
stale_errors_complete poll stale h = ground arith

module _ (parse_duration : Bytes → Option ℤ) (is_absolute_url : Bytes → Bool) where
  -- What a configuration must be like but for its durations, its defaults filled in.
  pub record IsComplete (c : Config) : Type 0 where
    pub envoy_id_given : c.envoy_id ≢ []
    pub listen_given : c.advertise_listen ≢ []
    pub source_known : c.target_cluster_source ≡ target_source_header
    pub peers_valid : All (IsValidPeer is_absolute_url c.envoy_id) c.peers
    pub peer_ids_distinct : FreshAfter [] (ids c.peers)
    pub terminals_valid : All (IsValidTerminal (peer_clusters c.peers)) c.terminals
    pub terminals_distinct : FreshAfter [] c.terminals

  -- What the schema asks for: all that, and durations of which the staleness is at least the poll interval.
  abbrev pub IsValid : Config → Type 0
  IsValid c = IsComplete c × ValidDurations parse_duration c.poll_interval c.stale_after

  -- What slips through: all that, but a staleness that is zero or negative.
  abbrev pub IsStaleAtOnce : Config → Type 0
  IsStaleAtOnce c = IsComplete c × StaleAtOnce parse_duration c.poll_interval c.stale_after

  by_order :
      (c : Config) (poll stale : ℤ)
      → IsComplete c
      → parse_duration c.poll_interval ≡ some poll
      → parse_duration c.stale_after ≡ some stale
      → min_poll_interval ≤ℤ poll
      → (stale ≤ℤ pos 0) ⊎ (poll ≤ℤ stale)
      → IsValid c ⊎ IsStaleAtOnce c
  by_order c poll stale v pe se pm (inl gone) = inr (v, (poll, stale, pe, se, pm, gone))
  by_order c poll stale v pe se pm (inr order) = inl (v, (poll, stale, pe, se, pm, order))

  validate_sound :
      (raw : Config)
      → (validate parse_duration is_absolute_url raw).1 ≡ []
      → IsValid (with_defaults raw) ⊎ IsStaleAtOnce (with_defaults raw)
  unfolding validate
  validate_sound raw h =
      let c = with_defaults raw in
      let (identity, h1) = append_eq_nil (identity_errors c) _ h in
      let (polled, h2) =
        append_eq_nil (check_poll_interval (parse_duration c.poll_interval)).0 _ h1 in
      let (staled, h3) = append_eq_nil (check_stale_after (parse_duration c.stale_after)).0 _ h2 in
      let (compared, h4) = append_eq_nil (stale_errors _ _) _ h3 in
      let (peered, termed) =
        append_eq_nil (peers_errors is_absolute_url c.envoy_id 0 c.peers []) _ h4 in
      let (g1, g2, g3) = identity_errors_sound c identity in
      let (poll, pe, pm, pv) = poll_sound (parse_duration c.poll_interval) polled in
      let (stale, se, sv) = stale_sound (parse_duration c.stale_after) staled in
      let (pv1, pv2) = peers_errors_sound is_absolute_url c.envoy_id 0 c.peers [] peered in
      let (tv1, tv2) = terminals_errors_sound (peer_clusters c.peers) 0 c.terminals [] termed in
      let complete : IsComplete c = record {
        envoy_id_given = g1;
        listen_given = g2;
        source_known = g3;
        peers_valid = pv1;
        peer_ids_distinct = pv2;
        terminals_valid = tv1;
        terminals_distinct = tv2;
      } in
      by_order c poll stale complete pe se pm
        (stale_errors_sound poll stale pm (rw (pv, sv) at compared))

  complete_by :
      (raw : Config) (poll stale : ℤ)
      → IsComplete (with_defaults raw)
      → parse_duration (with_defaults raw).poll_interval ≡ some poll
      → parse_duration (with_defaults raw).stale_after ≡ some stale
      → min_poll_interval ≤ℤ poll
      → (stale ≤ℤ pos 0) ⊎ (poll ≤ℤ stale)
      → (validate parse_duration is_absolute_url raw).1 ≡ []
  unfolding validate check_stale_after
  complete_by raw poll stale v pe se pm order =
      let c = with_defaults raw in
      append_nil_complete (identity_errors c) _
        (identity_errors_complete c v.envoy_id_given v.listen_given v.source_known)
        (rw (pe, poll_complete poll pm, se)
          (append_nil_complete (stale_errors poll stale) _ (stale_errors_complete poll stale order)
            (append_nil_complete (peers_errors is_absolute_url c.envoy_id 0 c.peers []) _
              (peers_errors_complete is_absolute_url c.envoy_id 0 c.peers [] v.peers_valid
                v.peer_ids_distinct)
              (terminals_errors_complete (peer_clusters c.peers) 0 c.terminals [] v.terminals_valid
                v.terminals_distinct))))

  validate_complete :
      (raw : Config)
      → IsValid (with_defaults raw) ⊎ IsStaleAtOnce (with_defaults raw)
      → (validate parse_duration is_absolute_url raw).1 ≡ []
  validate_complete raw (inl (v, (poll, stale, pe, se, pm, order))) =
      complete_by raw poll stale v pe se pm (inr order)
  validate_complete raw (inr (v, (poll, stale, pe, se, pm, gone))) =
      complete_by raw poll stale v pe se pm (inl gone)

  -- Validation reports no error exactly if the configuration, its defaults filled in, is valid, which includes
  -- that stale_after is at least poll_interval, or would be but for a stale_after that is zero or negative.
  pub validate_iff :
      (raw : Config)
      → ((validate parse_duration is_absolute_url raw).1 ≡ [])
        ↔ (IsValid (with_defaults raw) ⊎ IsStaleAtOnce (with_defaults raw))
  validate_iff raw = (validate_sound raw, validate_complete raw)
