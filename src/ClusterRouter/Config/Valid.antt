-- ===== src/ClusterRouter/Config/Valid.antt =====
-- What the fields of a configuration must be like for `Config.validate` (cluster-router/cluster_router.go),
-- said without its loops.
use built_on_envoy.Prelude.{
  ℕ, ◌+◌, Bytes, bytes_eq, Bool, true, false, Option, some, List, [], ◌∷◌, ◌++◌, Memᴰ, All, ◌≡◌,
  ◌≢◌, refl, arith, ne_of_test, test_of_ne, append_eq_nil,
}
use built_on_envoy.Prelude.Int.{ℤ, pos, ◌≤ℤ◌}
use built_on_envoy.ClusterRouter.Graph.{PeerSpec}
use built_on_envoy.ClusterRouter.BestPath.Offers.{not-mem_of_has_in_path, has_in_path_of_not-mem}
use built_on_envoy.ClusterRouter.Config.{
  ConfigError, min_poll_interval, error_if, peer_errors, peers_errors, terminal_errors,
  terminals_errors,
}

-- Each name is in none of the names before it.
abbrev pub FreshAfter : List Bytes → List Bytes → Type 0
FreshAfter seen [] = Unit
FreshAfter seen (x ∷ xs) = (¬ Memᴰ x seen) × FreshAfter (x ∷ seen) xs

abbrev pub ids : List PeerSpec → List Bytes
ids [] = []
ids (p ∷ peers) = p.id ∷ ids peers

pub append_nil_complete : (xs ys : List ConfigError) → xs ≡ [] → ys ≡ [] → xs ++ ys ≡ []
append_nil_complete xs ys h k = rw (h, k)

pub error_if_sound : (b : Bool) (e : ConfigError) → error_if b e ≡ [] → b ≡ false
unfolding error_if
error_if_sound true e h = cc
error_if_sound false e h = refl

pub error_if_complete : (b : Bool) (e : ConfigError) → b ≡ false → error_if b e ≡ []
unfolding error_if
error_if_complete b e h = rw h

module _ (is_absolute_url : Bytes → Bool) (envoy_id : Bytes) where
  -- A peer with all its fields, an absolute endpoint, and an id that is not this Envoy's.
  pub record IsValidPeer (p : PeerSpec) : Type 0 where
    pub id_given : p.id ≢ []
    pub endpoint_given : p.endpoint ≢ []
    pub local_cluster_given : p.local_cluster ≢ []
    pub absolute : is_absolute_url p.endpoint ≡ true
    pub other : p.id ≢ envoy_id

  peer_errors_sound :
      (i : ℕ) (p : PeerSpec) (seen : List Bytes)
      → peer_errors is_absolute_url envoy_id i p seen ≡ []
      → IsValidPeer p × (¬ Memᴰ p.id seen)
  unfolding peer_errors error_if
  peer_errors_sound i p seen h = (
    record {
      id_given = ne_of_test p.id [] (ground arith);
      endpoint_given = ne_of_test p.endpoint [] (ground arith);
      local_cluster_given = ne_of_test p.local_cluster [] (ground arith);
      absolute = ground arith;
      other = ne_of_test p.id envoy_id (ground arith);
    },
    not-mem_of_has_in_path seen p.id (ground arith),
  )

  peer_errors_complete :
      (i : ℕ) (p : PeerSpec) (seen : List Bytes)
      → IsValidPeer p
      → ¬ Memᴰ p.id seen
      → peer_errors is_absolute_url envoy_id i p seen ≡ []
  unfolding peer_errors error_if
  peer_errors_complete i p seen v fresh = ground (
    arith,
    test_of_ne p.id [] v.id_given,
    test_of_ne p.endpoint [] v.endpoint_given,
    test_of_ne p.local_cluster [] v.local_cluster_given,
    v.absolute,
    test_of_ne p.id envoy_id v.other,
    has_in_path_of_not-mem seen p.id fresh,
  )

  pub peers_errors_sound :
      (i : ℕ) (peers : List PeerSpec) (seen : List Bytes)
      → peers_errors is_absolute_url envoy_id i peers seen ≡ []
      → All IsValidPeer peers × FreshAfter seen (ids peers)
  unfolding peers_errors
  peers_errors_sound i [] seen h = (tt, tt)
  peers_errors_sound i (p ∷ peers) seen h =
      let (now, rest) = append_eq_nil (peer_errors is_absolute_url envoy_id i p seen) _ h in
      let (v, fresh) = peer_errors_sound i p seen now in
      let (all, distinct) = peers_errors_sound (i + 1) peers (p.id ∷ seen) rest in
      ((v, all), (fresh, distinct))

  pub peers_errors_complete :
      (i : ℕ) (peers : List PeerSpec) (seen : List Bytes)
      → All IsValidPeer peers
      → FreshAfter seen (ids peers)
      → peers_errors is_absolute_url envoy_id i peers seen ≡ []
  unfolding peers_errors
  peers_errors_complete i [] seen v f = refl
  peers_errors_complete i (p ∷ peers) seen v f =
      append_nil_complete _ _ (peer_errors_complete i p seen v.0 f.0)
        (peers_errors_complete (i + 1) peers (p.id ∷ seen) v.1 f.1)

module _ (peer_locals : List Bytes) where
  -- A terminal with a name, which no peer is behind.
  abbrev pub IsValidTerminal : Bytes → Type 0
  IsValidTerminal name = (name ≢ []) × (¬ Memᴰ name peer_locals)

  pub terminals_errors_sound :
      (i : ℕ) (terminals seen : List Bytes)
      → terminals_errors peer_locals i terminals seen ≡ []
      → All IsValidTerminal terminals × FreshAfter seen terminals
  unfolding terminals_errors terminal_errors error_if
  terminals_errors_sound i [] seen h = (tt, tt)
  terminals_errors_sound i (name ∷ terminals) seen h =
      let (now, rest) = append_eq_nil (terminal_errors peer_locals i name seen) _ h in
      let (all, distinct) = terminals_errors_sound (i + 1) terminals (name ∷ seen) rest in
      (
        (
          (
            ne_of_test name [] (ground arith),
            not-mem_of_has_in_path peer_locals name (ground arith),
          ),
          all,
        ),
        (not-mem_of_has_in_path seen name (ground arith), distinct),
      )

  pub terminals_errors_complete :
      (i : ℕ) (terminals seen : List Bytes)
      → All IsValidTerminal terminals
      → FreshAfter seen terminals
      → terminals_errors peer_locals i terminals seen ≡ []
  unfolding terminals_errors terminal_errors error_if
  terminals_errors_complete i [] seen v f = refl
  terminals_errors_complete i (name ∷ terminals) seen v f = ground (
    arith,
    test_of_ne name [] v.0.0,
    has_in_path_of_not-mem peer_locals name v.0.1,
    has_in_path_of_not-mem seen name f.0,
    terminals_errors_complete (i + 1) terminals (name ∷ seen) v.1 f.1,
  )

module _ (parse_duration : Bytes → Option ℤ) where
  -- Both durations parse, the poll interval is long enough, and the staleness is no shorter than it.
  abbrev pub ValidDurations : Bytes → Bytes → Type 0
  ValidDurations poll_interval stale_after =
      (poll : ℤ) × (stale : ℤ) × (parse_duration poll_interval ≡ some poll)
      × (parse_duration stale_after ≡ some stale)
      × (min_poll_interval ≤ℤ poll)
      × (poll ≤ℤ stale)

  -- Both durations parse and the poll interval is long enough, but the staleness is zero or negative.
  abbrev pub StaleAtOnce : Bytes → Bytes → Type 0
  StaleAtOnce poll_interval stale_after =
      (poll : ℤ) × (stale : ℤ) × (parse_duration poll_interval ≡ some poll)
      × (parse_duration stale_after ≡ some stale)
      × (min_poll_interval ≤ℤ poll)
      × (stale ≤ℤ pos 0)
