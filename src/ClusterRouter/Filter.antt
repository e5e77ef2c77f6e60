-- ===== src/ClusterRouter/Filter.antt =====
-- `Plugin.OnRequestHeaders` of cluster-router/cluster_router.go. The proxy's header map is an interface
-- of the Envoy SDK; what the filter tells the proxy otherwise is a list of actions, in order.
use built_on_envoy.Prelude.{
  ℕ, Bytes, text, bytes_eq, ◌==◌, eq_iff, not, Option, none, some, List, [], ◌∷◌, ◌++◌,
  if◌then◌else◌, ◌≡◌, ◌≢◌, ◌↔◌, inl, inr, Bool-cases, Option-cases, refl,
}
use built_on_envoy.Prelude.Int.{ℤ}
use built_on_envoy.ClusterRouter.Graph.{Route, Table, lookup_route}
use built_on_envoy.ClusterRouter.Config.{Config, target_source_header}

-- The SDK's header map: `get_one` of a header that is not there is empty.
pub record HeaderMap : Type 1 where
  pub Headers : Type 0
  pub get_one : Bytes → Headers → Bytes
  pub set : Bytes → Bytes → Headers → Headers
  pub remove : Bytes → Headers → Headers
  pub get_one-set : (k v : Bytes) (h : Headers) → get_one k (set k v h) ≡ v
  pub get_one-remove : (k : Bytes) (h : Headers) → get_one k (remove k h) ≡ []

pub data MetadataValue : Type 0 where
  str : Bytes → MetadataValue
  int : ℤ → MetadataValue

pub data Action : Type 0 where
  clear_route_cache : Action
  set_metadata : Bytes → Bytes → MetadataValue → Action
  -- status, headers, the fields of the JSON body, details
  send_local_response : ℕ → List (Bytes × Bytes) → List (Bytes × Bytes) → Bytes → Action

pub data HeadersStatus : Type 0 where
  continue stop : HeadersStatus

-- strings.Join(path, ",")
unfoldable pub join_commas : List Bytes → Bytes
join_commas [] = []
join_commas (p ∷ []) = p
join_commas (p ∷ q ∷ path) = p ++ b',' ∷ join_commas (q ∷ path)

unfoldable pub path_metadata : Bytes → List Bytes → List Action
unfolding join_commas
path_metadata ns [] = []
path_metadata ns (p ∷ path) = set_metadata ns (text "as_path") (str (join_commas (p ∷ path))) ∷ []

unfoldable pub route_metadata : Bytes → Route → List Action
unfolding path_metadata
route_metadata ns r =
    set_metadata ns (text "next_hop_cluster") (str r.next_hop_local_cluster)
    ∷ set_metadata ns (text "target_cluster") (str r.target_cluster)
    ∷ set_metadata ns (text "distance") (int r.distance)
    ∷ path_metadata ns r.as_path

unfoldable pub no_route : Bytes → Action
no_route target =
    send_local_response 404 ((text "content-type", text "application/json") ∷ [])
      ((text "error", text "no_route") ∷ (text "target", target) ∷ [])
      (text "cluster-router-no-route")

module _ (api : HeaderMap) where
  open api use {Headers, get_one, set, remove, get_one-set, get_one-remove}

  pub record Outcome : Type 0 where
    pub headers : Option Headers
    pub actions : List Action
    pub status : HeadersStatus

  unfoldable pub read_target : Config → Option Headers → Bytes
  read_target cfg none = []
  read_target cfg (some h) =
      if not (cfg.target_cluster_source == target_source_header)
      then []
      else get_one cfg.target_cluster_header h

  unfoldable pub resolve : Config → Table → Bytes → Headers → Outcome
  resolve cfg table target h = elim (lookup_route table target) [
    | none ↦ record { headers = some h; actions = no_route target ∷ []; status = stop }
    | some route ↦ record {
      headers = some (set cfg.next_hop_header route.next_hop_local_cluster h);
      actions = clear_route_cache ∷ route_metadata cfg.metadata_namespace route;
      status = continue;
    }
  ]

  unfoldable pub on_request_headers : Config → Table → Option Headers → Outcome
  unfolding read_target
  on_request_headers cfg table none = record { headers = none; actions = []; status = continue }
  on_request_headers cfg table (some h) =
      let h' = remove cfg.next_hop_header h in
      let target = read_target cfg (some h') in
      if target == []
      then record { headers = some h'; actions = []; status = continue }
      else resolve cfg table target h'

  -- The target that the filter reads: it has removed the next-hop header first.
  abbrev pub target_of : Config → Headers → Bytes
  target_of cfg h = read_target cfg (some (remove cfg.next_hop_header h))

  -- The next hop of the table's route to a target, and empty if there is no target or no route.
  abbrev pub next_hop_of : Table → Bytes → Bytes
  next_hop_of table target =
      if target == []
      then []
      else elim (lookup_route table target) [ none ↦ [] | some r ↦ r.next_hop_local_cluster ]

  -- The next-hop header that goes on is that of the table's route, or empty, so that a value which a
  -- client sets never gets through; and the request stops exactly if it has a target without a route.
  pub on_request_headers_next_hop :
      (cfg : Config) (table : Table) (h : Headers)
      → (h' : Headers) × ((on_request_headers cfg table (some h)).headers ≡ some h')
        × (get_one cfg.next_hop_header h' ≡ next_hop_of table (target_of cfg h))
        × (((on_request_headers cfg table (some h)).status ≡ stop)
            ↔ ((target_of cfg h ≢ []) × (lookup_route table (target_of cfg h) ≡ none)))
  unfolding on_request_headers resolve
  on_request_headers_next_hop cfg table h = elim (Bool-cases (target_of cfg h == [])) [
    | inl e ↦
        let gone = (eq_iff (target_of cfg h) []).0 e in
        rw e
          (removed, refl, get_one-remove cfg.next_hop_header h, ((λ k. cc), λ k. absurd (k.0 gone)))
    | inr e ↦ elim (Option-cases (lookup_route table (target_of cfg h))) [
      | inl none_there ↦
          rw (e, none_there, resolve)
            (
              removed,
              refl,
              get_one-remove cfg.next_hop_header h,
              ((λ k. ((λ q. cc (e, (eq_iff (target_of cfg h) []).1 q)), refl)), λ k. refl),
            )
      | inr (r, there) ↦
          rw (e, there, resolve)
            (
              set cfg.next_hop_header r.next_hop_local_cluster removed,
              refl,
              get_one-set cfg.next_hop_header r.next_hop_local_cluster removed,
              ((λ k. cc), λ k. cc (k.1)),
            )
    ]
  ]
    where
      removed : Headers
      removed = remove cfg.next_hop_header h
