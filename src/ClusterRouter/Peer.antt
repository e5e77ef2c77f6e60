-- ===== src/ClusterRouter/Peer.antt =====
-- cluster-router/graph/peer.go: the HTTP server that hands out advertisements, and the client that
-- fetches them. Sockets, URL parsing, HTTP transport and JSON are outside: a request comes as its
-- method and `peer` parameter, and the outcome of a call as a value of `Exchange`.
use built_on_envoy.Prelude.{
  ℕ, Bytes, text, bytes_eq, nat_eq, ◌==◌, not, Option, none, some, [], ◌∷◌, if◌then◌else◌, ◌++◌,
}
use built_on_envoy.ClusterRouter.Graph.{Advertisement, Table}
use built_on_envoy.ClusterRouter.BestPath.{advertise_to}

pub data Reply : Type 0 where
  method_not_allowed : Reply
  advertise : Advertisement → Reply

-- AdvertisementServer.handle
unfoldable pub handle : Bytes → Table → Bytes → Bytes → Reply
handle envoy_id t method peer_id =
    if not (method == text "GET")
    then method_not_allowed
    else advertise (record { envoy_id = envoy_id; routes = advertise_to t peer_id })

-- What comes of calling a URL: it does not parse, or the request cannot be made or sent, or there is a
-- status with a body, which may decode (within the size limit) to an advertisement.
pub data Exchange : Type 0 where
  bad_url bad_request no_response : Exchange
  response : ℕ → Option Advertisement → Exchange

pub data FetchError : Type 0 where
  parse_peer_url new_request peer_request decode_advertisement : FetchError
  peer_status : ℕ → FetchError

pub data Fetched : Type 0 where
  ok : Advertisement → Fetched
  err : FetchError → Fetched

-- strings.TrimRight(s, "/")
unfoldable pub trim_slashes : Bytes → Bytes
trim_slashes [] = []
trim_slashes (c ∷ s) = elim (trim_slashes s) [
  | [] ↦ if c == b'/' then [] else c ∷ []
  | d ∷ r ↦ c ∷ d ∷ r
]

read_response : ℕ → Option Advertisement → Fetched
read_response status body =
    if not (status == 200)
    then err (peer_status status)
    else elim body [ none ↦ err decode_advertisement | some adv ↦ ok adv ]

read_exchange : Exchange → Fetched
unfolding read_response
read_exchange bad_url = err parse_peer_url
read_exchange bad_request = err new_request
read_exchange no_response = err peer_request
read_exchange (response status body) = read_response status body

-- FetchAdvertisement; `call url peer` is a GET of the URL with the query `peer=`.
unfoldable pub fetch_advertisement : (Bytes → Bytes → Exchange) → Bytes → Bytes → Fetched
unfolding read_exchange trim_slashes
fetch_advertisement call peer_endpoint local_envoy_id =
    read_exchange (call (trim_slashes peer_endpoint ++ text "/advertisements") local_envoy_id)
