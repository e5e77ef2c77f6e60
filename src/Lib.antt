-- ===== src/Lib.antt =====
-- Built On Envoy: models of Go extensions of the repository, and what is proved of them. Paths below are
-- from the root of the repository.
--
-- The program is a collection of extensions of Envoy, and the tool that runs Envoy with them. An extension is
-- a filter, which Envoy calls with the headers of requests and responses, built by a factory from a
-- configuration. Six extensions are modelled, all under extensions/composer.
--
-- ClusterRouter: cluster-router, where Envoys that are peers of one another learn which clusters they reach.
-- - ClusterRouter/Graph: routes, advertisements and tables (graph/types.go, graph/table.go).
-- - ClusterRouter/BestPath: `Compute` and `AdvertiseTo` (graph/bestpath.go), the pure core: `compute` folds
--   the peers' advertisements into a table, `advertise_to` withholds from a peer what goes through it. Its
--   children are about the order of routes, offers, and bounds.
-- - ClusterRouter/Peer: the server that answers with an advertisement, and the client (graph/peer.go).
-- - ClusterRouter/Daemon: the poll loop with its cache of peers (graph/daemon.go); `tick` collects from the
--   peers, computes a table and publishes it, and the server answers from the published table.
-- - ClusterRouter/Mesh: daemons that poll one another, as a step relation. A peer's answer may come from any
--   table that it has published before, so that polls interleave in any way.
-- - ClusterRouter/Config, ClusterRouter/Filter: `Config.validate`, and the filter that looks a request's
--   target up in the table and sets the next hop (cluster_router.go).
--
-- FaultInjection: dynamic-fault-injection, which delays and replaces responses by sampled latencies.
-- - FaultInjection/Match: which requests an endpoint is for (internal/fault/match.go).
-- - FaultInjection/Shuffle, Stateful, Cycles: the shuffle, the samples that are computed beforehand, and what
--   successive samples return; FaultInjection/Floats, Interpolate: how they are computed. FaultInjection/
--   Response, Weights: the choice of a status by weight; GreyZone, Load, Tiers: the choice by the number of requests
--   in flight and its penalties (all of internal/fault/distribution.go).
-- - FaultInjection/Percentiles, Config, Validate, Accepted: the parsing of percentiles, the checks of a
--   decoded configuration, and what an accepted one is like (internal/config). FaultInjection/Build, Ready,
--   Factories: the constructors, and what they build from it (internal/fault/distribution.go, plugin.go).
-- - FaultInjection/Filter, Respond: the two handlers, with what they change as state and what they do to the
--   response as a value; InFlight: the global count of requests over many filters; Outcome: what the client
--   sees (plugin.go).
--
-- FileServer: file-server, which answers requests with files (plugin.go).
-- - FileServer/Config, Choice: the configuration, its validation, and the choice of a mapping by its prefix.
-- - FileServer/Paths, Mapping: `filepath.Clean` and `Join`, and the way from a request's path to a file.
-- - FileServer/Range: the Range header and the part of the file that it asks for.
-- - FileServer/Handler, Served, Head: the handler, from the headers to what is sent; what it serves; HEAD.
--
-- TokenExchange: token-exchange, which has a security token service exchange the token of a request.
-- - TokenExchange/Config, Valid: the configuration, its errors and what is precomputed (config.go).
-- - TokenExchange/Handler, Body, Outcome: the handler and its callback as lists of effects (plugin.go); the
--   form that is posted; how each request and each response ends.
--
-- Openfga: openfga, which asks an OpenFGA service whether a request is allowed.
-- - Openfga/Source, Rules, Config: where values come from, the rules, and `parseConfig` (config.go, and
--   pkg/config.go); Resolve, Build, Accepted: what is precomputed, built and accepted.
-- - Openfga/Handler: the handler and its callback, as lists of effects (plugin.go). Trace: what is seen of
--   the effects; Decide: an abstract decision that the callback implements; Matching: the rule that a request falls
--   under; Request: the handler of requests.
--
-- LlmProxy: llm-proxy, which reads what is sent to language models. LlmProxy/Config, Accepted: its rules, with
-- their matchers (pkg/config.go), and the configuration, what an accepted one has (plugin.go).
--
-- Prelude passes on the names that all share: lists by position, byte strings (strings are lists of bytes),
-- integers over the native numbers, Go maps as association lists, `sort.Slice`; and of net/url and encoding/
-- base64 what the extensions call: percent-encoding (Escape), query strings and forms (Query), Base64.
--
-- No definition runs on fuel: loops over slices are recursion on lists, counting loops recursion on the
-- number of steps that are left. Distances are bounded by what a daemon accepts; durations and counts
-- are taken not to overflow, while the total of the weights of a distribution wraps at 64 bits, as Go's int
-- does; the sums up to an entry, which the choice of an entry compares with, are taken not to wrap, as they cannot
-- below a total that does not. A panic is `none`. What is not the repository's own code is a
-- parameter: the parsers of durations and URLs, the header maps of the SDK, the draws of crypto/rand, the
-- lengths of which `make` makes a slice, the file system, whether Envoy starts a callout, JSON in both directions, and the float operations, which have
-- no laws here. Time is an argument. Lengths of files and ranges are below 2 ^ 64, where a range's end wraps.
--
-- Not modelled: goroutines, sockets, HTTP, JSON and YAML of the extensions, logs and tracing, the
-- registration of metrics, the lookup of per-route factories, the handlers of llm-proxy, the other extensions,
-- and the command line tool.
pub mod Prelude
pub mod ClusterRouter
pub mod FaultInjection
pub mod FileServer
pub mod TokenExchange
pub mod Openfga
pub mod LlmProxy
